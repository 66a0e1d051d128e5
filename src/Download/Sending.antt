-- ===== src/Download/Sending.antt =====
-- What the download handlers change in the table of servers, pingu/download.c: they only send.
use misc_uni_stuff.Base.{
  ℕ, ◌≡◌, ◌≢◌, ◌<◌, ◌^◌, ==_iff, subst, arith, refl, ap, sym, ◌∙◌, List, ◌++◌, [], ◌∷◌, Bool, true,
  false, leb, length, Option, none, some, ok, guard, out_of_bounds, ◌>>=◌, bind-ok, ok-injective,
}
use misc_uni_stuff.Host.{Host}
use misc_uni_stuff.Glib.{Slist, Gtree}
use misc_uni_stuff.Packet.{FullPacket, SockaddrIn, fillin_packet, request_wantfile}
use misc_uni_stuff.Net.{Net, transmit}
use misc_uni_stuff.Net.Sending.{OnlySends, transmit-OnlySends}
use misc_uni_stuff.Search.{Filedata, FiledataResponse, copy_out}
use misc_uni_stuff.Download.{
  DownloadData, Transfers, find_wanted, download_send_file_reply, download_send_file,
  get_request_wantfile, waiting_address, fetch, full_file, download_reply_transferwaiting,
  max_digest_bin_bytes, fill_timeout, download_make_request, get_reply_download_file,
}
use misc_uni_stuff.Download.Asking.{fill_timeout-IsHandler}
use misc_uni_stuff.Request.{Handler, compare_func, request_start, request_get}
use misc_uni_stuff.Request.Numbers.{IsHandler, request_start-IsHandler}

module _ ⦃h : Host⦄ ⦃g : Slist⦄ where
  download_send_file-OnlySends :
      (p : FullPacket) (md5sum name : List ℕ) (opened : Option ℕ) (listening : Option (ℕ × ℕ))
      (s : Net) (r : Net × Option DownloadData)
      → download_send_file p md5sum name opened listening s ≡ ok r
      → OnlySends s r.0
  unfolding download_send_file download_send_file_reply
  download_send_file-OnlySends p md5sum name none listening s r e = same (ok-injective e)
    where
      same : (s, none) ≡ r → OnlySends s r.0
      same e = sym (ap (λ x. x.0) e) ∙ ap (λ x. record s { sent = x.0.sent }) e
  download_send_file-OnlySends p md5sum name (some fileid) none s r e = same (ok-injective e)
    where
      same : (s, none) ≡ r → OnlySends s r.0
      same e = sym (ap (λ x. x.0) e) ∙ ap (λ x. record s { sent = x.0.sent }) e
  download_send_file-OnlySends p md5sum name (some fileid) (some (listenid, port)) s r e =
      let d : DownloadData = record { listenport = port; listenid = listenid; fileid = fileid } in
      let (u, sent, e1) = bind-ok (download_send_file_reply p d name md5sum s) _ r e in
      let (a, bounds, e2) =
        bind-ok (guard (leb max_digest_bin_bytes (length md5sum)) out_of_bounds) _ u sent in
      let only = transmit-OnlySends _ _ _ s u e2 in
      let same = ap (λ x. x.0) (ok-injective e1) in
      sym same ∙ only ∙ ap (λ x. record s { sent = x.sent }) same

  pub get_request_wantfile-OnlySends :
      (p : FullPacket) (database : List Filedata) (opened : Option ℕ) (listening : Option (ℕ × ℕ))
      (s u : Transfers)
      → get_request_wantfile p database opened listening s ≡ ok u
      → OnlySends s.net u.net
  unfolding get_request_wantfile
  get_request_wantfile-OnlySends p database opened listening s u e =
      let (wanted, l, e') = bind-ok (find_wanted p.payload database) _ u e in sends wanted e'
    where
      sends :
          (wanted : Option Filedata)
          → elim wanted [
            | none ↦ ok s
            | some f ↦ download_send_file p p.payload f.filename opened listening s.net >>= λ done.
                ok (record s { net = done.0; download_pool = s.download_pool ++ done.1 ∷ [] })
          ]
            ≡ ok u
          → OnlySends s.net u.net
      sends none e =
          let same = ap (λ x. x.net) (ok-injective e) in
          sym same ∙ ap (λ x. record s.net { sent = x.sent }) same
      sends (some f) e =
          let (done, sent, e') =
            bind-ok (download_send_file p p.payload f.filename opened listening s.net) _ u e in
          let same = ap (λ x. x.net) (ok-injective e') in
          sym same
          ∙ download_send_file-OnlySends p p.payload f.filename opened listening s.net done sent
          ∙ ap (λ x. record s.net { sent = x.sent }) same

  fetch-net :
      (ad : SockaddrIn) (name : List ℕ) (sockfd : Option ℕ) (connects : Bool) (filefd : Option ℕ)
      (junk : ℕ) (s : Transfers)
      → (fetch ad name sockfd connects filefd junk s).net ≡ s.net
  unfolding fetch
  fetch-net ad name none connects filefd junk s = refl
  fetch-net ad name (some sockfd) false filefd junk s = refl
  fetch-net ad name (some sockfd) true none junk s = refl
  fetch-net ad name (some sockfd) true (some filefd) junk s = refl

  -- Where the socket connects and the file is created, a job is started.
  pub fetch-started :
      (ad : SockaddrIn) (name : List ℕ) (socket creates : Option ℕ) (connects : Bool)
      (sockfd filefd junk : ℕ) (s : Transfers)
      → socket ≡ some sockfd
      → connects ≡ true
      → creates ≡ some filefd
      → fetch ad name socket connects creates junk s ≡ record s {
        connected = s.connected ++ ad ∷ [];
        created = s.created ++ name ∷ [];
        upload_pool =
            s.upload_pool ++ record { listenport = junk; listenid = sockfd; fileid = filefd } ∷ [];
      }
  unfolding fetch
  fetch-started ad name socket creates connects sockfd filefd junk s a b c =
      rw (a, b, c, fetch) refl

  pub download_reply_transferwaiting-net :
      (p : FullPacket) (sockfd : Option ℕ) (connects : Bool) (filefd : Option ℕ) (junk : ℕ)
      (s u : Transfers)
      → download_reply_transferwaiting p sockfd connects filefd junk s ≡ ok u
      → u.net ≡ s.net
  unfolding download_reply_transferwaiting
  download_reply_transferwaiting-net p sockfd connects filefd junk s u e =
      let (name, l, e1) = bind-ok (copy_out p.payload 22 p.packet.packet_length) _ u e in
      let (ad, l', e2) = bind-ok (waiting_address p) _ u e1 in
      sym (ap (λ x. x.net) (ok-injective e2))
      ∙ fetch-net ad (full_file name) sockfd connects filefd junk s

  module _ ⦃t : Gtree compare_func⦄ where
    -- A click on a row keeps the table of requests well formed, while a number is free and the
    -- block is new.
    pub get_reply_download_file-IsHandler :
        (k : FiledataResponse) (now req i : ℕ) (s : Handler t.Tree) (net : Net)
        (u : Handler t.Tree × Net)
        → IsHandler s
        → ((j : ℕ) → request_get s j ≢ some req)
        → 0 < i
        → i < 2 ^ 16
        → request_get s i ≡ none
        → get_reply_download_file k now req s net ≡ ok u
        → IsHandler u.0 × OnlySends net u.1
    unfolding get_reply_download_file download_make_request fill_timeout request_get
    get_reply_download_file-IsHandler k now req i s net u v new pos_i small free e =
        let filled = fill_timeout req s in
        let started = request_start filled req now in
        let kept =
          request_start-IsHandler filled req now i (fill_timeout-IsHandler req s v)
            (ground (arith, (==_iff req req).1 refl)) new pos_i small free in
        let (w, run, e') =
          bind-ok
            (transmit k.addr (fillin_packet request_wantfile max_digest_bin_bytes started.1)
              k.md5sum net)
            _ u e in
        let same = ok-injective e' in
        (
          subst (λ (x : Handler t.Tree × Net). IsHandler x.0) same kept,
          subst (λ (x : Handler t.Tree × Net). OnlySends net x.1) same
              (transmit-OnlySends _ _ _ net w run),
        )

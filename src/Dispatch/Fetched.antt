-- ===== src/Dispatch/Fetched.antt =====
-- A download from the click to the connection: get_reply_download_file of pingu/filesearch.c and
-- pingu/download.c on one host, and apply_packet of pingu/socket.c on both.
use misc_uni_stuff.Base.{
  ℕ, ◌+◌, ◌^◌, ◌≡◌, ◌≢◌, ◌<◌, ◌≤◌, refl, sym, ap, subst, ◌∙◌, arith, List, [], ◌∷◌, ◌++◌, All, some,
  ok, ◌>>=◌, length, take, take_all,
}
use misc_uni_stuff.Host.{Host}
use misc_uni_stuff.Glib.{Slist, Gtree}
use misc_uni_stuff.Packet.{
  FullPacket, SockaddrIn, read_packet, recvfrom, max_packet, request_wantfile,
  reply_transferwaiting,
}
use misc_uni_stuff.Packet.Wire.{fillin_packet-fields}
use misc_uni_stuff.Net.{af_inet}
use misc_uni_stuff.Net.Replies.{sending}
use misc_uni_stuff.Request.{compare_func}
use misc_uni_stuff.Request.Numbers.{IsHandler}
use misc_uni_stuff.Search.{Filedata, FiledataResponse, Glob}
use misc_uni_stuff.Search.Query.{IsText}
use misc_uni_stuff.Download.{
  download_directory, fetch, download_reply_transferwaiting, get_reply_download_file,
}
use misc_uni_stuff.Download.Asking.{
  wanting, wanting-lt, want_datagram, get_reply_download_file-sent,
}
use misc_uni_stuff.Download.Wanted.{get_request_wantfile-first}
use misc_uni_stuff.Download.Waiting.{
  waiting, waiting_reply, length-waiting, download_reply_transferwaiting-waiting,
}
use misc_uni_stuff.Dispatch.{listening_of, World, Calls, apply_packet}
use misc_uni_stuff.Dispatch.Receive.{ours, receive_same}
use misc_uni_stuff.Dispatch.Switch.{apply_packet-wantfile, apply_packet-transferwaiting}

module _ ⦃g : Slist⦄ ⦃t : Gtree compare_func⦄ ⦃h : Host⦄ ⦃m : Glob⦄ where
  -- The request for a file as it is read.
  abbrev pub want : ℕ → List ℕ → SockaddrIn → FullPacket
  want n md5sum from = ours request_wantfile 16 n md5sum from

  want_handle :
      (n : ℕ) (md5sum : List ℕ) (from : SockaddrIn)
      → (want n md5sum from).packet.request_handle < 2 ^ 16
  want_handle n md5sum from = omega (arith, (fillin_packet-fields h request_wantfile 16 n).2)

  -- The state of the asker after the click.
  abbrev pub clicked : FiledataResponse → ℕ → ℕ → World t.Tree → World t.Tree
  clicked k now req w =
      let net = w.transfers.net in
      let started = wanting now req w.requests in
      record w {
        requests = started.0;
        transfers = record w.transfers {
          net = sending net (net.sent ++ (k.addr, want_datagram started.1 k.md5sum) ∷ []);
        };
      }

  -- The state of the sender, which serves `f` on `port`.
  abbrev pub serving : FullPacket → Filedata → ℕ → ℕ → ℕ → World t.Tree → World t.Tree
  serving q f fileid listenid port v =
      let net = v.transfers.net in
      record v {
        transfers = record v.transfers {
          net = sending net (net.sent ++ waiting_reply q port (take 16 q.payload) f.filename ∷ []);
          download_pool =
              v.transfers.download_pool
              ++ some (record { listenport = port; listenid = listenid; fileid = fileid }) ∷ [];
        };
      }

  receive_want :
      (n : ℕ) (md5sum buffer : List ℕ) (from : SockaddrIn) (d : Calls) (v : World t.Tree)
      (before after : List Filedata) (f : Filedata) (fileid listenid port : ℕ)
      → n < 2 ^ 16
      → length md5sum ≡ 16
      → v.database ≡ before ++ f ∷ after
      → All (λ x. (length x.md5sum ≡ 16) × (x.md5sum ≢ take 16 md5sum)) before
      → f.md5sum ≡ take 16 md5sum
      → length f.filename + 32 ≤ max_packet
      → d.opened ≡ some fileid
      → listening_of d ≡ some (listenid, port)
      → (read_packet (recvfrom buffer (want_datagram n md5sum)) from >>= λ p. apply_packet d p v)
        ≡ ok (serving (want n md5sum from) f fileid listenid port v)
  receive_want n md5sum buffer from d v before after f fileid listenid port small long has others
        same fits opened listening =
      let first =
        get_request_wantfile-first (want n md5sum from) before after f fileid listenid port
          v.transfers (omega arith) others same fits in
      rw
        (
          receive_same request_wantfile 16 n md5sum buffer from (omega arith) small long,
          apply_packet-wantfile d v 16 n md5sum from,
          has,
          opened,
          listening,
          first,
        )
        refl

  receive_waiting :
      (q : FullPacket) (port : ℕ) (md5sum filename buffer : List ℕ) (ad : SockaddrIn) (c : Calls)
      (u : World t.Tree)
      → length md5sum ≡ 16
      → IsText filename
      → port < 2 ^ 16
      → length filename + 32 ≤ max_packet
      → q.packet.request_handle < 2 ^ 16
      → (read_packet (recvfrom buffer (waiting_reply q port md5sum filename).1) ad >>= λ p.
          apply_packet c p u)
        ≡ ok (record u {
          transfers =
              fetch
                (record { sin_family = af_inet; sin_port = port; s_addr = ad.s_addr })
                (download_directory ++ 47 ∷ filename)
                c.sockfd
                c.connects
                c.filefd
                c.junk
                u.transfers;
        })
  receive_waiting q port md5sum filename buffer ad c u long is small fits handle =
      let n = 22 + length filename in
      let d = waiting port md5sum filename in
      let read =
        receive_same reply_transferwaiting n q.packet.request_handle d buffer ad (omega arith)
          handle (length-waiting port md5sum filename long) in
      let waited =
        download_reply_transferwaiting-waiting q port md5sum filename buffer ad c.sockfd c.connects
          c.filefd c.junk u.transfers long is small fits handle in
      let fetched =
        sym (
          ap
            (λ r. r >>= λ p.
              download_reply_transferwaiting p c.sockfd c.connects c.filefd c.junk u.transfers)
            read)
        ∙ waited in
      rw (read, apply_packet-transferwaiting c u n q.packet.request_handle d ad, fetched) refl

  -- A download gets the file that was asked for. While the table of requests is well formed, the
  -- click on a row with a sum of sixteen bytes sends one datagram to the row's address. A host of
  -- the same byte order whose database has the sum first at `f`, with sums of sixteen bytes before
  -- it and a name for `f` without NUL that fits into a packet, and that can open the file and
  -- listen on a port of 16 bits, puts the job that sends it into its pool and answers the sender
  -- in one datagram. Who receives this answer, over any buffer, fetches from the address that it
  -- came from, at the port that is listened on, into the file of that name in the download
  -- directory.
  pub get_reply_download_file-fetched :
      (k : FiledataResponse) (now req : ℕ) (w v : World t.Tree) (c d : Calls)
      (before after : List Filedata) (f : Filedata) (fileid listenid port : ℕ)
      (buffer buffer' : List ℕ) (from ad : SockaddrIn)
      → IsHandler w.requests
      → length k.md5sum ≡ 16
      → v.database ≡ before ++ f ∷ after
      → All (λ x. (length x.md5sum ≡ 16) × (x.md5sum ≢ k.md5sum)) before
      → f.md5sum ≡ k.md5sum
      → IsText f.filename
      → length f.filename + 32 ≤ max_packet
      → d.opened ≡ some fileid
      → listening_of d ≡ some (listenid, port)
      → port < 2 ^ 16
      → (u x : World t.Tree) × (n : ℕ) × (get_reply_download_file k now req w.requests
            w.transfers.net
          ≡ ok (u.requests, u.transfers.net))
        × (u.transfers.net.sent ≡ w.transfers.net.sent ++ (k.addr, want_datagram n k.md5sum) ∷ [])
        × ((read_packet (recvfrom buffer (want_datagram n k.md5sum)) from >>= λ p.
              apply_packet d p v)
            ≡ ok x)
        × (x.transfers.download_pool
            ≡ v.transfers.download_pool
              ++ some (record { listenport = port; listenid = listenid; fileid = fileid }) ∷ [])
        × (x.transfers.net.sent
            ≡ v.transfers.net.sent
              ++ waiting_reply (want n k.md5sum from) port k.md5sum f.filename ∷ [])
        × ((read_packet
                (recvfrom buffer' (waiting_reply (want n k.md5sum from) port k.md5sum f.filename).1)
                ad
              >>= λ p. apply_packet c p u)
            ≡ ok (record u {
              transfers =
                  fetch
                    (record { sin_family = af_inet; sin_port = port; s_addr = ad.s_addr })
                    (download_directory ++ 47 ∷ f.filename)
                    c.sockfd
                    c.connects
                    c.filefd
                    c.junk
                    u.transfers;
            }))
  get_reply_download_file-fetched k now req w v c d before after f fileid listenid port buffer
        buffer' from ad handler long has others same is fits opened listening small =
      let n = (wanting now req w.requests).1 in
      let whole = take_all 16 k.md5sum (omega arith) in
      let q = want n k.md5sum from in
      (
        clicked k now req w,
        serving q f fileid listenid port v,
        n,
        get_reply_download_file-sent k now req w.requests w.transfers.net long,
        refl,
        receive_want n k.md5sum buffer from d v before after f fileid listenid port
            (wanting-lt now req w.requests handler) long has
            (subst (λ l. All (λ x. (length x.md5sum ≡ 16) × (x.md5sum ≢ l)) before) (sym whole)
              others)
            (same ∙ sym whole) fits opened listening,
        refl,
        ap (λ l. v.transfers.net.sent ++ waiting_reply q port l f.filename ∷ []) whole,
        receive_waiting q port k.md5sum f.filename buffer' ad c (clicked k now req w) long is small
            fits (want_handle n k.md5sum from),
      )

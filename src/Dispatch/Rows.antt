-- ===== src/Dispatch/Rows.antt =====
-- A query and the answers to it: searchfile, and get_reply_search as the last step of apply_packet,
-- pingu/filesearch.c and pingu/socket.c.
use misc_uni_stuff.Base.{
  ℕ, ◌+◌, ◌^◌, ◌≡◌, ◌<◌, ◌≤◌, refl, ap, ◌∙◌, arith, List, [], ◌∷◌, ◌++◌, true, ==_iff, some, ok,
  ◌>>=◌, length,
}
use misc_uni_stuff.Host.{Host}
use misc_uni_stuff.Glib.{Slist, Gtree}
use misc_uni_stuff.Packet.{
  FullPacket, SockaddrIn, fillin_packet, read_packet, recvfrom, max_packet, request_filesearch,
  reply_filesearch,
}
use misc_uni_stuff.Packet.Wire.{fillin_packet-fields}
use misc_uni_stuff.Net.Replies.{sending, copies, clients}
use misc_uni_stuff.Request.{compare_func, update, request_get}
use misc_uni_stuff.Request.Numbers.{IsHandler}
use misc_uni_stuff.Search.{Filedata, FiledataResponse, Glob, Models, query_payload, searchfile}
use misc_uni_stuff.Search.Answers.{
  IsFiledata, answer, details, arrived, read_answer, read_response-arrived,
}
use misc_uni_stuff.Search.Replies.{
  query_number, query_number-lt, asked, asked-open, searchfile-sent, get_reply_search-row,
}
use misc_uni_stuff.Dispatch.{World, Calls, apply_packet}
use misc_uni_stuff.Dispatch.Switch.{apply_packet-reply_filesearch}

update_same : {A : Type 0} (f : ℕ → A) (k : ℕ) (a : A) → update f k a k ≡ a
update_same f k a = ground (arith, (==_iff k k).1 refl)

module _ ⦃g : Slist⦄ ⦃t : Gtree compare_func⦄ ⦃h : Host⦄ ⦃m : Glob⦄ where
  -- The row that tells of a file.
  abbrev pub row_of : Filedata → SockaddrIn → FiledataResponse
  row_of f ad = record {
    filename = f.fullfilename;
    md5sum = f.md5sum;
    size = f.filesize;
    addr = ad;
  }

  receive_answer :
      (c : Calls) (w : World t.Tree) (q : FullPacket) (f : Filedata) (local port : ℕ)
      (buffer : List ℕ) (ad : SockaddrIn) (l : ℕ)
      → IsFiledata f
      → q.packet.request_handle < 2 ^ 16
      → request_get w.requests q.packet.request_handle ≡ some l
      → (w.requests.cell l).active ≡ true
      → (read_packet (recvfrom buffer (answer q local port f).1) ad >>= λ p. apply_packet c p w)
        ≡ ok (record w {
          models =
              update w.models
                (w.requests.cell l).model
                (w.models (w.requests.cell l).model ++ row_of f ad ∷ []);
        })
  receive_answer c w q f local port buffer ad l v small found open_request =
      let n = 20 + length f.fullfilename in
      let handle = q.packet.request_handle in
      let p = arrived q f ad in
      let fields = fillin_packet-fields h reply_filesearch n handle in
      let same : p.packet.request_handle ≡ handle = omega (arith, fields.2) in
      let row =
        get_reply_search-row p w.requests w.models (row_of f ad) (read_response-arrived q f ad v) in
      rw
        (
          read_answer q f local port buffer ad v small,
          apply_packet-reply_filesearch c w n handle (details f) ad,
          row,
          same,
          found,
          open_request,
        )
        refl

  -- The state after a click on the button.
  abbrev pub searched : List ℕ → ℕ → ℕ → ℕ → ℕ → ℕ → ℕ → World t.Tree → World t.Tree
  searched text now req model meek junk junk' w =
      let net = w.transfers.net in
      record w {
        requests = asked now req model meek w.requests;
        models = update w.models model [];
        transfers = record w.transfers {
          net = sending net (
              net.sent
              ++ copies
                  (fillin_packet request_filesearch (8 + length text)
                    (query_number now req w.requests))
                  (query_payload text junk junk') (clients net net.sockets));
        };
      }

  pub searchfile-searched :
      (text : List ℕ) (now req model meek junk junk' : ℕ) (w : World t.Tree)
      → length text + 18 ≤ max_packet
      → searchfile text now req model meek junk junk' w.requests w.models w.transfers.net
        ≡ ok (
          (searched text now req model meek junk junk' w).requests,
          (searched text now req model meek junk junk' w).models,
          (searched text now req model meek junk junk' w).transfers.net,
        )
  searchfile-searched text now req model meek junk junk' w fits =
      searchfile-sent text now req model meek junk junk' w.requests w.models w.transfers.net fits

  -- An answer with the number of the query becomes the first row of the window.
  pub receive_row :
      (text : List ℕ) (now req model meek junk junk' : ℕ) (w : World t.Tree) (c : Calls)
      (q : FullPacket) (f : Filedata) (local port : ℕ) (buffer : List ℕ) (ad : SockaddrIn)
      → IsHandler w.requests
      → IsFiledata f
      → q.packet.request_handle ≡ query_number now req w.requests
      → (read_packet (recvfrom buffer (answer q local port f).1) ad >>= λ p.
          apply_packet c p (searched text now req model meek junk junk' w))
        ≡ ok (record (searched text now req model meek junk junk' w) {
          models = update (update w.models model []) model (row_of f ad ∷ []);
        })
  receive_row text now req model meek junk junk' w c q f local port buffer ad v file e =
      let models : Models = update w.models model [] in
      let u = searched text now req model meek junk junk' w in
      let opened = asked-open now req model meek w.requests in
      let found : request_get u.requests q.packet.request_handle ≡ some req =
        ap (request_get u.requests) e ∙ opened.0 in
      let small : q.packet.request_handle < 2 ^ 16 =
        omega (arith, query_number-lt now req w.requests v) in
      receive_answer c u q f local port buffer ad req file small found opened.1
      ∙ ap (λ k. ok (record u { models = update models k (models k ++ row_of f ad ∷ []) })) opened.2
      ∙ ap (λ l. ok (record u { models = update models model (l ++ row_of f ad ∷ []) }))
          (update_same w.models model [])

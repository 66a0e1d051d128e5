-- ===== src/Search/Replies.antt =====
-- From the click on the button to the rows of the window: searchfile and get_reply_search of
-- pingu/filesearch.c.
use misc_uni_stuff.Base.{
  ℕ, ◌+◌, ◌^◌, ◌≡◌, ◌<◌, ◌≤◌, refl, arith, List, [], ◌∷◌, ◌++◌, true, ==_iff, if◌then◌else◌, none,
  some, ok, fault, null_pointer, length, Option-cases, inl, inr,
}
use misc_uni_stuff.Host.{Host, store16, store32}
use misc_uni_stuff.Glib.{Slist, Gtree}
use misc_uni_stuff.Packet.{FullPacket, fillin_packet, max_packet, request_filesearch}
use misc_uni_stuff.Packet.Wire.{fillin_length}
use misc_uni_stuff.Net.{Net}
use misc_uni_stuff.Net.Replies.{sending, copies, clients, send_to_all-sent}
use misc_uni_stuff.Request.{Handler, compare_func, update, request_start, request_get}
use misc_uni_stuff.Request.Numbers.{IsHandler, request_start_number, request_get-request_start}
use misc_uni_stuff.Search.{
  FiledataResponse, Models, query_payload, read_response, add_row, get_reply_search, fill_request,
  fill_data, searchfile,
}

pub length-query_payload :
    (h : Host) (text : List ℕ) (junk junk' : ℕ)
    → length (query_payload ⦃h = h⦄ text junk junk') ≡ 8 + length text
unfolding query_payload store32 store16
length-query_payload h text junk junk' = ground arith

module _ ⦃g : Slist⦄ ⦃t : Gtree compare_func⦄ where
  pub fill_request-IsHandler :
      (now k : ℕ) (s : Handler t.Tree) → IsHandler s → IsHandler (fill_request now k s)
  unfolding fill_request
  fill_request-IsHandler now k s v = record {
    positive = v.positive;
    fits = v.fits;
    numbered = λ j i e. ground (arith, v.numbered j i);
    alive = λ j i e. ground (arith, v.alive j i);
  }

  -- The number of a query.
  abbrev pub query_number : ℕ → ℕ → Handler t.Tree → ℕ
  query_number now req s = (request_start (fill_request now req s) req now).1

  pub query_number-lt :
      (now req : ℕ) (s : Handler t.Tree) → IsHandler s → query_number now req s < 2 ^ 16
  query_number-lt now req s v =
      (request_start_number (fill_request now req s) req now (fill_request-IsHandler now req s v)).1

  -- The requests after a query was sent out.
  abbrev pub asked : ℕ → ℕ → ℕ → ℕ → Handler t.Tree → Handler t.Tree
  asked now req model meek s =
      fill_data model meek req (request_start (fill_request now req s) req now).0

  pub asked-open :
      (now req model meek : ℕ) (s : Handler t.Tree)
      → (request_get (asked now req model meek s) (query_number now req s) ≡ some req)
        × (((asked now req model meek s).cell req).active ≡ true)
        × (((asked now req model meek s).cell req).model ≡ model)
  unfolding fill_data request_get fill_request
  asked-open now req model meek s =
      let n = query_number now req s in
      let started = request_get-request_start (fill_request now req s) req now n (ground arith) in
      ground (arith, started, (==_iff n n).1 refl)

  module _ ⦃h : Host⦄ where
    -- A click on the button, for a text that fits into a packet, opens an active request for a new
    -- window without rows under a new number, and sends the query with this number to each known
    -- server.
    pub searchfile-sent :
        (text : List ℕ) (now req model meek junk junk' : ℕ) (s : Handler t.Tree) (models : Models)
        (net : Net)
        → length text + 18 ≤ max_packet
        → searchfile text now req model meek junk junk' s models net
          ≡ ok (
            asked now req model meek s,
            update models model [],
            sending net (
                net.sent
                ++ copies
                    (fillin_packet request_filesearch (8 + length text) (query_number now req s))
                    (query_payload text junk junk')
                    (clients net net.sockets)),
          )
    unfolding searchfile
    searchfile-sent text now req model meek junk junk' s models net fits =
        let n = query_number now req s in
        let d = query_payload text junk junk' in
        let long = length-query_payload h text junk junk' in
        rw
          (send_to_all-sent (fillin_packet request_filesearch (8 + length text) n) d net
            (fillin_length h request_filesearch (8 + length text) n d (omega arith) long))
          refl

    -- An answer that can be read becomes the last row of the window of its request while this is
    -- in the table and active, and changes nothing when it is in the table and ended; where the
    -- request is not in the table, its NULL pointer is looked through.
    pub get_reply_search-row :
        (p : FullPacket) (s : Handler t.Tree) (models : Models) (row : FiledataResponse)
        → read_response p ≡ ok row
        → get_reply_search p s models ≡ elim (request_get s p.packet.request_handle) [
          | none ↦ fault null_pointer
          | some l ↦ ok (
              if (s.cell l).active
              then update models (s.cell l).model (models (s.cell l).model ++ row ∷ [])
              else models)
        ]
    unfolding get_reply_search add_row
    get_reply_search-row p s models row e =
        elim (Option-cases (request_get s p.packet.request_handle)) [
          | inl missing ↦ ground (arith, missing)
          | inr (l, found) ↦ ground (arith, found, e, g.append_lem (models (s.cell l).model) row)
        ]

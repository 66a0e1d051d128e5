-- ===== src/Dispatch/Found.antt =====
-- A search from the click to the row: the query of one host, the answer of another and its row,
-- over searchfile of pingu/filesearch.c and apply_packet of pingu/socket.c on both hosts.
use misc_uni_stuff.Base.{
  ℕ, ◌+◌, ◌^◌, ◌≡◌, ◌<◌, ◌≤◌, refl, sym, ap, ap₂, map, subst, ◌∙◌, arith, List, [], ◌∷◌, ◌++◌, All,
  true, ok, ◌>>=◌, length,
}
use mathlib.Core.List.{Memᴰ}
use mathlib.Core.List.Memᴰ.{append_left, append_right}
use misc_uni_stuff.Host.{Host, hton}
use misc_uni_stuff.Glib.{Slist, Gtree}
use misc_uni_stuff.Packet.{
  FullPacket, SockaddrIn, fillin_packet, read_packet, recvfrom, max_packet, request_filesearch,
  reply_filesearch,
}
use misc_uni_stuff.Packet.Wire.{
  datagram_of, fillin_length, fillin_packet-fields, fillin_packet-IsPacket,
}
use misc_uni_stuff.Net.{af_inet, servlet_port}
use misc_uni_stuff.Net.Replies.{sending, clients}
use misc_uni_stuff.Request.{compare_func, update}
use misc_uni_stuff.Request.Numbers.{IsHandler}
use misc_uni_stuff.Search.{Filedata, Glob, set_destination_ip, query_payload, searchfile}
use misc_uni_stuff.Search.Hops.{Passed}
use misc_uni_stuff.Search.Query.{IsText, query_payload-answered, query_pattern-query_payload}
use misc_uni_stuff.Search.Answers.{IsFiledata, answer, answers, details}
use misc_uni_stuff.Search.Replies.{query_number, query_number-lt, asked, length-query_payload}
use misc_uni_stuff.Search.Forward.{forwards, get_request_search-forwards, answer-answers}
use misc_uni_stuff.Dispatch.{World, Calls, with_net, apply_packet}
use misc_uni_stuff.Dispatch.Receive.{ours, receive_same}
use misc_uni_stuff.Dispatch.Switch.{apply_packet-filesearch}
use misc_uni_stuff.Dispatch.Rows.{row_of, searched, searchfile-searched, receive_row}

module _ ⦃g : Slist⦄ ⦃t : Gtree compare_func⦄ ⦃h : Host⦄ ⦃m : Glob⦄ where
  -- The datagram of a query, and the query as it is read.
  abbrev pub query_datagram : List ℕ → ℕ → ℕ → ℕ → List ℕ
  query_datagram text n junk junk' =
      datagram_of h (fillin_packet request_filesearch (8 + length text) n)
        (query_payload text junk junk')

  abbrev pub query : List ℕ → ℕ → ℕ → ℕ → SockaddrIn → FullPacket
  query text n junk junk' from =
      ours request_filesearch (8 + length text) n (query_payload text junk junk') from

  read_query :
      (text : List ℕ) (n junk junk' : ℕ) (buffer : List ℕ) (from : SockaddrIn)
      → length text + 18 ≤ max_packet
      → n < 2 ^ 16
      → read_packet (recvfrom buffer (query_datagram text n junk junk')) from
        ≡ ok (query text n junk junk' from)
  read_query text n junk junk' buffer from fits small =
      receive_same request_filesearch (8 + length text) n (query_payload text junk junk') buffer
        from (omega arith) small (length-query_payload h text junk junk')

  -- The datagram that tells the asker of a file: to the address that the query came from, at port
  -- 3773.
  abbrev pub found : ℕ → Filedata → SockaddrIn → SockaddrIn × List ℕ
  found n f from = (
    record { sin_family = af_inet; sin_port = hton h.order servlet_port; s_addr = from.s_addr },
    datagram_of h (fillin_packet reply_filesearch (20 + length f.fullfilename) n) (details f),
  )

  query_handle :
      (text : List ℕ) (n junk junk' : ℕ) (from : SockaddrIn)
      → n < 2 ^ 16
      → (query text n junk junk' from).packet.request_handle ≡ n
  query_handle text n junk junk' from small =
      let fields = fillin_packet-fields h request_filesearch (8 + length text) n in
      omega (arith, fields.2)

  answer-found :
      (text : List ℕ) (n junk junk' : ℕ) (from : SockaddrIn) (f : Filedata) (local : ℕ)
      → n < 2 ^ 16
      → set_destination_ip local from.s_addr ≡ from.s_addr
      → answer (query text n junk junk' from) local (hton h.order servlet_port) f ≡ found n f from
  answer-found text n junk junk' from f local small to =
      ap₂
        (λ a k. (
          record { sin_family = af_inet; sin_port = hton h.order servlet_port; s_addr = a },
          datagram_of h (fillin_packet reply_filesearch (20 + length f.fullfilename) k) (details f),
        ))
        to (query_handle text n junk junk' from small)

  receive_query :
      (text : List ℕ) (n junk junk' : ℕ) (buffer : List ℕ) (from : SockaddrIn) (c : Calls)
      (w : World t.Tree) (f : Filedata)
      → IsText text
      → length text + 18 ≤ max_packet
      → n < 2 ^ 16
      → from.s_addr < 2 ^ 32
      → ¬ (from.s_addr ≡ 0)
      → All IsFiledata w.database
      → Memᴰ f w.database
      → m.pattern_match text f.filename ≡ true
      → (u : World t.Tree) × ((read_packet (recvfrom buffer (query_datagram text n junk junk')) from
            >>= λ p. apply_packet c p w)
          ≡ ok u)
        × Memᴰ (found n f from) u.transfers.net.sent
  receive_query text n junk junk' buffer from c w f is fits small known nonzero files i match =
      let q = query text n junk junk' from in
      let d = query_payload text junk junk' in
      let net = w.transfers.net in
      let long =
        fillin_length h request_filesearch (8 + length text) n d (omega arith)
          (length-query_payload h text junk junk') in
      let (asked, ((local, address, same), port)) =
        query_pattern-query_payload h h h text junk junk' q q 0 is fits
          (fillin_packet-IsPacket request_filesearch (8 + length text) n) refl
          (sym long ∙ length-query_payload h text junk junk') known nonzero (Passed.here h q) in
      let to = query_payload-answered h h text junk junk' local from.s_addr address in
      let sent = answers q local (hton h.order servlet_port) text w.database in
      let more = forwards q local net in
      let member =
        subst (λ r. Memᴰ r sent) (answer-found text n junk junk' from f local small to)
          (answer-answers q text local (hton h.order servlet_port) w.database f i match) in
      (
        with_net w (sending net ((net.sent ++ sent) ++ more)),
        rw
            (
              read_query text n junk junk' buffer from fits small,
              apply_packet-filesearch c w (8 + length text) n d from,
              get_request_search-forwards q text local (hton h.order servlet_port) w.database net
                  asked address port files long,
            )
            refl,
        append_left more (append_right net.sent member),
      )

  -- A search finds what other hosts have. For a text without NUL that fits into a packet, and
  -- while the table of requests is well formed, searchfile succeeds and sends the query to each
  -- known server. A host of the same byte order, whose shared files all have names without NUL
  -- that fit into a packet, sums of sixteen bytes and sizes of 32 bits, handles the query without
  -- a fault when it comes from an address other than 0, whatever was in the buffer; and among what
  -- it sends is, for each of its files whose name matches, a datagram to this address at port
  -- 3773. This datagram, received by the asker over any buffer, makes the file the first row of
  -- the search's window.
  pub searchfile-found :
      (text : List ℕ) (now req model meek junk junk' : ℕ) (w v : World t.Tree) (c d : Calls)
      (f : Filedata) (buffer buffer' : List ℕ) (from ad : SockaddrIn)
      → IsText text
      → length text + 18 ≤ max_packet
      → IsHandler w.requests
      → from.s_addr < 2 ^ 32
      → ¬ (from.s_addr ≡ 0)
      → All IsFiledata v.database
      → Memᴰ f v.database
      → IsFiledata f
      → m.pattern_match text f.filename ≡ true
      → (u x : World t.Tree) × (n : ℕ) × (searchfile text now req model meek junk junk' w.requests
            w.models w.transfers.net
          ≡ ok (u.requests, u.models, u.transfers.net))
        × (u.transfers.net.sent
            ≡ w.transfers.net.sent
              ++ map
                  (λ a. (a, query_datagram text n junk junk'))
                  (clients w.transfers.net w.transfers.net.sockets))
        × ((read_packet (recvfrom buffer (query_datagram text n junk junk')) from >>= λ p.
              apply_packet d p v)
            ≡ ok x)
        × Memᴰ (found n f from) x.transfers.net.sent
        × ((read_packet (recvfrom buffer' (found n f from).1) ad >>= λ p. apply_packet c p u)
            ≡ ok (record u { models = update u.models model (row_of f ad ∷ []) }))
  searchfile-found text now req model meek junk junk' w v c d f buffer buffer' from ad is fits
        handler known nonzero files i file match =
      let n = query_number now req w.requests in
      let small = query_number-lt now req w.requests handler in
      let (x, handled, sent) =
        receive_query text n junk junk' buffer from d v f is fits small known nonzero files i
          match in
      let same = query_handle text n junk junk' from small in
      (
        searched text now req model meek junk junk' w,
        x,
        n,
        searchfile-searched text now req model meek junk junk' w fits,
        refl,
        handled,
        sent,
        ap
              (λ k.
                read_packet
                  (recvfrom buffer' (
                    datagram_of h (fillin_packet reply_filesearch (20 + length f.fullfilename) k)
                      (details f)))
                  ad
                >>= λ p. apply_packet c p (searched text now req model meek junk junk' w))
              (sym same)
            ∙ receive_row text now req model meek junk junk' w c (query text n junk junk' from) f 0
                0 buffer' ad handler file same,
      )

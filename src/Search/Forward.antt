-- ===== src/Search/Forward.antt =====
-- A query that is answered and passed on: the whole of get_request_search, pingu/filesearch.c.
use misc_uni_stuff.Base.{
  ℕ, ◌-◌, ◌≡◌, refl, sym, ap, ◌∙◌, arith, List, [], ◌∷◌, ◌++◌, All, true, ltb, ◌==◌, if◌then◌else◌,
  Option, none, some, Bool-cases, inl, inr, ok, length, drop, length-append, length-drop,
  append-nil,
}
use mathlib.Core.List.{Memᴰ}
use mathlib.Core.List.Memᴰ.{head, tail}
use misc_uni_stuff.Host.{Host, load16, load32, store32}
use misc_uni_stuff.Glib.{Slist}
use misc_uni_stuff.Packet.{FullPacket, SockaddrIn}
use misc_uni_stuff.Net.{Net}
use misc_uni_stuff.Net.Replies.{sending, copies, others, send_to_all_except-sending}
use misc_uni_stuff.Search.Wire.{length-store32}
use misc_uni_stuff.Search.Query.{load32-length}
use misc_uni_stuff.Search.Answers.{IsFiledata, answer, answers, get_request_search-sent}
use misc_uni_stuff.Search.{
  Filedata, Glob, passed_on, query_pattern, get_request_search_passon, get_request_search,
}

module _ ⦃h : Host⦄ where
  -- The packet that is passed on, for the address that the query carries.
  passed : FullPacket → ℕ → FullPacket
  passed p local = record p {
    packet = record p.packet { ttl = (if ltb 2 p.packet.ttl then 2 else p.packet.ttl) - 1 };
    payload = if local == 0 then store32 h.order p.addr.s_addr ++ drop 4 p.payload else p.payload;
  }

  onward : FullPacket → ℕ → Option FullPacket
  onward p local =
      if ltb 0 (if ltb 2 p.packet.ttl then 2 else p.packet.ttl) then some (passed p local) else none

  passed_on-onward :
      (p : FullPacket) (local : ℕ)
      → load32 h.order p.payload ≡ ok local
      → passed_on p ≡ ok (onward p local)
  unfolding passed_on onward passed
  passed_on-onward p local e =
      elim (Bool-cases (ltb 0 (if ltb 2 p.packet.ttl then 2 else p.packet.ttl))) [
        | inl more ↦ rw (more, e) refl
        | inr last ↦ rw last refl
      ]

  length-passed :
      (p : FullPacket) (local : ℕ)
      → load32 h.order p.payload ≡ ok local
      → length (passed p local).payload ≡ length p.payload
  unfolding passed
  length-passed p local e = elim (Bool-cases (local == 0)) [
    | inl zero_address ↦
        let a = length-append (store32 h.order p.addr.s_addr) (drop 4 p.payload) in
        let b = length-drop 4 p.payload in
        let c = length-store32 h.order p.addr.s_addr in
        let d = load32-length h.order p.payload local e in rw zero_address (omega arith)
    | inr known ↦ rw known refl
  ]

  module _ ⦃g : Slist⦄ where
    -- The copies of a query that go on to other servers.
    pub forwards : FullPacket → ℕ → Net → List (SockaddrIn × List ℕ)
    unfolding onward passed
    forwards p local s = elim (onward p local) [
      | none ↦ []
      | some q ↦ copies q.packet q.payload (others s q.addr s.sockets)
    ]

    get_request_search_passon-sent :
        (p : FullPacket) (local : ℕ) (s : Net) (x : List (SockaddrIn × List ℕ))
        → load32 h.order p.payload ≡ ok local
        → length p.payload ≡ p.packet.packet_length
        → get_request_search_passon p (sending s x) ≡ ok (sending s (x ++ forwards p local s))
    unfolding get_request_search_passon forwards onward passed
    get_request_search_passon-sent p local s x e long =
        elim (Bool-cases (ltb 0 (if ltb 2 p.packet.ttl then 2 else p.packet.ttl))) [
          | inl more ↦
              rw (passed_on-onward p local e, forwards, onward, more)
                (send_to_all_except-sending p.addr (passed p local).packet (passed p local).payload
                  s x (length-passed p local e ∙ long ∙ same_length))
          | inr last ↦
              rw (passed_on-onward p local e, forwards, onward, last)
                (ap (λ l. ok (sending s l)) (sym (append-nil x)))
        ]
      where
        same_length : p.packet.packet_length ≡ (passed p local).packet.packet_length
        same_length = refl

    module _ ⦃m : Glob⦄ where
      -- A query whose bytes have all come never fails: it is answered once for each file of the
      -- database whose name matches, in the order of the database, and then copies of it go on.
      pub get_request_search-forwards :
          (p : FullPacket) (text : List ℕ) (local port : ℕ) (files : List Filedata) (s : Net)
          → query_pattern p ≡ ok text
          → load32 h.order p.payload ≡ ok local
          → load16 h.order (drop 4 p.payload) ≡ ok port
          → All IsFiledata files
          → length p.payload ≡ p.packet.packet_length
          → get_request_search p files s
            ≡ ok (sending s ((s.sent ++ answers p local port text files) ++ forwards p local s))
      get_request_search-forwards p text local port files s asked address service v long =
          get_request_search-sent p text local port files s asked address service v
          ∙ get_request_search_passon-sent p local s (s.sent ++ answers p local port text files)
              address long

      pub answer-answers :
          (p : FullPacket) (text : List ℕ) (local port : ℕ) (files : List Filedata) (f : Filedata)
          → Memᴰ f files
          → m.pattern_match text f.filename ≡ true
          → Memᴰ (answer p local port f) (answers p local port text files)
      answer-answers p text local port [] f i match = elim i [ ]
      answer-answers p text local port (x ∷ files) f (head e) match =
          rw (ap (λ y. m.pattern_match text y.filename) (sym e) ∙ match)
            (head (ap (answer p local port) e))
      answer-answers p text local port (x ∷ files) f (tail i) match =
          let rest = answer-answers p text local port files f i match in
          elim (Bool-cases (m.pattern_match text x.filename)) [
            | inl also ↦ rw also (tail rest)
            | inr other ↦ rw other rest
          ]

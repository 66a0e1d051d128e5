-- ===== src/Search/Sending.antt =====
-- What a query or a search changes in the table of servers: it only sends. pingu/filesearch.c.
use misc_uni_stuff.Base.{
  ℕ, ◌+◌, ◌≡◌, ◌≢◌, ◌<◌, ◌^◌, ==_iff, subst, refl, arith, List, [], ◌∷◌, Bool, true, false, leb,
  if◌then◌else◌, Option, none, some, length, drop, ok, out_of_bounds, guard, bind-ok, ok-injective,
}
use misc_uni_stuff.Host.{Host, load16, load32}
use misc_uni_stuff.Glib.{Slist, Gtree}
use misc_uni_stuff.Packet.{FullPacket, fillin_packet, request_filesearch}
use misc_uni_stuff.Net.{Net, send_to_all, send_to_all_except}
use misc_uni_stuff.Net.Sending.{OnlySends, OnlySends-trans, transmit-OnlySends}
use misc_uni_stuff.Net.Reach.{send_to_all_except-Sends, send_to_all-Sends}
use misc_uni_stuff.Search.{
  Filedata, Glob, passed_on, query_pattern, send_file_details, answer_each,
  get_request_search_passon, get_request_search, Models, fill_request, fill_data, query_payload,
  searchfile,
}
use misc_uni_stuff.Search.Replies.{fill_request-IsHandler}
use misc_uni_stuff.Request.{Handler, compare_func, request_start, request_get}
use misc_uni_stuff.Request.Numbers.{IsHandler, request_start-IsHandler}

module _ ⦃h : Host⦄ ⦃g : Slist⦄ where
  send_file_details-OnlySends :
      (p : FullPacket) (f : Filedata) (s u : Net) → send_file_details p f s ≡ ok u → OnlySends s u
  unfolding send_file_details
  send_file_details-OnlySends p f s u e =
      let (a, bounds, e1) = bind-ok (guard (leb 16 (length f.md5sum)) out_of_bounds) _ u e in
      let (local, l, e2) = bind-ok (load32 h.order p.payload) _ u e1 in
      let (port, l', e3) = bind-ok (load16 h.order (drop 4 p.payload)) _ u e2 in
      transmit-OnlySends _ _ _ s u e3

  passon-OnlySends :
      (p : FullPacket) (s u : Net) → get_request_search_passon p s ≡ ok u → OnlySends s u
  unfolding get_request_search_passon
  passon-OnlySends p s u e =
      let (forward, l, e') = bind-ok (passed_on p) _ u e in onwards forward e'
    where
      onwards :
          (forward : Option FullPacket)
          → elim forward [ none ↦ ok s | some q ↦ send_to_all_except q.addr q.packet q.payload s ]
            ≡ ok u
          → OnlySends s u
      onwards none e = cc e
      onwards (some q) e = send_to_all_except-Sends q.addr q.packet q.payload s u e

  module _ ⦃m : Glob⦄ where
    answer_each-OnlySends :
        (p : FullPacket) (search : List ℕ) (database : List Filedata) (s u : Net)
        → answer_each p search database s ≡ ok u
        → OnlySends s u
    unfolding answer_each
    answer_each-OnlySends p search [] s u e = cc e
    answer_each-OnlySends p search (f ∷ rest) s u e =
        let (w, first, e') =
          bind-ok (if m.pattern_match search f.filename then send_file_details p f s else ok s) _ u
            e in
        OnlySends-trans s w u (answered w (m.pattern_match search f.filename) first)
          (answer_each-OnlySends p search rest w u e')
      where
        answered :
            (w : Net) (b : Bool)
            → (if b then send_file_details p f s else ok s) ≡ ok w
            → OnlySends s w
        answered w true e = send_file_details-OnlySends p f s w e
        answered w false e = cc e

    pub get_request_search-OnlySends :
        (p : FullPacket) (database : List Filedata) (s u : Net)
        → get_request_search p database s ≡ ok u
        → OnlySends s u
    unfolding get_request_search
    get_request_search-OnlySends p database s u e =
        let (search, l, e1) = bind-ok (query_pattern p) _ u e in
        let (w, answered, e2) = bind-ok (answer_each p search database s) _ u e1 in
        OnlySends-trans s w u (answer_each-OnlySends p search database s w answered)
          (passon-OnlySends p w u e2)

  module _ ⦃t : Gtree compare_func⦄ where
    fill_data-IsHandler :
        (model meek req : ℕ) (s : Handler t.Tree)
        → IsHandler s
        → IsHandler (fill_data model meek req s)
    unfolding fill_data
    fill_data-IsHandler model meek req s v = record {
      positive = v.positive;
      fits = v.fits;
      numbered = λ j i e. ground (arith, v.numbered j i);
      alive = v.alive;
    }

    -- A search keeps the table of requests well formed, while a number is free and the block is
    -- new.
    pub searchfile-IsHandler :
        (text : List ℕ) (now req model meek junk junk' i : ℕ) (s : Handler t.Tree) (models : Models)
        (net : Net) (u : Handler t.Tree × Models × Net)
        → IsHandler s
        → ((j : ℕ) → request_get s j ≢ some req)
        → 0 < i
        → i < 2 ^ 16
        → request_get s i ≡ none
        → searchfile text now req model meek junk junk' s models net ≡ ok u
        → IsHandler u.0 × OnlySends net u.2
    unfolding searchfile fill_request request_get
    searchfile-IsHandler text now req model meek junk junk' i s models net u v new pos_i small free
          e =
        let filled = fill_request now req s in
        let started = request_start filled req now in
        let kept =
          request_start-IsHandler filled req now i (fill_request-IsHandler now req s v)
            (ground (arith, (==_iff req req).1 refl)) new pos_i small free in
        let (w, run, e') =
          bind-ok
            (send_to_all (fillin_packet request_filesearch (8 + length text) started.1)
              (query_payload text junk junk') net)
            _ u e in
        let same = ok-injective e' in
        (
          subst (λ (x : Handler t.Tree × Models × Net). IsHandler x.0) same
              (fill_data-IsHandler model meek req started.0 kept),
          subst (λ (x : Handler t.Tree × Models × Net). OnlySends net x.2) same
              (send_to_all-Sends _ _ net w run),
        )

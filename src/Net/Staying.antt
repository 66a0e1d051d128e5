-- ===== src/Net/Staying.antt =====
-- What the handlers of pingu/socket.c keep of a known server.
use misc_uni_stuff.Base.{
  ℕ, ◌+◌, ◌≡◌, ◌≤◌, ◌<◌, refl, ap, sym, ◌∙◌, subst, arith, List, [], ◌∷◌, ◌++◌, All, true, ◌==◌,
  if◌then◌else◌, Bool-cases, Option-cases, inl, inr, Option, none, some, take, ok, ok-injective,
  length, append-nil,
}
use mathlib.Core.Option.{some-injective}
use misc_uni_stuff.Host.{Host}
use misc_uni_stuff.Glib.{Slist, Gpointer, null, list_node, block}
use misc_uni_stuff.Packet.{SockaddrIn, FullPacket}
use misc_uni_stuff.Net.{
  Net, deref, assign, add_possible, check_add_server, add_upstream_server, do_connection,
  new_servlet, new_servlet_real, new_servlet_startup, look_for_new_servers,
}
use misc_uni_stuff.Net.Pointers.{count, one_if, count-append}
use misc_uni_stuff.Net.Lookup.{
  IsServlet, same_host, SameClients, first_match, first_match-some, first_match-prefix,
  first_match_same, first_match_ext,
}
use misc_uni_stuff.Net.Known.{
  with_new, with_new_client, check_add_server-known, check_add_server-unknown,
}
use misc_uni_stuff.Net.Lookout.{started, look_for_new_servers-started}
use misc_uni_stuff.Net.Sending.{OnlySends}
use misc_uni_stuff.Net.Reach.{add_upstream_server-cases}

-- What a step keeps of the servlet in block `k`, whose pong time is `time` after it.
pub record Stays ⦃g : Slist⦄ (k time : ℕ) (s u : Net) : Type 0 where
  pub address : (u.cell k).client ≡ (s.cell k).client
  pub entries : count (block k) s.sockets ≤ count (block k) u.sockets
  pub ponged : (u.cell k).lastponged ≡ time
  pub found :
      (a : SockaddrIn)
      → first_match s a s.sockets ≡ some (block k)
      → first_match u a u.sockets ≡ some (block k)

pub Stays-trans :
    ⦃g : Slist⦄ {k t time : ℕ} {s u w : Net} → Stays k t s u → Stays k time u w → Stays k time s w
Stays-trans a b = record {
  address = b.address ∙ a.address;
  entries = omega (arith, a.entries, b.entries);
  ponged = b.ponged;
  found = λ x e. b.found x (a.found x e);
}

-- An entry of the list is allocated.
pub count-free : (n k : ℕ) (l : List Gpointer) → All (IsServlet n) l → 0 < count (block k) l → k < n
count-free n k [] v h = absurd (omega arith)
count-free n k (null ∷ l) v h = absurd v.0
count-free n k (list_node ∷ l) v h = absurd v.0
count-free n k (block j ∷ l) v h = elim (Bool-cases (j == k)) [
  | inl e ↦ ground (arith, e, v.0)
  | inr e ↦ count-free n k l v.1 (omega (arith, h, ap one_if e))
]

module _ ⦃g : Slist⦄ ⦃h : Host⦄ where
  -- A step that stamps at most, and changes no list.
  pub same-Stays :
      (k : ℕ) (s u : Net)
      → ((j : ℕ) → (u.cell j).client ≡ (s.cell j).client)
      → u.sockets ≡ s.sockets
      → Stays k (u.cell k).lastponged s u
  same-Stays k s u clients lists = record {
    address = clients k;
    entries = omega (arith, ap (count (block k)) lists);
    ponged = refl;
    found = λ a e. rw lists (first_match_same s u a s.sockets clients ∙ e);
  }

  -- A step that puts servlets behind the others.
  longer-Stays :
      (k : ℕ) (s u : Net) (m : List Gpointer)
      → All (IsServlet s.free) s.sockets
      → SameClients s.free s u
      → k < s.free
      → u.sockets ≡ s.sockets ++ m
      → Stays k (u.cell k).lastponged s u
  longer-Stays k s u m v clients old lists = record {
    address = clients k old;
    entries = omega (arith, ap (count (block k)) lists, count-append (block k) s.sockets m);
    ponged = refl;
    found = λ a e. rw lists (
        first_match-prefix u a s.sockets m (block k)
          (first_match_ext s.free s u a s.sockets clients v ∙ e));
  }

  assign_address :
      (s : Net) (p : Gpointer) (time k : ℕ)
      → ((assign s p (record (deref s p) { lastponged = time })).cell k).client ≡ (s.cell k).client
  assign_address s null time k = refl
  assign_address s list_node time k = refl
  assign_address s (block j) time k = ground arith

  assign_lists :
      (s : Net) (p : Gpointer) (time : ℕ)
      → (assign s p (record (deref s p) { lastponged = time })).sockets ≡ s.sockets
  assign_lists s null time = refl
  assign_lists s list_node time = refl
  assign_lists s (block j) time = refl

  pub OnlySends-Stays : (k : ℕ) (s u : Net) → OnlySends s u → Stays k (s.cell k).lastponged s u
  OnlySends-Stays k s u e = rw e (same-Stays k s (record s { sent = u.sent }) (λ j. refl) refl)

  -- The pong time of the servlet that `a` finds, after a packet from `source`.
  abbrev pub last_heard : SockaddrIn → SockaddrIn → ℕ → ℕ → ℕ
  last_heard a source later time = if same_host source a then later else time

  first_match_alike :
      (s : Net) (a b : SockaddrIn) (l : List Gpointer)
      → same_host b a ≡ true
      → first_match s b l ≡ first_match s a l
  first_match_alike s a b [] same = refl
  first_match_alike s a b (p ∷ l) same = ground (arith, same, first_match_alike s a b l same)

  assign_other :
      (s : Net) (p : Gpointer) (k time : ℕ)
      → ¬ (p ≡ block k)
      → ((assign s p (record (deref s p) { lastponged = time })).cell k).lastponged
        ≡ (s.cell k).lastponged
  assign_other s null k time other = refl
  assign_other s list_node k time other = refl
  assign_other s (block j) k time other = ground (arith, λ (x : j ≡ k). other (ap block x))

  -- The servlet that another address finds is another one.
  stamped :
      (k : ℕ) (s : Net) (a source : SockaddrIn) (p : Gpointer) (later : ℕ)
      → first_match s a s.sockets ≡ some (block k)
      → first_match s source s.sockets ≡ some p
      → ((assign s p (record (deref s p) { lastponged = later })).cell k).lastponged
        ≡ last_heard a source later (s.cell k).lastponged
  stamped k s a source p later found e = elim (Bool-cases (same_host source a)) [
    | inl same ↦
        let both = sym e ∙ (first_match_alike s a source s.sockets same ∙ found) in
        rw same (
          subst (λ p. stamped_pong p ≡ later) (sym (some-injective p (block k) both))
            (ground arith))
    | inr other ↦ rw other (
        assign_other s p k later (λ q.
          let hit = (first_match-some s a s.sockets (block k) found).0 in
          let hit' = (first_match-some s source s.sockets p e).0 in
          let own = ap (λ p. (deref s p).client) q in ground (arith, hit, hit', own, other)))
  ]
    where
      stamped_pong : Gpointer → ℕ
      stamped_pong p = ((assign s p (record (deref s p) { lastponged = later })).cell k).lastponged

  new_stamp :
      (k : ℕ) (s : Net) (a source : SockaddrIn) (later : ℕ)
      → k < s.free
      → first_match s a s.sockets ≡ some (block k)
      → first_match s source s.sockets ≡ none
      → ((with_new s source later).cell k).lastponged
        ≡ last_heard a source later (s.cell k).lastponged
  new_stamp k s a source later old found e = elim (Bool-cases (same_host source a)) [
    | inl same ↦ let both = sym e ∙ (first_match_alike s a source s.sockets same ∙ found) in cc
    | inr other ↦ rw other (ground arith)
  ]

  pub hears-Stays :
      (k : ℕ) (s : Net) (a source : SockaddrIn) (now later : ℕ)
      → All (IsServlet s.free) s.sockets
      → k < s.free
      → first_match s a s.sockets ≡ some (block k)
      → Stays k
          (last_heard a source later (s.cell k).lastponged)
          s
          (check_add_server s source now later)
  hears-Stays k s a source now later v old found =
      elim (Option-cases (first_match s source s.sockets)) [
        | inl e ↦ rw (check_add_server-unknown s source now later e) (
            subst (λ t. Stays k t s (with_new s source later))
              (new_stamp k s a source later old found e)
              (longer-Stays k s (with_new s source later) (block s.free ∷ []) v
                (with_new_client s source later) old refl))
        | inr (p, e) ↦ rw (check_add_server-known s source now later p e) (
            subst (λ t. Stays k t s (assign s p (record (deref s p) { lastponged = later })))
              (stamped k s a source p later found e)
              (same-Stays k s (assign s p (record (deref s p) { lastponged = later }))
                (assign_address s p later) (assign_lists s p later)))
      ]

  add_possible-Stays :
      (k : ℕ) (s : Net) (a : SockaddrIn) (now : ℕ)
      → All (IsServlet s.free) s.sockets
      → k < s.free
      → Stays k (s.cell k).lastponged s (add_possible (new_servlet_real s a now))
  unfolding new_servlet_real
  add_possible-Stays k s a now v old =
      let u = add_possible (new_servlet_real s a now) in
      let pong : (u.cell k).lastponged ≡ (s.cell k).lastponged = ground arith in
      subst (λ t. Stays k t s u) pong
        (longer-Stays k s u [] v (λ j less. ground arith) old (sym (append-nil s.sockets)))

  pub learns-Stays :
      (q : FullPacket) (k now : ℕ) (s u : Net)
      → add_upstream_server q now s ≡ ok u
      → All (IsServlet s.free) s.sockets
      → k < s.free
      → Stays k (s.cell k).lastponged s u
  learns-Stays q k now s u e v old = elim (add_upstream_server-cases q now s u e) [
    | inl same ↦ subst (Stays k (s.cell k).lastponged s) same (same-Stays k s s (λ j. refl) refl)
    | inr (a, new) ↦
        subst (Stays k (s.cell k).lastponged s) new (add_possible-Stays k s a now v old)
  ]

  new_servlet-Stays :
      (k : ℕ) (s : Net) (a : SockaddrIn) (now : ℕ)
      → All (IsServlet s.free) s.sockets
      → k < s.free
      → Stays k (s.cell k).lastponged s (new_servlet s a now).0
  unfolding new_servlet new_servlet_real new_servlet_startup
  new_servlet-Stays k s a now v old =
      let u = (new_servlet s a now).0 in
      let pong : (u.cell k).lastponged ≡ (s.cell k).lastponged = ground arith in
      subst (λ t. Stays k t s u) pong
        (longer-Stays k s u (block s.free ∷ []) v (λ j less. ground arith) old
          (g.append_lem s.sockets (block s.free)))

  pub connects-Stays :
      (k : ℕ) (s u : Net) (resolved : Option ℕ) (now : ℕ)
      → do_connection s resolved now ≡ ok u
      → All (IsServlet s.free) s.sockets
      → k < s.free
      → Stays k (s.cell k).lastponged s u
  unfolding do_connection
  connects-Stays k s u none now e v old = cc
  connects-Stays k s u (some a) now e v old =
      subst (Stays k (s.cell k).lastponged s) (ok-injective e) (new_servlet-Stays k s _ now v old)

  pub looks-Stays :
      (k : ℕ) (s : Net)
      → count list_node s.possible_servers ≡ 0
      → Stays k (s.cell k).lastponged s (look_for_new_servers s)
  looks-Stays k s none_listed =
      let m = take 6 s.possible_servers in
      let u : Net = record (started m s) {
        asked = s.asked + (if length s.possible_servers == 0 then 1 else 0);
      } in
      subst (Stays k (s.cell k).lastponged s) (sym (look_for_new_servers-started s none_listed))
        (record {
          address = refl;
          entries = omega (arith, count-append (block k) s.sockets m);
          ponged = refl;
          found = λ a e.
              first_match_same s u a (s.sockets ++ m) (λ j. refl)
              ∙ first_match-prefix s a s.sockets m (block k) e;
        })

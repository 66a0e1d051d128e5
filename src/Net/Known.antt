-- ===== src/Net/Known.antt =====
-- check_add_server, pingu/socket.c: what a packet from a host does to the known servers.
use misc_uni_stuff.Base.{
  ℕ, suc, ◌+◌, ◌≡◌, ◌≢◌, ◌<◌, ◌≤◌, refl, ap, ap₂, sym, ◌∙◌, arith, List, [], ◌∷◌, ◌++◌, true, false,
  ◌==◌, if◌then◌else◌, All, Bool-cases, Option-cases, inl, inr, none, some, ◌⊎◌,
}
use mathlib.Core.Path.{fun_ext}
use misc_uni_stuff.Glib.{Slist, Gpointer, null, list_node, block}
use misc_uni_stuff.Packet.{SockaddrIn}
use misc_uni_stuff.Net.{
  Net, deref, assign, find_servlet, new_servlet_real, new_servlet_startup, new_servlet,
  check_add_server,
}
use misc_uni_stuff.Net.Lookup.{
  IsServlet, same_host, known, known-append, SameClients, known_ext, first_match,
  find_servlet-first_match, first_match-some, first_match-none, first_match-All, first_match_ext,
  first_match-append,
}

module _ ⦃g : Slist⦄ where
  -- What check_add_server does in each of its two cases.
  pub check_add_server-known :
      (s : Net) (source : SockaddrIn) (now later : ℕ) (p : Gpointer)
      → first_match s source s.sockets ≡ some p
      → check_add_server s source now later ≡ assign s p (record (deref s p) { lastponged = later })
  unfolding check_add_server
  check_add_server-known s source now later p e = ground (arith, find_servlet-first_match s source)

  abbrev pub with_new : Net → SockaddrIn → ℕ → Net
  with_new s source later = record s {
    cell = λ j.
        if s.free == j
        then record { client = source; lastpinged = 0; lastponged = later }
        else s.cell j;
    free = suc s.free;
    sockets = s.sockets ++ block s.free ∷ [];
    servermodel = s.sockets ++ block s.free ∷ [];
    pingers = s.pingers ++ block s.free ∷ [];
  }

  pub check_add_server-unknown :
      (s : Net) (source : SockaddrIn) (now later : ℕ)
      → first_match s source s.sockets ≡ none
      → check_add_server s source now later ≡ with_new s source later
  unfolding check_add_server new_servlet new_servlet_real new_servlet_startup
  check_add_server-unknown s source now later e =
      rw (find_servlet-first_match s source, e, check_add_server)
        (ap₂
          (λ c l. record s {
            cell = c;
            free = suc s.free;
            sockets = l;
            servermodel = l;
            pingers = s.pingers ++ block s.free ∷ [];
          })
          (fun_ext λ j. ground arith) (g.append_lem s.sockets (block s.free)))

  pub assign_client :
      (n : ℕ) (s : Net) (p : Gpointer) (time : ℕ)
      → SameClients n s (assign s p (record (deref s p) { lastponged = time }))
  assign_client n s null time k h = refl
  assign_client n s list_node time k h = refl
  assign_client n s (block j) time k h = ground arith

  pub with_new_client :
      (s : Net) (source : SockaddrIn) (later : ℕ) → SameClients s.free s (with_new s source later)
  with_new_client s source later k h = ground arith

  -- How `s` and `u` are related when `source` has become known.
  pub record IsKnown (s : Net) (source : SockaddrIn) (later : ℕ) (u : Net) : Type 0 where
    pub entry : Gpointer
    pub found : find_servlet u source ≡ some entry
    pub stamped : (deref u entry).lastponged ≡ later
    pub others : (k : ℕ) → k < s.free → block k ≢ entry → u.cell k ≡ s.cell k
    pub list :
        u.sockets ≡ (if known s source s.sockets == 0 then s.sockets ++ entry ∷ [] else s.sockets)

  check_add_server_old :
      (s : Net) (source : SockaddrIn) (now later : ℕ) (p : Gpointer)
      → All (IsServlet s.free) s.sockets
      → first_match s source s.sockets ≡ some p
      → IsKnown s source later (check_add_server s source now later)
  check_add_server_old s source now later null v e =
      absurd (first_match-All (IsServlet s.free) s source s.sockets null e v)
  check_add_server_old s source now later list_node v e =
      absurd (first_match-All (IsServlet s.free) s source s.sockets list_node e v)
  check_add_server_old s source now later (block i) v e =
      rw (check_add_server-known s source now later (block i) e) (record {
        entry = block i;
        found =
            find_servlet-first_match u source
            ∙ first_match_ext s.free s u source s.sockets (assign_client s.free s (block i) later) v
            ∙ e;
        stamped = ground arith;
        others = λ k h ne. ground (arith, λ (x : i ≡ k). ne (ap block (sym x)));
        list = ground (arith, first_match-some s source s.sockets (block i) e);
      })
    where
      u : Net
      u = assign s (block i) (record (s.cell i) { lastponged = later })

  check_add_server_new :
      (s : Net) (source : SockaddrIn) (now later : ℕ)
      → All (IsServlet s.free) s.sockets
      → first_match s source s.sockets ≡ none
      → IsKnown s source later (check_add_server s source now later)
  check_add_server_new s source now later v e =
      rw (check_add_server-unknown s source now later e) (record {
        entry = block s.free;
        found =
            find_servlet-first_match u source
            ∙ first_match-append u source s.sockets (block s.free ∷ [])
                (first_match_ext s.free s u source s.sockets (with_new_client s source later) v ∙ e)
            ∙ ground arith;
        stamped = ground arith;
        others = λ k h ne. ground arith;
        list = ground (arith, first_match-none s source s.sockets e);
      })
    where
      u : Net
      u = with_new s source later

  -- After a packet from `source`, while the known servers are allocated, it is a known server whose
  -- pong time is `later`: the servlet that was already there, or a new one behind the others. No
  -- other servlet changes.
  pub check_add_server-IsKnown :
      (s : Net) (source : SockaddrIn) (now later : ℕ)
      → All (IsServlet s.free) s.sockets
      → IsKnown s source later (check_add_server s source now later)
  check_add_server-IsKnown s source now later v =
      elim (Option-cases (first_match s source s.sockets)) [
        | inl e ↦ check_add_server_new s source now later v e
        | inr (p, e) ↦ check_add_server_old s source now later p v e
      ]

  known_same :
      (s : Net) (a b : SockaddrIn) (l : List Gpointer)
      → same_host b a ≡ true
      → known s a l ≡ known s b l
  known_same s a b [] h = refl
  known_same s a b (p ∷ l) h = ground (arith, known_same s a b l h)

  -- No address is known twice.
  abbrev pub IsUnique : Net → Type 0
  IsUnique s = (a : SockaddrIn) → known s a s.sockets ≤ 1

  IsUnique-new :
      (s : Net) (source : SockaddrIn) (later : ℕ)
      → All (IsServlet s.free) s.sockets
      → known s source s.sockets ≡ 0
      → IsUnique s
      → IsUnique (with_new s source later)
  IsUnique-new s source later v absent h a = omega (
    arith,
    known-append (with_new s source later) a s.sockets (block s.free ∷ []),
    known_ext s.free s (with_new s source later) a s.sockets (with_new_client s source later) v,
    h a,
    one_new (Bool-cases (same_host source a)),
  )
    where
      one_new :
          (same_host source a ≡ true) ⊎ (same_host source a ≡ false)
          → known s a s.sockets + known (with_new s source later) a (block s.free ∷ []) ≤ 1
      one_new (inl e) = ground (arith, known_same s a source s.sockets e)
      one_new (inr e) = ground (arith, h a)

  IsUnique-old :
      (s : Net) (p : Gpointer) (later : ℕ)
      → All (IsServlet s.free) s.sockets
      → IsUnique s
      → IsUnique (assign s p (record (deref s p) { lastponged = later }))
  IsUnique-old s null later v h a = h a
  IsUnique-old s list_node later v h a = h a
  IsUnique-old s (block i) later v h a = omega (
    arith,
    h a,
    known_ext s.free s (assign s (block i) (record (s.cell i) { lastponged = later })) a s.sockets
        (assign_client s.free s (block i) later) v,
  )

  -- While the known servers are allocated, a packet never makes an address known twice.
  pub check_add_server-IsUnique :
      (s : Net) (source : SockaddrIn) (now later : ℕ)
      → All (IsServlet s.free) s.sockets
      → IsUnique s
      → IsUnique (check_add_server s source now later)
  check_add_server-IsUnique s source now later v h =
      elim (Option-cases (first_match s source s.sockets)) [
        | inl e ↦
            rw (check_add_server-unknown s source now later e)
              (IsUnique-new s source later v (first_match-none s source s.sockets e) h)
        | inr (p, e) ↦
            rw (check_add_server-known s source now later p e) (IsUnique-old s p later v h)
      ]

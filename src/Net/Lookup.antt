-- ===== src/Net/Lookup.antt =====
-- cmp_sockaddr and find_servlet, pingu/socket.c: what a search through the known servers finds.
use misc_uni_stuff.Base.{
  ℕ, ◌+◌, ◌≡◌, ◌<◌, refl, ap, sym, ◌∙◌, subst, arith, List, [], ◌∷◌, ◌++◌, Bool, true, false, ◌&&◌,
  ◌==◌, if◌then◌else◌, All, Bool-cases, inl, inr, Option, none, some, is_zero,
}
use misc_uni_stuff.Glib.{Slist, Gpointer, null, list_node, block, same_pointer}
use misc_uni_stuff.Packet.{SockaddrIn}
use misc_uni_stuff.Net.{Net, Servlet, deref, slist_data, cmp_sockaddr, cmp_at, find_servlet}
use misc_uni_stuff.Net.Pointers.{count, one_if, same_pointer_refl, same_pointer→eq}

abbrev pub IsServlet : ℕ → Gpointer → Type 0
IsServlet n (block k) = k < n
IsServlet n null = ⊥
IsServlet n list_node = ⊥

abbrev pub same_host : SockaddrIn → SockaddrIn → Bool
same_host a b = a.s_addr == b.s_addr && a.sin_port == b.sin_port

-- The comparison is 0 exactly for the same address and port; the family is not looked at.
pub cmp_sockaddr-zero :
    (j : Servlet) (a : SockaddrIn) → is_zero (cmp_sockaddr j a) ≡ same_host j.client a
unfolding cmp_sockaddr
cmp_sockaddr-zero j a = ground arith

-- How many servlets of a list have the address.
abbrev pub known : Net → SockaddrIn → List Gpointer → ℕ
known s a [] = 0
known s a (p ∷ l) = one_if (same_host (deref s p).client a) + known s a l

pub known-append :
    (s : Net) (a : SockaddrIn) (l m : List Gpointer)
    → known s a (l ++ m) ≡ known s a l + known s a m
known-append s a [] m = omega arith
known-append s a (p ∷ l) m = omega (arith, known-append s a l m)

-- Two heaps agree on the addresses of the servlets below `n`.
abbrev pub SameClients : ℕ → Net → Net → Type 0
SameClients n s u = (k : ℕ) → k < n → (u.cell k).client ≡ (s.cell k).client

pub deref_client :
    (n : ℕ) (s u : Net) (p : Gpointer)
    → SameClients n s u
    → IsServlet n p
    → (deref u p).client ≡ (deref s p).client
deref_client n s u (block k) e v = e k v
deref_client n s u null e v = absurd v
deref_client n s u list_node e v = absurd v

pub known_ext :
    (n : ℕ) (s u : Net) (a : SockaddrIn) (l : List Gpointer)
    → SameClients n s u
    → All (IsServlet n) l
    → known u a l ≡ known s a l
known_ext n s u a [] e v = refl
known_ext n s u a (p ∷ l) e v = rw (deref_client n s u p e v.0, known_ext n s u a l e v.1)

module _ ⦃g : Slist⦄ where
  -- What find_servlet answers, on a list.
  abbrev pub first_match : Net → SockaddrIn → List Gpointer → Option Gpointer
  first_match s a [] = none
  first_match s a (p ∷ l) = if same_host (deref s p).client a then some p else first_match s a l

  pub find_custom-first_match :
      (s : Net) (a : SockaddrIn) (l : List Gpointer)
      → slist_data (g.find_custom l a (cmp_at s)) ≡ first_match s a l
  find_custom-first_match s a [] = rw (g.find_custom-nil {A = Gpointer} a (cmp_at s))
  find_custom-first_match s a (p ∷ l) =
      rw (g.find_custom-cons p l a (cmp_at s), cmp_sockaddr-zero (deref s p) a)
        (ground (arith, find_custom-first_match s a l))

  pub find_servlet-first_match :
      (s : Net) (a : SockaddrIn) → find_servlet s a ≡ first_match s a s.sockets
  unfolding find_servlet
  find_servlet-first_match s a = find_custom-first_match s a s.sockets

  pub first_match-some :
      (s : Net) (a : SockaddrIn) (l : List Gpointer) (p : Gpointer)
      → first_match s a l ≡ some p
      → (same_host (deref s p).client a ≡ true) × (0 < known s a l)
  first_match-some s a [] p e = cc
  first_match-some s a (q ∷ l) p e = ground (arith, first_match-some s a l p)

  pub first_match-none :
      (s : Net) (a : SockaddrIn) (l : List Gpointer) → first_match s a l ≡ none → known s a l ≡ 0
  first_match-none s a [] e = refl
  first_match-none s a (q ∷ l) e = ground (arith, first_match-none s a l)

  pub first_match-All :
      (P : Gpointer → Type 0) (s : Net) (a : SockaddrIn) (l : List Gpointer) (p : Gpointer)
      → first_match s a l ≡ some p
      → All P l
      → P p
  first_match-All P s a [] p e v = cc
  first_match-All P s a (q ∷ l) p e v = elim (Bool-cases (same_host (deref s q).client a)) [
    | inl hit ↦ let same : q ≡ p = ground arith in subst P same v.0
    | inr miss ↦ first_match-All P s a l p (rw miss at e) v.1
  ]

  pub first_match_ext :
      (n : ℕ) (s u : Net) (a : SockaddrIn) (l : List Gpointer)
      → SameClients n s u
      → All (IsServlet n) l
      → first_match u a l ≡ first_match s a l
  first_match_ext n s u a [] e v = refl
  first_match_ext n s u a (p ∷ l) e v =
      rw (deref_client n s u p e v.0, first_match_ext n s u a l e v.1)

  pub first_match-append :
      (s : Net) (a : SockaddrIn) (l m : List Gpointer)
      → first_match s a l ≡ none
      → first_match s a (l ++ m) ≡ first_match s a m
  first_match-append s a [] m e = refl
  first_match-append s a (p ∷ l) m e = ground (arith, first_match-append s a l m)

  -- The search stops at its first hit, whatever follows.
  pub first_match-prefix :
      (s : Net) (a : SockaddrIn) (l m : List Gpointer) (p : Gpointer)
      → first_match s a l ≡ some p
      → first_match s a (l ++ m) ≡ some p
  first_match-prefix s a [] m p e = cc
  first_match-prefix s a (q ∷ l) m p e = ground (arith, e, first_match-prefix s a l m p)

  pub first_match-count :
      (s : Net) (a : SockaddrIn) (l : List Gpointer) (p : Gpointer)
      → first_match s a l ≡ some p
      → 0 < count p l
  first_match-count s a [] p e = cc
  first_match-count s a (q ∷ l) p e = elim (Bool-cases (same_host (deref s q).client a)) [
    | inl hit ↦
        let same : q ≡ p = ground arith in
        let one = ap one_if (ap (same_pointer q) (sym same) ∙ same_pointer_refl q) in
        omega (arith, one)
    | inr miss ↦ (let more = first_match-count s a l p (rw miss at e) in omega (arith, more))
  ]

  deref_same :
      (s u : Net) (p : Gpointer)
      → ((k : ℕ) → (u.cell k).client ≡ (s.cell k).client)
      → (deref u p).client ≡ (deref s p).client
  deref_same s u (block k) e = e k
  deref_same s u null e = refl
  deref_same s u list_node e = refl

  -- Two heaps that agree on all addresses.
  pub first_match_same :
      (s u : Net) (a : SockaddrIn) (l : List Gpointer)
      → ((k : ℕ) → (u.cell k).client ≡ (s.cell k).client)
      → first_match u a l ≡ first_match s a l
  first_match_same s u a [] e = refl
  first_match_same s u a (p ∷ l) e = rw (deref_same s u p e, first_match_same s u a l e)

  -- Removing another pointer does not change what is found.
  pub first_match-remove :
      (s : Net) (a : SockaddrIn) (l : List Gpointer) (p q : Gpointer)
      → same_pointer q p ≡ false
      → first_match s a l ≡ some p
      → first_match s a (g.remove l q) ≡ some p
  first_match-remove s a [] p q other e = cc
  first_match-remove s a (r ∷ l) p q other e = elim (Bool-cases (same_pointer r q)) [
    | inl gone ↦
        let same = same_pointer→eq r q gone in
        elim (Bool-cases (same_host (deref s r).client a)) [
          | inl hit ↦
              let found : r ≡ p = ground arith in
              let equal = ap (same_pointer q) (sym same ∙ found) in
              absurd (ground (arith, other, equal, same_pointer_refl q))
          | inr miss ↦ rw (g.remove-cons r l q, gone) (rw miss at e)
        ]
    | inr kept ↦
        rw (g.remove-cons r l q, kept) (ground (arith, e, first_match-remove s a l p q other))
  ]

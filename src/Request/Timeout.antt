-- ===== src/Request/Timeout.antt =====
-- request_do_timeout, pingu/request_handler.c.
use misc_uni_stuff.Base.{
  ℕ, ◌≡◌, ◌≢◌, ◌≤◌, inl, inr, refl, ap, ◌∙◌, arith, List, [], ◌∷◌, ◌++◌, false, not, ◌&&◌,
  if◌then◌else◌, none, some, negsuc, All, Bool-cases,
}
use misc_uni_stuff.Glib.{Slist, Gtree, Ascending, assoc}
use misc_uni_stuff.Request.{Handler, Request, compare_func, request_get, request_do_timeout}
use misc_uni_stuff.Request.Scan.{compare_func-eq, compare_func-lt, All-of_assoc}
use misc_uni_stuff.Request.Numbers.{IsHandler}
use misc_uni_stuff.Request.Sweep.{expired, Distinct, expired_nodes, request_do_timeout-each}
use misc_uni_stuff.Request.Turns.{
  removed, calls_of, ended, each_lookup, each_calls, each_bad_accesses,
}

module _ ⦃g : Slist⦄ ⦃t : Gtree compare_func⦄ where
  -- Each node carries a request with the node's number.
  abbrev Numbered : (ℕ → Request) → List (ℕ × ℕ) → Type 0
  Numbered cell l = All (λ n. (cell n.1).reqno ≡ n.0) l

  removed_above :
      (curt : ℕ) (cell : ℕ → Request) (k j : ℕ) (l : List (ℕ × ℕ))
      → j ≤ k
      → Numbered cell l
      → All (λ n. compare_func k n.0 ≡ negsuc 0) l
      → removed cell (expired_nodes curt cell l) j ≡ false
  unfolding removed
  removed_above curt cell k j [] h n a = refl
  removed_above curt cell k j ((i, v) ∷ rest) h n a =
      ground (arith, compare_func-lt k i a.0, removed_above curt cell k j rest h n.1 a.1)

  removed_nodes :
      (curt : ℕ) (cell : ℕ → Request) (j : ℕ) (l : List (ℕ × ℕ))
      → Ascending compare_func l
      → Numbered cell l
      → removed cell (expired_nodes curt cell l) j ≡ elim (assoc compare_func j l) [
        | none ↦ false
        | some k ↦ expired curt cell k && not (cell k).active
      ]
  unfolding removed
  removed_nodes curt cell j [] a n = refl
  removed_nodes curt cell j ((i, v) ∷ rest) a n = ground (
    arith,
    compare_func-eq i j,
    removed_nodes curt cell j rest a.1 n.1,
    removed_above curt cell i j rest,
  )

  expired_ne :
      (curt : ℕ) (cell : ℕ → Request) (i v : ℕ) (l : List (ℕ × ℕ))
      → (cell v).reqno ≡ i
      → Numbered cell l
      → All (λ n. compare_func i n.0 ≡ negsuc 0) l
      → All (λ k. k ≢ v) (expired_nodes curt cell l)
  expired_ne curt cell i v [] e n a = tt
  expired_ne curt cell i v ((j, k) ∷ rest) e n a = elim (Bool-cases (expired curt cell k)) [
    | inl late ↦ rw late (differs, expired_ne curt cell i v rest e n.1 a.1)
    | inr early ↦ rw early (expired_ne curt cell i v rest e n.1 a.1)
  ]
    where
      differs : k ≢ v
      differs same =
          absurd
            (omega (arith, compare_func-lt i j a.0, e, n.0, ap (λ (x : ℕ). (cell x).reqno) same))

  nodes_Distinct :
      (curt : ℕ) (cell : ℕ → Request) (l : List (ℕ × ℕ))
      → Ascending compare_func l
      → Numbered cell l
      → Distinct (expired_nodes curt cell l)
  nodes_Distinct curt cell [] a n = tt
  nodes_Distinct curt cell ((j, k) ∷ rest) a n = elim (Bool-cases (expired curt cell k)) [
    | inl late ↦
        rw late (expired_ne curt cell j k rest n.0 n.1 a.0, nodes_Distinct curt cell rest a.1 n.1)
    | inr early ↦ rw early (nodes_Distinct curt cell rest a.1 n.1)
  ]

  expired-All :
      (P : ℕ → Type 0) (curt : ℕ) (cell : ℕ → Request) (l : List (ℕ × ℕ))
      → All (λ n. P n.1) l
      → All P (expired_nodes curt cell l)
  expired-All P curt cell [] a = tt
  expired-All P curt cell ((j, k) ∷ rest) a = elim (Bool-cases (expired curt cell k)) [
    | inl late ↦ rw late (a.0, expired-All P curt cell rest a.1)
    | inr early ↦ rw early (expired-All P curt cell rest a.1)
  ]

  module _ (s : Handler t.Tree) (curt : ℕ) (v : IsHandler s) where
    nodes-All :
        (P : ℕ × ℕ → Type 0)
        → ((j k : ℕ) → t.lookup s.tree j ≡ some k → P (j, k))
        → All P (t.nodes s.tree)
    nodes-All P f =
        All-of_assoc P (t.nodes s.tree) (t.nodes-Ascending s.tree)
          λ j k e. f j k (t.lookup-nodes s.tree j ∙ e)

    nodes-Numbered : Numbered s.cell (t.nodes s.tree)
    nodes-Numbered = nodes-All (λ n. (s.cell n.1).reqno ≡ n.0) v.numbered

    abbrev late : List ℕ
    late = expired_nodes curt s.cell (t.nodes s.tree)

    -- A timeout sweep takes exactly the numbers out of the table whose requests are both past their
    -- time and ended; every other number keeps its request.
    pub request_get-request_do_timeout :
        (j : ℕ)
        → request_get (request_do_timeout s curt) j ≡ elim (request_get s j) [
          | none ↦ none
          | some k ↦ if expired curt s.cell k && not (s.cell k).active then none else some k
        ]
    unfolding request_get
    request_get-request_do_timeout j =
        rw
          (
            request_do_timeout-each s curt,
            each_lookup late s j,
            removed_nodes curt s.cell j (t.nodes s.tree) (t.nodes-Ascending s.tree) nodes-Numbered,
          )
          (ground (arith, t.lookup-nodes s.tree j))

    -- The sweep calls back for each request that is past its time, still active and not yet timed
    -- out, once, in the order of the numbers, and for no other.
    pub request_do_timeout_calls :
        (request_do_timeout s curt).calls ≡ s.calls ++ calls_of s.cell late
    request_do_timeout_calls =
        ap (λ (z : Handler t.Tree). z.calls) (request_do_timeout-each s curt)
        ∙ each_calls late s
            (nodes_Distinct curt s.cell (t.nodes s.tree) (t.nodes-Ascending s.tree) nodes-Numbered)

    -- The sweep writes through the pointer of each request that it freed, and through no other
    -- freed one.
    pub request_do_timeout_bad_accesses :
        (request_do_timeout s curt).bad_accesses ≡ s.bad_accesses ++ ended s.cell late
    request_do_timeout_bad_accesses =
        ap (λ (z : Handler t.Tree). z.bad_accesses) (request_do_timeout-each s curt)
        ∙ each_bad_accesses late s
            (nodes_Distinct curt s.cell (t.nodes s.tree) (t.nodes-Ascending s.tree) nodes-Numbered)
            (expired-All (λ k. s.freed k ≡ false) curt s.cell (t.nodes s.tree)
              (nodes-All (λ n. s.freed n.1 ≡ false) v.alive))

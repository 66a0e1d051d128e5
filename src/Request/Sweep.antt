-- ===== src/Request/Sweep.antt =====
-- The two loops of request_do_timeout, pingu/request_handler.c.
use misc_uni_stuff.Base.{
  ℕ, ◌≡◌, ◌≢◌, ap, sym, ◌∙◌, arith, List, [], ◌∷◌, ◌++◌, Bool, true, false, not, ◌&&◌, ltb, ◌==◌,
  if◌then◌else◌, none, All, append_assoc, append-nil,
}
use misc_uni_stuff.Glib.{Slist, Gtree, walk}
use misc_uni_stuff.Request.{
  Handler, Request, OnTimeout, compare_func, request_do_timeout_single, request_do_timeout_single2,
  request_do_timeout,
}
use misc_uni_stuff.Request.Scan.{compare_func-eq}

-- Whether the request at `k` is past its time.
abbrev pub expired : ℕ → (ℕ → Request) → ℕ → Bool
expired curt cell k = ltb (cell k).starttime curt

-- The call that a request is due, if any.
abbrev pub due : Request → List (OnTimeout × ℕ)
due r = if r.active && not r.timedout then (r.timeout, r.reqno) ∷ [] else []

abbrev pub Distinct : List ℕ → Type 0
Distinct [] = Unit {0}
Distinct (k ∷ rest) = All (λ j. j ≢ k) rest × Distinct rest

-- The addresses of the expired requests, in the order of their numbers.
abbrev pub expired_nodes : ℕ → (ℕ → Request) → List (ℕ × ℕ) → List ℕ
expired_nodes curt cell [] = []
expired_nodes curt cell ((j, k) ∷ rest) =
    if expired curt cell k then k ∷ expired_nodes curt cell rest else expired_nodes curt cell rest

module _ ⦃g : Slist⦄ ⦃t : Gtree compare_func⦄ where
  pub walk_expired :
      (curt : ℕ) (cell : ℕ → Request) (l : List (ℕ × ℕ)) (found : List ℕ)
      → walk (request_do_timeout_single curt cell) l found ≡ found ++ expired_nodes curt cell l
  unfolding request_do_timeout_single
  walk_expired curt cell [] found = sym (append-nil found)
  walk_expired curt cell ((j, k) ∷ rest) found = ground (
    arith,
    g.append_lem found k,
    walk_expired curt cell rest found,
    walk_expired curt cell rest (found ++ k ∷ []),
    append_assoc found (k ∷ []) (expired_nodes curt cell rest),
  )

  -- The second loop, over the addresses that the first one found.
  unfoldable pub each : List ℕ → Handler t.Tree → Handler t.Tree
  each [] s = s
  each (k ∷ rest) s = each rest (request_do_timeout_single2 k s)

  pub foreach-each :
      (l : List ℕ) (s : Handler t.Tree) → g.foreach request_do_timeout_single2 l s ≡ each l s
  unfolding each
  foreach-each [] s = g.foreach-nil request_do_timeout_single2 s
  foreach-each (k ∷ rest) s =
      g.foreach-cons request_do_timeout_single2 k rest s
      ∙ foreach-each rest (request_do_timeout_single2 k s)

  pub request_do_timeout-each :
      (s : Handler t.Tree) (curt : ℕ)
      → request_do_timeout s curt ≡ each (expired_nodes curt s.cell (t.nodes s.tree)) s
  unfolding request_do_timeout
  request_do_timeout-each s curt =
      ap (λ l. g.foreach request_do_timeout_single2 l s)
        (t.foreach-nodes (request_do_timeout_single curt s.cell) s.tree []
          ∙ walk_expired curt s.cell (t.nodes s.tree) [])
      ∙ foreach-each (expired_nodes curt s.cell (t.nodes s.tree)) s

  -- What one turn of the second loop does to the fields that the loop tests.
  pub single2_active :
      (k j : ℕ) (s : Handler t.Tree)
      → ((request_do_timeout_single2 k s).cell j).active ≡ (s.cell j).active
  unfolding request_do_timeout_single2
  single2_active k j s = ground arith

  pub single2_reqno :
      (k j : ℕ) (s : Handler t.Tree)
      → ((request_do_timeout_single2 k s).cell j).reqno ≡ (s.cell j).reqno
  unfolding request_do_timeout_single2
  single2_reqno k j s = ground arith

  pub single2_lookup :
      (k j : ℕ) (s : Handler t.Tree)
      → t.lookup (request_do_timeout_single2 k s).tree j
        ≡ (if not (s.cell k).active && (s.cell k).reqno == j then none else t.lookup s.tree j)
  unfolding request_do_timeout_single2
  single2_lookup k j s =
      ground (arith, t.lookup-remove s.tree (s.cell k).reqno j, compare_func-eq (s.cell k).reqno j)

  pub single2_calls :
      (k : ℕ) (s : Handler t.Tree)
      → (request_do_timeout_single2 k s).calls ≡ s.calls ++ due (s.cell k)
  unfolding request_do_timeout_single2
  single2_calls k s = ground (arith, append-nil s.calls)

  pub single2_bad_accesses :
      (k : ℕ) (s : Handler t.Tree)
      → s.freed k ≡ false
      → (request_do_timeout_single2 k s).bad_accesses
        ≡ s.bad_accesses ++ (if (s.cell k).active then [] else k ∷ [])
  unfolding request_do_timeout_single2
  single2_bad_accesses k s alive = ground (arith, append-nil s.bad_accesses)

  pub single2_cell_ne :
      (k j : ℕ) (s : Handler t.Tree) → j ≢ k → (request_do_timeout_single2 k s).cell j ≡ s.cell j
  unfolding request_do_timeout_single2
  single2_cell_ne k j s ne = ground arith

  pub single2_freed_ne :
      (k j : ℕ) (s : Handler t.Tree) → j ≢ k → (request_do_timeout_single2 k s).freed j ≡ s.freed j
  unfolding request_do_timeout_single2
  single2_freed_ne k j s ne = ground arith

  pub single2_timedout :
      (k : ℕ) (s : Handler t.Tree)
      → s.freed k ≡ false
      → (s.cell k).active ≡ true
      → ((request_do_timeout_single2 k s).cell k).timedout ≡ true
  unfolding request_do_timeout_single2
  single2_timedout k s alive act = ground arith

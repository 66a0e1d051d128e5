-- ===== src/Request/Numbers.antt =====
-- The number that request_start gives to a request, pingu/request_handler.c.
use misc_uni_stuff.Base.{
  ℕ, ◌+◌, ◌≡◌, ◌≢◌, ◌<◌, ◌≤◌, ◌^◌, inl, inr, sym, ◌∙◌, arith, true, false, ◌==◌, if◌then◌else◌,
  none, some, All,
}
use misc_uni_stuff.Glib.{Slist, Gtree}
use misc_uni_stuff.Request.{
  Handler, Request, compare_func, poke, find_next_number, next_number, request_start, request_get,
}
use misc_uni_stuff.Request.Scan.{
  compare_func-eq, InUse, IsFree, scan, scan-IsFree, scan-zero, All-of_assoc,
}

module _ ⦃g : Slist⦄ ⦃t : Gtree compare_func⦄ where
  -- Every node carries a request that knows its own number, 1 to 65535, and is not freed.
  pub record IsHandler (s : Handler t.Tree) : Type 0 where
    pub positive : (j k : ℕ) → t.lookup s.tree j ≡ some k → 0 < j
    pub fits : (j k : ℕ) → t.lookup s.tree j ≡ some k → j < 2 ^ 16
    pub numbered : (j k : ℕ) → t.lookup s.tree j ≡ some k → (s.cell k).reqno ≡ j
    pub alive : (j k : ℕ) → t.lookup s.tree j ≡ some k → s.freed k ≡ false

  All-of_lookup :
      (P : ℕ × ℕ → Type 0) (s : Handler t.Tree)
      → ((j k : ℕ) → t.lookup s.tree j ≡ some k → P (j, k))
      → All P (t.nodes s.tree)
  All-of_lookup P s f =
      All-of_assoc P (t.nodes s.tree) (t.nodes-Ascending s.tree)
        λ j k e. f j k (t.lookup-nodes s.tree j ∙ e)

  poke_tree : (s : Handler t.Tree) (k : ℕ) (r : Request) → (poke s k r).tree ≡ s.tree
  poke_tree s k r = ground arith

  next_number-IsFree :
      (s : Handler t.Tree) → IsHandler s → IsFree (t.nodes s.tree) 1 (next_number s.tree)
  unfolding next_number scan
  next_number-IsFree s v = rw (t.foreach-nodes find_next_number s.tree 1) (
      scan-IsFree (t.nodes s.tree) 1 (omega arith) (omega arith) (t.nodes-Ascending s.tree)
        (All-of_lookup InUse s (λ j k e. v.fits j k e))
        (All-of_lookup (λ n. 1 ≤ n.0) s (λ j k e. v.positive j k e)))

  -- While the table is well formed, so that no request has the number 0, the number that a new
  -- request gets was not in use, fits 16 bits, and every smaller positive number is in use; it is 0
  -- only where all of 1 to 65535 are.
  pub request_start_number :
      (s : Handler t.Tree) (k now : ℕ)
      → IsHandler s
      → (request_get s (request_start s k now).1 ≡ none)
        × ((request_start s k now).1 < 2 ^ 16)
        × ((j : ℕ) → 0 < j → j < (request_start s k now).1 → request_get s j ≢ none)
        × ((request_start s k now).1 ≡ 0 → (j : ℕ) → 0 < j → j < 2 ^ 16 → request_get s j ≢ none)
  unfolding request_start request_get
  request_start_number s k now v =
      let f = next_number-IsFree s v in
      (
        t.lookup-nodes s.tree (next_number s.tree) ∙ f.unused,
        f.small,
        λ j p lt e.
            f.least j p (omega (arith, f.small)) (inr lt) (sym (t.lookup-nodes s.tree j) ∙ e),
        λ z j p lt e. f.least j p lt (inl z) (sym (t.lookup-nodes s.tree j) ∙ e),
      )

  -- Starting a request files it under its number and marks it active, with five seconds to go; no
  -- other number changes its request.
  pub request_get-request_start :
      (s : Handler t.Tree) (k now j : ℕ)
      → s.freed k ≡ false
      → (request_get (request_start s k now).0 j
          ≡ (if (request_start s k now).1 == j then some k else request_get s j))
        × ((request_start s k now).0.cell k ≡ record (s.cell k) {
          active = true;
          starttime = now + 5;
          reqno = (request_start s k now).1;
          timedout = false;
        })
  unfolding request_start request_get
  request_get-request_start s k now j alive = ground (
    arith,
    t.lookup-insert s.tree (next_number s.tree) k j,
    compare_func-eq (next_number s.tree) j,
  )

  -- With a free number left, starting a request that is not in the table keeps the table well
  -- formed.
  pub request_start-IsHandler :
      (s : Handler t.Tree) (k now i : ℕ)
      → IsHandler s
      → s.freed k ≡ false
      → ((j : ℕ) → request_get s j ≢ some k)
      → 0 < i
      → i < 2 ^ 16
      → request_get s i ≡ none
      → IsHandler (request_start s k now).0
  unfolding request_start request_get
  request_start-IsHandler s k now i v alive new pos_i small free = record {
    positive = λ j k' e. ground (arith, filed j, nonzero, v.positive j k');
    fits = λ j k' e. ground (arith, filed j, f.small, v.fits j k');
    numbered = λ j k' e. ground (arith, filed j, v.numbered j k', new j);
    alive = λ j k' e. ground (arith, filed j, v.alive j k');
  }
    where
      f : IsFree (t.nodes s.tree) 1 (next_number s.tree)
      f = next_number-IsFree s v

      nonzero : next_number s.tree ≢ 0
      nonzero z = f.least i pos_i small (inl z) (sym (t.lookup-nodes s.tree i) ∙ free)

      filed :
          (j : ℕ)
          → t.lookup (t.insert s.tree (next_number s.tree) k) j
            ≡ (if next_number s.tree == j then some k else t.lookup s.tree j)
      filed j = ground (
        arith,
        t.lookup-insert s.tree (next_number s.tree) k j,
        compare_func-eq (next_number s.tree) j,
      )

  next_number-zero : (tree : t.Tree) (k : ℕ) → t.lookup tree 0 ≡ some k → next_number tree ≡ 1
  unfolding next_number find_next_number scan
  next_number-zero tree k e =
      t.foreach-nodes find_next_number tree 1
      ∙ scan-zero (t.nodes tree) k (t.nodes-Ascending tree) (sym (t.lookup-nodes tree 0) ∙ e)

  -- While a request has the number 0, which request_start gives when no other is left, a new request
  -- whose block is not freed gets the number 1, whatever requests there are, and is from then on the
  -- one with this number.
  pub request_start-zero :
      (s : Handler t.Tree) (k first now : ℕ)
      → request_get s 0 ≡ some first
      → s.freed k ≡ false
      → ((request_start s k now).1 ≡ 1) × (request_get (request_start s k now).0 1 ≡ some k)
  unfolding request_start request_get
  request_start-zero s k first now e alive =
      let one = next_number-zero s.tree first e in
      let filed = (request_get-request_start s k now 1 alive).0 in (one, ground (arith, one, filed))

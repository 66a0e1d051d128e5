-- ===== src/Request/Turns.antt =====
-- What the second loop of request_do_timeout does, pingu/request_handler.c: to the tree, the
-- callbacks and the blocks.
use misc_uni_stuff.Base.{
  ℕ, ◌≡◌, ◌≢◌, refl, sym, ◌∙◌, arith, List, [], ◌∷◌, ◌++◌, Bool, true, false, not, ◌&&◌, ◌||◌, ◌==◌,
  if◌then◌else◌, none, All, append_assoc, append-nil,
}
use misc_uni_stuff.Glib.{Slist, Gtree}
use misc_uni_stuff.Request.{Handler, Request, OnTimeout, compare_func, request_do_timeout_single2}
use misc_uni_stuff.Request.Sweep.{
  due, Distinct, each, single2_active, single2_reqno, single2_lookup, single2_calls,
  single2_bad_accesses, single2_cell_ne, single2_freed_ne,
}

module _ ⦃g : Slist⦄ ⦃t : Gtree compare_func⦄ where
  -- The numbers that the second loop takes out of the tree.
  unfoldable pub removed : (ℕ → Request) → List ℕ → ℕ → Bool
  removed cell [] j = false
  removed cell (k ∷ rest) j = (not (cell k).active && (cell k).reqno == j) || removed cell rest j

  pub removed_ext :
      (c c' : ℕ → Request) (l : List ℕ) (j : ℕ)
      → ((k : ℕ) → (c k).active ≡ (c' k).active)
      → ((k : ℕ) → (c k).reqno ≡ (c' k).reqno)
      → removed c l j ≡ removed c' l j
  unfolding removed
  removed_ext c c' [] j ha hr = refl
  removed_ext c c' (k ∷ rest) j ha hr = rw (ha k, hr k, removed_ext c c' rest j ha hr)

  pub each_lookup :
      (l : List ℕ) (s : Handler t.Tree) (j : ℕ)
      → t.lookup (each l s).tree j ≡ (if removed s.cell l j then none else t.lookup s.tree j)
  unfolding each removed
  each_lookup [] s j = refl
  each_lookup (k ∷ rest) s j = ground (
    arith,
    each_lookup rest (request_do_timeout_single2 k s) j,
    single2_lookup k j s,
    removed_ext (request_do_timeout_single2 k s).cell s.cell rest j (λ i. single2_active k i s)
        (λ i. single2_reqno k i s),
  )

  unfoldable pub calls_of : (ℕ → Request) → List ℕ → List (OnTimeout × ℕ)
  calls_of cell [] = []
  calls_of cell (k ∷ rest) = due (cell k) ++ calls_of cell rest

  unfoldable pub ended : (ℕ → Request) → List ℕ → List ℕ
  ended cell [] = []
  ended cell (k ∷ rest) = (if (cell k).active then [] else k ∷ []) ++ ended cell rest

  pub calls_of_ext :
      (c c' : ℕ → Request) (l : List ℕ) → All (λ k. c k ≡ c' k) l → calls_of c l ≡ calls_of c' l
  unfolding calls_of
  calls_of_ext c c' [] a = refl
  calls_of_ext c c' (k ∷ rest) a = rw (a.0, calls_of_ext c c' rest a.1)

  pub ended_ext :
      (c c' : ℕ → Request) (l : List ℕ)
      → ((k : ℕ) → (c k).active ≡ (c' k).active)
      → ended c l ≡ ended c' l
  unfolding ended
  ended_ext c c' [] a = refl
  ended_ext c c' (k ∷ rest) a = rw (a k, ended_ext c c' rest a)

  pub All-single2 :
      (k : ℕ) (s : Handler t.Tree) (l : List ℕ)
      → All (λ j. j ≢ k) l
      → All (λ j. (request_do_timeout_single2 k s).cell j ≡ s.cell j) l
  All-single2 k s [] a = tt
  All-single2 k s (j ∷ rest) a = (single2_cell_ne k j s a.0, All-single2 k s rest a.1)

  pub All-alive :
      (k : ℕ) (s : Handler t.Tree) (l : List ℕ)
      → All (λ j. j ≢ k) l
      → All (λ j. s.freed j ≡ false) l
      → All (λ j. (request_do_timeout_single2 k s).freed j ≡ false) l
  All-alive k s [] a f = tt
  All-alive k s (j ∷ rest) a f = (single2_freed_ne k j s a.0 ∙ f.0, All-alive k s rest a.1 f.1)

  pub each_calls :
      (l : List ℕ) (s : Handler t.Tree)
      → Distinct l
      → (each l s).calls ≡ s.calls ++ calls_of s.cell l
  unfolding each calls_of
  each_calls [] s d = sym (append-nil s.calls)
  each_calls (k ∷ rest) s d =
      each_calls rest (request_do_timeout_single2 k s) d.1
      ∙ rw (single2_calls k s, calls_of_ext _ _ rest (All-single2 k s rest d.0))
          (append_assoc s.calls (due (s.cell k)) (calls_of s.cell rest))

  pub each_bad_accesses :
      (l : List ℕ) (s : Handler t.Tree)
      → Distinct l
      → All (λ j. s.freed j ≡ false) l
      → (each l s).bad_accesses ≡ s.bad_accesses ++ ended s.cell l
  unfolding each ended
  each_bad_accesses [] s d f = sym (append-nil s.bad_accesses)
  each_bad_accesses (k ∷ rest) s d f =
      each_bad_accesses rest (request_do_timeout_single2 k s) d.1 (All-alive k s rest d.0 f.1)
      ∙ rw
          (
            single2_bad_accesses k s f.0,
            ended_ext (request_do_timeout_single2 k s).cell s.cell rest (λ i. single2_active k i s),
          )
          (append_assoc s.bad_accesses (if (s.cell k).active then [] else k ∷ [])
            (ended s.cell rest))

  -- Whether the second loop frees `j`.
  unfoldable pub freed_in : (ℕ → Request) → List ℕ → ℕ → Bool
  freed_in cell [] j = false
  freed_in cell (k ∷ rest) j = (not (cell k).active && k == j) || freed_in cell rest j

  pub freed_in_ext :
      (c c' : ℕ → Request) (l : List ℕ) (j : ℕ)
      → ((k : ℕ) → (c k).active ≡ (c' k).active)
      → freed_in c l j ≡ freed_in c' l j
  unfolding freed_in
  freed_in_ext c c' [] j h = refl
  freed_in_ext c c' (k ∷ rest) j h = rw (h k, freed_in_ext c c' rest j h)

  pub single2_freed :
      (k j : ℕ) (s : Handler t.Tree)
      → (request_do_timeout_single2 k s).freed j ≡ (not (s.cell k).active && k == j) || s.freed j
  unfolding request_do_timeout_single2
  single2_freed k j s = ground arith

  pub each_freed :
      (l : List ℕ) (s : Handler t.Tree) (j : ℕ)
      → (each l s).freed j ≡ (if freed_in s.cell l j then true else s.freed j)
  unfolding each freed_in
  each_freed [] s j = refl
  each_freed (k ∷ rest) s j = ground (
    arith,
    each_freed rest (request_do_timeout_single2 k s) j,
    single2_freed k j s,
    freed_in_ext (request_do_timeout_single2 k s).cell s.cell rest j (λ i. single2_active k i s),
  )

  pub each_reqno :
      (l : List ℕ) (s : Handler t.Tree) (j : ℕ) → ((each l s).cell j).reqno ≡ (s.cell j).reqno
  unfolding each
  each_reqno [] s j = refl
  each_reqno (k ∷ rest) s j =
      each_reqno rest (request_do_timeout_single2 k s) j ∙ single2_reqno k j s

  pub each_active :
      (l : List ℕ) (s : Handler t.Tree) (j : ℕ) → ((each l s).cell j).active ≡ (s.cell j).active
  unfolding each
  each_active [] s j = refl
  each_active (k ∷ rest) s j =
      each_active rest (request_do_timeout_single2 k s) j ∙ single2_active k j s

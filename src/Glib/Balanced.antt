-- ===== src/Glib/Balanced.antt =====
-- GTree as the request handler uses it: numbers to addresses, with NULL for a missing key. The
-- functions are GLib's, so they are a parameter with documented laws.
use misc_uni_stuff.Base.{
  ℕ, ◌≡◌, List, [], ◌∷◌, Bool, if◌then◌else◌, Option, none, some, ℤ, is_zero, All, negsuc,
}

-- A traversal in order, which a callback ends by TRUE.
abbrev pub walk {ℓ} : {S : Type ℓ} → (ℕ → ℕ → S → Bool × S) → List (ℕ × ℕ) → S → S
walk f [] s = s
walk f ((k, v) ∷ rest) s =
    let after = walk f rest (f k v s).1 in if (f k v s).0 then (f k v s).1 else after

module _ (cmp : ℕ → ℕ → ℤ) where
  -- Every key sorts before all those behind it.
  abbrev pub Ascending : List (ℕ × ℕ) → Type 0
  Ascending [] = Unit {0}
  Ascending ((k, v) ∷ rest) = All (λ n. cmp k n.0 ≡ negsuc 0) rest × Ascending rest

  abbrev pub assoc : ℕ → List (ℕ × ℕ) → Option ℕ
  assoc j [] = none
  assoc j ((k, v) ∷ rest) = if is_zero (cmp k j) then some v else assoc j rest

  -- The trees that `g_tree_new(cmp)` makes, for a `cmp` that answers -1 where the left key is less.
  pub record Gtree : Type 1 where
    pub Tree : Type 0
    pub create : Tree
    pub lookup : Tree → ℕ → Option ℕ
    pub insert : Tree → ℕ → ℕ → Tree
    pub remove : Tree → ℕ → Tree
    pub foreach : {S : Type 0} → (ℕ → ℕ → S → Bool × S) → Tree → S → S
    pub nodes : Tree → List (ℕ × ℕ)
    pub nodes-Ascending : (t : Tree) → Ascending (nodes t)
    pub lookup-nodes : (t : Tree) (k : ℕ) → lookup t k ≡ assoc k (nodes t)
    pub foreach-nodes :
        {S : Type 0} (f : ℕ → ℕ → S → Bool × S) (t : Tree) (s : S)
        → foreach f t s ≡ walk f (nodes t) s
    pub lookup-create : (k : ℕ) → lookup create k ≡ none
    pub lookup-insert :
        (t : Tree) (k v j : ℕ)
        → lookup (insert t k v) j ≡ (if is_zero (cmp k j) then some v else lookup t j)
    pub lookup-remove :
        (t : Tree) (k j : ℕ)
        → lookup (remove t k) j ≡ (if is_zero (cmp k j) then none else lookup t j)

-- ===== src/Request/Scan.antt =====
-- The traversal of find_next_number over the nodes of the tree, pingu/request_handler.c.
use misc_uni_stuff.Base.{
  ℕ, ◌+◌, ◌≡◌, ◌≢◌, ◌<◌, ◌≤◌, ◌^◌, ◌⊎◌, inl, inr, refl, sym, subst, arith, List, [], ◌∷◌, ◌==◌,
  if◌then◌else◌, none, some, negsuc, All, ==_iff, Bool-cases, is_zero,
}
use misc_uni_stuff.Host.{u16}
use native.Mathlib.Decide.{dec_lt}
use misc_uni_stuff.Glib.{walk, Ascending, assoc}
use misc_uni_stuff.Request.{compare_func, find_next_number}

pub compare_func-eq : (k j : ℕ) → is_zero (compare_func k j) ≡ (k == j)
unfolding compare_func
compare_func-eq k j = ground arith

pub compare_func-lt : (k j : ℕ) → compare_func k j ≡ negsuc 0 → k < j
unfolding compare_func
compare_func-lt k j h = ground arith

-- A request number that a 16-bit handle can carry.
abbrev pub InUse : ℕ × ℕ → Type 0
InUse n = n.0 < 2 ^ 16

-- Behind a smaller key there is no node for `j`.
pub assoc_above :
    (k j : ℕ) (rest : List (ℕ × ℕ))
    → j ≤ k
    → All (λ n. compare_func k n.0 ≡ negsuc 0) rest
    → assoc compare_func j rest ≡ none
assoc_above k j [] h a = refl
assoc_above k j ((i, v) ∷ rest) h a =
    ground (arith, compare_func-eq i j, compare_func-lt k i a.0, assoc_above k j rest h a.1)

-- `r` is the least number from `m` on that `l` has no node for, or 0 where there is none.
pub record IsFree (l : List (ℕ × ℕ)) (m r : ℕ) : Type 0 where
  pub unused : assoc compare_func r l ≡ none
  pub small : r < 2 ^ 16
  pub above : (r ≡ 0) ⊎ (m ≤ r)
  pub least : (j : ℕ) → m ≤ j → j < 2 ^ 16 → (r ≡ 0) ⊎ (j < r) → assoc compare_func j l ≢ none

IsFree-stop :
    (k v m : ℕ) (rest : List (ℕ × ℕ))
    → m < k
    → k < 2 ^ 16
    → 0 < m
    → All (λ n. compare_func k n.0 ≡ negsuc 0) rest
    → IsFree ((k, v) ∷ rest) m m
IsFree-stop k v m rest h small pos_m a = record {
  unused = ground (arith, compare_func-eq k m, assoc_above k m rest (omega arith) a);
  small = omega arith;
  above = inr (omega arith);
  least = λ j p q r. absurd (omega arith);
}

IsFree-next :
    (k v r : ℕ) (rest : List (ℕ × ℕ)) → 0 < k → IsFree rest (k + 1) r → IsFree ((k, v) ∷ rest) k r
IsFree-next k v r rest pos_k f = record {
  unused = ground (arith, compare_func-eq k r, f.unused, f.above);
  small = f.small;
  above = ground (arith, f.above);
  least = λ j p q lt. elim (Bool-cases (k == j)) [
    | inl e ↦ rw (compare_func-eq k j, e) (λ x. cc)
    | inr e ↦ rw (compare_func-eq k j, e) (f.least j (ground arith) q lt)
  ];
}

IsFree-wrap :
    (k v : ℕ) (rest : List (ℕ × ℕ))
    → 0 < k
    → k + 1 ≡ 2 ^ 16
    → All InUse rest
    → All (λ n. compare_func k n.0 ≡ negsuc 0) rest
    → IsFree ((k, v) ∷ rest) k 0
IsFree-wrap k v rest pos_k top u a = record {
  unused = ground (arith, compare_func-eq k 0, assoc_above k 0 rest (omega arith) a);
  small = omega arith;
  above = inl refl;
  least = λ j p q lt. ground (arith, compare_func-eq k j);
}

-- The result of the traversal of `l` from `m`.
unfoldable pub scan : List (ℕ × ℕ) → ℕ → ℕ
unfolding find_next_number
scan l m = walk find_next_number l m

scan-nil : (m : ℕ) → scan [] m ≡ m
unfolding scan
scan-nil m = refl

scan-cons :
    (k v m : ℕ) (rest : List (ℕ × ℕ))
    → scan ((k, v) ∷ rest) m ≡ (if m == k then scan rest (u16 (k + 1)) else m)
unfolding scan
scan-cons k v m rest = ground arith

All-above :
    (k : ℕ) (rest : List (ℕ × ℕ))
    → All (λ n. compare_func k n.0 ≡ negsuc 0) rest
    → All (λ n. k + 1 ≤ n.0) rest
All-above k [] a = tt
All-above k (n ∷ rest) a = (omega (arith, compare_func-lt k n.0 a.0), All-above k rest a.1)

scan_top :
    (k : ℕ) (rest : List (ℕ × ℕ))
    → k + 1 ≡ 2 ^ 16
    → All InUse rest
    → All (λ n. compare_func k n.0 ≡ negsuc 0) rest
    → scan rest 0 ≡ 0
scan_top k [] top u a = scan-nil 0
scan_top k (n ∷ rest) top u a = absurd (omega (arith, compare_func-lt k n.0 a.0, u.0))

scan_matched :
    (k v : ℕ) (rest : List (ℕ × ℕ))
    → 0 < k
    → k < 2 ^ 16
    → All InUse rest
    → All (λ n. compare_func k n.0 ≡ negsuc 0) rest
    → (k + 1 < 2 ^ 16 → IsFree rest (k + 1) (scan rest (k + 1)))
    → IsFree ((k, v) ∷ rest) k (scan rest (u16 (k + 1)))
scan_matched k v rest pos_k small u a next = elim (dec_lt (k + 1) (2 ^ 16)) [
  | yes lt ↦
      let e : u16 (k + 1) ≡ k + 1 = omega arith in rw e (IsFree-next k v _ rest pos_k (next lt))
  | no ge ↦
      let e : u16 (k + 1) ≡ 0 = omega arith in
      rw (e, scan_top k rest (omega arith) u a) (IsFree-wrap k v rest pos_k (omega arith) u a)
]

pub scan-IsFree :
    (l : List (ℕ × ℕ)) (m : ℕ)
    → 0 < m
    → m < 2 ^ 16
    → Ascending compare_func l
    → All InUse l
    → All (λ n. m ≤ n.0) l
    → IsFree l m (scan l m)
scan-IsFree [] m h small a u b = rw (scan-nil m) (record {
  unused = refl;
  small = small;
  above = inr (omega arith);
  least = λ j p q r. absurd (omega arith);
})
scan-IsFree ((k, v) ∷ rest) m h small a u b = elim (Bool-cases (m == k)) [
  | inr e ↦ rw (scan-cons k v m rest, e) (IsFree-stop k v m rest (ground (arith, b.0)) u.0 h a.0)
  | inl e ↦
      rw (scan-cons k v m rest, e)
        (subst (λ i. IsFree ((k, v) ∷ rest) i (scan rest (u16 (k + 1)))) (sym ((==_iff m k).0 e))
          (scan_matched k v rest (omega (arith, b.0)) u.0 u.1 a.0
            (λ lt. scan-IsFree rest (k + 1) (omega arith) lt a.1 u.1 (All-above k rest a.0))))
]

-- The keys of a tree, and what its lookups say of them.
pub All-of_assoc :
    (P : ℕ × ℕ → Type 0) (l : List (ℕ × ℕ))
    → Ascending compare_func l
    → ((j v : ℕ) → assoc compare_func j l ≡ some v → P (j, v))
    → All P l
All-of_assoc P [] a f = tt
All-of_assoc P ((k, v) ∷ rest) a f = (
  f k v (ground (arith, compare_func-eq k k)),
  All-of_assoc P rest a.1
      λ j w e. f j w (ground (arith, compare_func-eq k j, assoc_above k j rest)),
)

-- A node for 0 is the first, and the traversal from 1 stops at it.
pub scan-zero :
    (l : List (ℕ × ℕ)) (k : ℕ)
    → Ascending compare_func l
    → assoc compare_func 0 l ≡ some k
    → scan l 1 ≡ 1
unfolding scan find_next_number
scan-zero [] k a e = cc
scan-zero ((i, v) ∷ rest) k a e = elim (Bool-cases (i == 0)) [
  | inl first ↦ ground (arith, first)
  | inr later ↦
      let absent = assoc_above i 0 rest (omega arith) a.0 in
      absurd (ground (arith, later, absent, e, compare_func-eq i 0))
]

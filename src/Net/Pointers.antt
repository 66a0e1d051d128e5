-- ===== src/Net/Pointers.antt =====
-- How often a pointer stands in a list.
use misc_uni_stuff.Base.{
  ℕ, ◌+◌, ◌≡◌, ◌<◌, refl, ap, arith, List, [], ◌∷◌, ◌++◌, Bool, true, false, Bool-cases, inl, inr,
  ==_iff,
}
use misc_uni_stuff.Glib.{Slist, Gpointer, null, list_node, block, same_pointer}

pub same_pointer_refl : (p : Gpointer) → same_pointer p p ≡ true
same_pointer_refl null = refl
same_pointer_refl list_node = refl
same_pointer_refl (block k) = (==_iff k k).1 refl

pub same_pointer→eq : (p q : Gpointer) → same_pointer p q ≡ true → p ≡ q
same_pointer→eq null null h = refl
same_pointer→eq null list_node h = cc
same_pointer→eq null (block k) h = cc
same_pointer→eq list_node null h = cc
same_pointer→eq list_node list_node h = refl
same_pointer→eq list_node (block k) h = cc
same_pointer→eq (block j) null h = cc
same_pointer→eq (block j) list_node h = cc
same_pointer→eq (block j) (block k) h = ap block ((==_iff j k).0 h)

abbrev pub one_if : Bool → ℕ
one_if true = 1
one_if false = 0

abbrev pub count : Gpointer → List Gpointer → ℕ
count p [] = 0
count p (q ∷ l) = one_if (same_pointer q p) + count p l

pub count-append : (p : Gpointer) (l m : List Gpointer) → count p (l ++ m) ≡ count p l + count p m
count-append p [] m = omega arith
count-append p (q ∷ l) m = omega (arith, count-append p l m)

pub count-snoc :
    (p q : Gpointer) (l : List Gpointer)
    → count p (l ++ q ∷ []) ≡ count p l + one_if (same_pointer q p)
count-snoc p q l = omega (arith, count-append p l (q ∷ []))

module _ ⦃g : Slist⦄ where
  -- g_slist_remove takes one occurrence away, if there is one, and no other pointer's.
  pub count-remove :
      (p q : Gpointer) (l : List Gpointer)
      → 0 < count q l
      → count p (g.remove l q) + one_if (same_pointer q p) ≡ count p l
  count-remove p q [] h = absurd (omega arith)
  count-remove p q (r ∷ l) h = elim (Bool-cases (same_pointer r q)) [
    | inl e ↦ rw (g.remove-cons r l q, e, ← same_pointer→eq r q e) (omega arith)
    | inr e ↦
        rw (g.remove-cons r l q, e)
          (omega (
            arith,
            count-remove p q l (let n : one_if (same_pointer r q) ≡ 0 = rw e in omega (arith, n)),
          ))
  ]

  -- A pointer that is not in the list: nothing is removed.
  pub remove_absent : (q : Gpointer) (l : List Gpointer) → count q l ≡ 0 → g.remove l q ≡ l
  remove_absent q [] h = g.remove-nil q
  remove_absent q (r ∷ l) h = elim (Bool-cases (same_pointer r q)) [
    | inl e ↦ absurd (omega (arith, ap one_if e))
    | inr e ↦ rw (g.remove-cons r l q, e) (ap (◌∷◌ r) (remove_absent q l (omega arith)))
  ]

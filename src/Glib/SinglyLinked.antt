-- ===== src/Glib/SinglyLinked.antt =====
-- GSList as the program uses it. A `GSList *` is the list that starts at the node it points to, and
-- NULL is the empty list; the functions are GLib's, so they are a parameter with documented laws.
use misc_uni_stuff.Base.{
  ℕ, ◌≡◌, ◌+◌, drop, pos, negsuc, List, [], ◌∷◌, ◌++◌, Bool, true, false, ◌==◌, if◌then◌else◌,
  length, ℤ, is_zero,
}

-- An untyped pointer: NULL, a block that the program allocated, or a node of a list, which is never
-- such a block.
pub data Gpointer : Type 0 where
  null list_node : Gpointer
  block : ℕ → Gpointer

abbrev pub same_pointer : Gpointer → Gpointer → Bool
same_pointer null null = true
same_pointer list_node list_node = true
same_pointer (block m) (block n) = m == n
same_pointer p q = false

-- The next position, where there is one; -1 stands for none.
abbrev pub one_more : ℤ → ℤ
one_more (pos n) = pos (n + 1)
one_more (negsuc n) = negsuc n

pub record Slist : Type 1 where
  pub append : {A : Type 0} → List A → A → List A
  pub remove : List Gpointer → Gpointer → List Gpointer
  pub find_custom : {A B : Type 0} → List A → B → (A → B → ℤ) → List A
  pub foreach : {A S : Type 0} → (A → S → S) → List A → S → S
  pub len : {A : Type 0} → List A → ℕ
  pub nth : {A : Type 0} → List A → ℕ → List A
  pub index : List Gpointer → Gpointer → ℤ
  pub append_lem : {A : Type 0} (l : List A) (a : A) → append l a ≡ l ++ a ∷ []
  pub remove-nil : (p : Gpointer) → remove [] p ≡ []
  pub remove-cons :
      (q : Gpointer) (l : List Gpointer) (p : Gpointer)
      → remove (q ∷ l) p ≡ (if same_pointer q p then l else q ∷ remove l p)
  pub find_custom-nil : {A B : Type 0} (b : B) (f : A → B → ℤ) → find_custom [] b f ≡ []
  pub find_custom-cons :
      {A B : Type 0} (a : A) (l : List A) (b : B) (f : A → B → ℤ)
      → find_custom (a ∷ l) b f ≡ (if is_zero (f a b) then a ∷ l else find_custom l b f)
  pub foreach-nil : {A S : Type 0} (f : A → S → S) (s : S) → foreach f [] s ≡ s
  pub foreach-cons :
      {A S : Type 0} (f : A → S → S) (a : A) (l : List A) (s : S)
      → foreach f (a ∷ l) s ≡ foreach f l (f a s)
  pub len_lem : {A : Type 0} (l : List A) → len l ≡ length l
  pub nth_lem : {A : Type 0} (l : List A) (n : ℕ) → nth l n ≡ drop n l
  pub index-nil : (p : Gpointer) → index [] p ≡ negsuc 0
  pub index-cons :
      (q : Gpointer) (l : List Gpointer) (p : Gpointer)
      → index (q ∷ l) p ≡ (if same_pointer q p then pos 0 else one_more (index l p))

module _ ⦃g : Slist⦄ where
  abbrev pub g_slist_nth : {A : Type 0} → List A → ℕ → List A
  g_slist_nth = g.nth

  abbrev pub g_slist_index : List Gpointer → Gpointer → ℤ
  g_slist_index = g.index

  abbrev pub g_slist_append : {A : Type 0} → List A → A → List A
  g_slist_append = g.append

  abbrev pub g_slist_remove : List Gpointer → Gpointer → List Gpointer
  g_slist_remove = g.remove

  abbrev pub g_slist_find_custom : {A B : Type 0} → List A → B → (A → B → ℤ) → List A
  g_slist_find_custom = g.find_custom

  abbrev pub g_slist_foreach : {A S : Type 0} → (A → S → S) → List A → S → S
  g_slist_foreach = g.foreach

  abbrev pub g_slist_length : {A : Type 0} → List A → ℕ
  g_slist_length = g.len

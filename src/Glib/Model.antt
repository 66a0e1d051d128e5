-- ===== src/Glib/Model.antt =====
-- Lists and sorted association lists that meet the laws of the two interfaces.
use misc_uni_stuff.Base.{
  drop, pos, negsuc, refl, List, [], ◌∷◌, ◌++◌, if◌then◌else◌, ℤ, is_zero, length,
}
use misc_uni_stuff.Glib.SinglyLinked.{Slist, Gpointer, same_pointer, one_more}

abbrev remove : List Gpointer → Gpointer → List Gpointer
remove [] p = []
remove (q ∷ l) p = if same_pointer q p then l else q ∷ remove l p

abbrev find_custom : {A B : Type 0} → List A → B → (A → B → ℤ) → List A
find_custom [] b f = []
find_custom (a ∷ l) b f = if is_zero (f a b) then a ∷ l else find_custom l b f

abbrev foreach : {A S : Type 0} → (A → S → S) → List A → S → S
foreach f [] s = s
foreach f (a ∷ l) s = foreach f l (f a s)

abbrev index : List Gpointer → Gpointer → ℤ
index [] p = negsuc 0
index (q ∷ l) p = if same_pointer q p then pos 0 else one_more (index l p)

instance abbrev pub list_slist : Slist
list_slist = record {
  append = λ {A} l a. l ++ a ∷ [];
  remove = remove;
  find_custom = λ {A} {B} l b f. find_custom l b f;
  foreach = λ {A} {S} f l s. foreach f l s;
  len = λ {A} l. length l;
  nth = λ {A} l n. drop n l;
  index = index;
  append_lem = λ {A} l a. refl;
  remove-nil = λ p. refl;
  remove-cons = λ q l p. refl;
  find_custom-nil = λ {A} {B} b f. refl;
  find_custom-cons = λ {A} {B} a l b f. refl;
  foreach-nil = λ {A} {S} f s. refl;
  foreach-cons = λ {A} {S} f a l s. refl;
  len_lem = λ {A} l. refl;
  nth_lem = λ {A} l n. refl;
  index-nil = λ p. refl;
  index-cons = λ q l p. refl;
}

-- ===== src/ListModel/Walk.antt =====
-- Reading the rows of the list model through its iterators, pingu/model_gslist.c.
use misc_uni_stuff.Base.{
  ℕ, zero, suc, ◌≡◌, ◌<◌, ◌≤◌, refl, ap, arith, List, [], ◌∷◌, true, lt→leb, if◌then◌else◌, Option,
  none, some, pos, negsuc, ok, length, drop, get_elem?, length-drop,
}
use misc_uni_stuff.Glib.{Slist, Gpointer, null, list_node, block}
use misc_uni_stuff.Net.Pointers.{count}
use misc_uni_stuff.ListModel.{
  ModelGslist, GtkTreeIter, model_gslist_iter_next, model_gslist_iter_children,
  model_gslist_get_iter, model_gslist_get_path, model_gslist_iter_nth_child,
  model_gslist_iter_n_children,
}

-- The data of the row that an iterator points to.
abbrev pub row : GtkTreeIter → Option Gpointer
row iter = get_elem? iter.user_data 0

-- The rows from an iterator on, as a view reads them; `fuel` bounds their number.
abbrev pub rows_from : ℕ → ModelGslist → GtkTreeIter → List Gpointer
rows_from zero m iter = []
rows_from (suc fuel) m iter =
    let (more, after) = model_gslist_iter_next m iter in
    let rest = rows_from fuel m after in
    elim (row iter) [ none ↦ [] | some p ↦ p ∷ (if more then rest else []) ]

abbrev pub rows : ℕ → ModelGslist → GtkTreeIter → List Gpointer
rows fuel m iter =
    let (found, first) = model_gslist_iter_children m iter none in
    if found then rows_from fuel m first else []

rows_from_lem :
    (l : List Gpointer) (fuel : ℕ) (m : ModelGslist) (iter : GtkTreeIter)
    → iter.user_data ≡ l
    → length l ≤ fuel
    → rows_from fuel m iter ≡ l
unfolding model_gslist_iter_next
rows_from_lem [] zero m iter e h = refl
rows_from_lem (p ∷ l) zero m iter e h = absurd (omega arith)
rows_from_lem [] (suc fuel) m iter e h = rw e refl
rows_from_lem (p ∷ []) (suc fuel) m iter e h = rw e refl
rows_from_lem (p ∷ q ∷ l) (suc fuel) m iter e h = rw e (
    ap (λ x. p ∷ x)
      (rows_from_lem (q ∷ l) fuel m (record iter { stamp = m.stamp; user_data = q ∷ l }) refl
        (omega arith)))

elem-drop : (l : List Gpointer) (n : ℕ) → get_elem? (drop n l) 0 ≡ get_elem? l n
elem-drop l zero = refl
elem-drop [] (suc n) = refl
elem-drop (p ∷ l) (suc n) = elem-drop l n

module _ ⦃g : Slist⦄ where
  index_absent : (l : List Gpointer) → count list_node l ≡ 0 → g.index l list_node ≡ negsuc 0
  index_absent [] h = g.index-nil list_node
  index_absent (null ∷ l) h = rw (g.index-cons null l list_node, index_absent l (omega arith)) refl
  index_absent (list_node ∷ l) h = absurd (omega arith)
  index_absent (block k ∷ l) h =
      rw (g.index-cons (block k) l list_node, index_absent l (omega arith)) refl

  path_at :
      (m : ModelGslist) (it : GtkTreeIter)
      → 0 < length it.user_data
      → count list_node m.list ≡ 0
      → model_gslist_get_path m it ≡ some (negsuc 0 ∷ [])
  unfolding model_gslist_get_path
  path_at m it h none_listed = ground (arith, index_absent m.list none_listed)

  first_rows :
      (m : ModelGslist) (iter : GtkTreeIter) (l : List Gpointer)
      → m.list ≡ l
      → rows (length l) m iter ≡ l
  unfolding model_gslist_iter_children
  first_rows m iter [] e = rw e refl
  first_rows m iter (p ∷ l) e = rw e (
      rows_from_lem (p ∷ l) (suc (length l)) (record m { list = p ∷ l })
        (record iter { stamp = m.stamp; user_data = p ∷ l }) refl (omega arith))

  -- A view that takes the first row and then the next until there is none reads each row of the
  -- list once, in order, and needs no more steps than the model says that there are rows.
  pub rows-n_children :
      (m : ModelGslist) (iter : GtkTreeIter)
      → rows (model_gslist_iter_n_children m none) m iter ≡ m.list
  unfolding model_gslist_iter_children model_gslist_iter_n_children
  rows-n_children m iter = rw (g.len_lem m.list) (first_rows m iter m.list refl)

  -- For the number of a row, the iterators by path and by number both point to that row; but the
  -- path of the first of them is not the path that it came from: it has the index -1, for every
  -- row.
  pub get_path-get_iter :
      (m : ModelGslist) (iter : GtkTreeIter) (n : ℕ)
      → n < length m.list
      → count list_node m.list ≡ 0
      → (it : GtkTreeIter) × (model_gslist_get_iter m iter (pos n ∷ []) ≡ ok (true, it))
        × (model_gslist_iter_nth_child m iter none (pos n)
            ≡ (true, record iter { stamp = m.stamp; user_data = it.user_data }))
        × (row it ≡ get_elem? m.list n)
        × (model_gslist_get_path m it ≡ some (negsuc 0 ∷ []))
  unfolding model_gslist_get_iter model_gslist_iter_nth_child
  get_path-get_iter m iter n h none_listed =
      let it : GtkTreeIter = record {
        stamp = m.stamp;
        user_data = g.nth m.list n;
        user_data2 = null;
        user_data3 = null;
      } in
      let inside = lt→leb (length m.list) n h in
      (
        it,
        rw (g.len_lem m.list, inside) refl,
        rw (g.len_lem m.list, inside) refl,
        rw (g.nth_lem m.list n) (elem-drop m.list n),
        path_at m it (rw (g.nth_lem m.list n, length-drop n m.list) (omega arith)) none_listed,
      )

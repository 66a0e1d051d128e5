-- ===== src/ListModel/Interface.antt =====
-- The interface GtkTreeModel, as model_gslist_tree_model_init of pingu/model_gslist.c fills it in,
-- and what GTK documents for a model that is a list.
use misc_uni_stuff.Base.{
  ℕ, zero, suc, ◌≡◌, ◌<◌, ◌≤◌, refl, ap, sym, ◌∙◌, arith, List, [], ◌∷◌, Bool, true, false, le→leb,
  lt→leb, Option, none, some, ℤ, pos, Result, ok, length, drop, get_elem?,
}
use misc_uni_stuff.Glib.{Slist, Gpointer, null}
use misc_uni_stuff.ListModel.{
  ModelGslist, GtkTreeIter, GType, GtkTreeModelFlags, gtk_tree_model_list_only,
  gtk_tree_model_iters_persist, GValue, unset, string, model_gslist_get_flags,
  model_gslist_get_n_columns, model_gslist_get_column_type, model_gslist_get_iter,
  model_gslist_get_path, model_gslist_get_value, model_gslist_iter_next, model_gslist_iter_children,
  model_gslist_iter_has_child, model_gslist_iter_n_children, model_gslist_iter_nth_child,
  model_gslist_iter_parent,
}

-- The functions that a view calls.
pub record GtkTreeModelIface : Type 0 where
  pub get_flags : ModelGslist → List GtkTreeModelFlags
  pub get_n_columns : ModelGslist → ℕ
  pub get_column_type : ModelGslist → ℤ → GType
  pub get_iter : ModelGslist → GtkTreeIter → List ℤ → Result (Bool × GtkTreeIter)
  pub get_path : ModelGslist → GtkTreeIter → Option (List ℤ)
  pub get_value : ModelGslist → GtkTreeIter → ℤ → GValue → GValue
  pub iter_next : ModelGslist → GtkTreeIter → Bool × GtkTreeIter
  pub iter_children : ModelGslist → GtkTreeIter → Option GtkTreeIter → Bool × GtkTreeIter
  pub iter_has_child : ModelGslist → GtkTreeIter → Bool
  pub iter_n_children : ModelGslist → Option GtkTreeIter → ℕ
  pub iter_nth_child : ModelGslist → GtkTreeIter → Option GtkTreeIter → ℤ → Bool × GtkTreeIter
  pub iter_parent : ModelGslist → GtkTreeIter → GtkTreeIter → Bool

unfoldable pub model_gslist_tree_model_init : ⦃g : Slist⦄ → GtkTreeModelIface
model_gslist_tree_model_init = record {
  get_flags = model_gslist_get_flags;
  get_n_columns = model_gslist_get_n_columns;
  get_column_type = model_gslist_get_column_type;
  get_iter = model_gslist_get_iter;
  get_path = model_gslist_get_path;
  get_value = model_gslist_get_value;
  iter_next = model_gslist_iter_next;
  iter_children = model_gslist_iter_children;
  iter_has_child = model_gslist_iter_has_child;
  iter_n_children = model_gslist_iter_n_children;
  iter_nth_child = model_gslist_iter_nth_child;
  iter_parent = model_gslist_iter_parent;
}

-- An iterator points to the row with a number.
pub record At (m : ModelGslist) (n : ℕ) (it : GtkTreeIter) : Type 0 where
  pub inside : n < length m.list
  pub node : it.user_data ≡ drop n m.list

-- What GTK documents for a list, of every function but get_path: the flags and the columns, rows by
-- number, by path and one after the other, their values, and that no row has children or a parent.
-- For an iterator that is not found it is the result that counts; the value is that of one of the
-- first four columns.
pub record IsListModel (i : GtkTreeModelIface) (m : ModelGslist) : Type 0 where
  pub flags : i.get_flags m ≡ gtk_tree_model_list_only ∷ gtk_tree_model_iters_persist ∷ []
  pub n_columns : i.get_n_columns m ≡ m.getnumbercolumns
  pub column_type : (c : ℤ) → i.get_column_type m c ≡ m.gettypes c
  pub n_children : i.iter_n_children m none ≡ length m.list
  pub nth_child :
      (n : ℕ) (iter : GtkTreeIter)
      → n < length m.list
      → (it : GtkTreeIter) × (i.iter_nth_child m iter none (pos n) ≡ (true, it)) × At m n it
  pub no_child :
      (n : ℕ) (iter : GtkTreeIter)
      → length m.list ≤ n
      → (i.iter_nth_child m iter none (pos n)).0 ≡ false
  pub iter_at :
      (n : ℕ) (iter : GtkTreeIter)
      → n < length m.list
      → (it : GtkTreeIter) × (i.get_iter m iter (pos n ∷ []) ≡ ok (true, it)) × At m n it
  pub no_iter :
      (n : ℕ) (iter : GtkTreeIter)
      → length m.list ≤ n
      → (it : GtkTreeIter) × (i.get_iter m iter (pos n ∷ []) ≡ ok (false, it))
  pub first :
      (iter : GtkTreeIter)
      → 0 < length m.list
      → (it : GtkTreeIter) × (i.iter_children m iter none ≡ (true, it)) × At m 0 it
  pub no_first : (iter : GtkTreeIter) → length m.list ≡ 0 → (i.iter_children m iter none).0 ≡ false
  pub next :
      (n : ℕ) (iter : GtkTreeIter)
      → At m n iter
      → suc n < length m.list
      → (it : GtkTreeIter) × (i.iter_next m iter ≡ (true, it)) × At m (suc n) it
  pub last :
      (n : ℕ) (iter : GtkTreeIter)
      → At m n iter
      → suc n ≡ length m.list
      → (i.iter_next m iter).0 ≡ false
  pub value :
      (n c : ℕ) (iter : GtkTreeIter)
      → At m n iter
      → c ≤ 3
      → (p : Gpointer) × (get_elem? m.list n ≡ some p)
        × (i.get_value m iter (pos c) unset ≡ string (m.getcolumn (pos c) p))
  pub flat :
      (n : ℤ) (iter row : GtkTreeIter)
      → (i.iter_n_children m (some row) ≡ 0)
        × (i.iter_has_child m row ≡ false)
        × ((i.iter_children m iter (some row)).0 ≡ false)
        × ((i.iter_nth_child m iter (some row) n).0 ≡ false)
        × (i.iter_parent m iter row ≡ false)

drop_at :
    (l : List Gpointer) (n : ℕ)
    → n < length l
    → (p : Gpointer) × (drop n l ≡ p ∷ drop (suc n) l) × (get_elem? l n ≡ some p)
drop_at [] n h = absurd (omega arith)
drop_at (p ∷ l) zero h = (p, refl, refl)
drop_at (p ∷ l) (suc n) h = drop_at l n (omega arith)

drop_past : (l : List Gpointer) (n : ℕ) → length l ≤ n → drop n l ≡ []
drop_past [] zero h = refl
drop_past [] (suc n) h = refl
drop_past (p ∷ l) zero h = absurd (omega arith)
drop_past (p ∷ l) (suc n) h = drop_past l n (omega arith)

iter_next-some :
    (m : ModelGslist) (iter : GtkTreeIter) (p q : Gpointer) (l : List Gpointer)
    → iter.user_data ≡ p ∷ q ∷ l
    → model_gslist_iter_next m iter ≡ (true, record iter { stamp = m.stamp; user_data = q ∷ l })
unfolding model_gslist_iter_next
iter_next-some m iter p q l e = rw e refl

iter_next-none :
    (m : ModelGslist) (iter : GtkTreeIter) (p : Gpointer)
    → iter.user_data ≡ p ∷ []
    → model_gslist_iter_next m iter ≡ (false, iter)
unfolding model_gslist_iter_next
iter_next-none m iter p e = rw e refl

get_value-some :
    (m : ModelGslist) (iter : GtkTreeIter) (p : Gpointer) (l : List Gpointer) (c : ℕ)
    → iter.user_data ≡ p ∷ l
    → c ≤ 3
    → model_gslist_get_value m iter (pos c) unset ≡ string (m.getcolumn (pos c) p)
unfolding model_gslist_get_value
get_value-some m iter p l c e h = rw (le→leb c 3 h, e) refl

iter_children-first :
    (m : ModelGslist) (iter : GtkTreeIter)
    → 0 < length m.list
    → model_gslist_iter_children m iter none
      ≡ (true, record iter { stamp = m.stamp; user_data = m.list })
unfolding model_gslist_iter_children
iter_children-first m iter h = let (p, front, e) = drop_at m.list 0 h in rw front refl

iter_children-none :
    (m : ModelGslist) (iter : GtkTreeIter)
    → length m.list ≡ 0
    → model_gslist_iter_children m iter none ≡ (false, iter)
unfolding model_gslist_iter_children
iter_children-none m iter h = rw (drop_past m.list 0 (omega arith)) refl

module _ ⦃g : Slist⦄ where
  -- Every function of the interface but get_path answers as GTK documents for a list, whose rows
  -- are those of the GSList: the flags, the number and the types of the columns, the rows by
  -- number, by path and one after the other, the values of the first four columns, and that no row
  -- has children or a parent. What a function leaves in the iterator when it answers FALSE, which
  -- GTK wants to be invalid, is not part of this.
  pub model_gslist_tree_model_init-IsListModel :
      (m : ModelGslist) → IsListModel model_gslist_tree_model_init m
  unfolding model_gslist_tree_model_init model_gslist_iter_n_children model_gslist_iter_nth_child
      model_gslist_get_iter model_gslist_iter_children model_gslist_iter_has_child
      model_gslist_iter_parent model_gslist_get_flags model_gslist_get_n_columns
      model_gslist_get_column_type
  model_gslist_tree_model_init-IsListModel m = record {
    flags = refl;
    n_columns = refl;
    column_type = λ c. refl;
    n_children = g.len_lem m.list;
    nth_child = λ n iter h. (
      record iter { stamp = m.stamp; user_data = g.nth m.list n },
      rw (g.len_lem m.list, lt→leb (length m.list) n h) refl,
      record { inside = h; node = g.nth_lem m.list n },
    );
    no_child = λ n iter h. rw (g.len_lem m.list, le→leb (length m.list) n h) refl;
    iter_at = λ n iter h. (
      record { stamp = m.stamp; user_data = g.nth m.list n; user_data2 = null; user_data3 = null },
      rw (g.len_lem m.list, lt→leb (length m.list) n h) refl,
      record { inside = h; node = g.nth_lem m.list n },
    );
    no_iter = λ n iter h. (iter, rw (g.len_lem m.list, le→leb (length m.list) n h) refl);
    first = λ iter h. (_, iter_children-first m iter h, record { inside = h; node = refl });
    no_first = λ iter h. ap (λ (p : Bool × GtkTreeIter). p.0) (iter_children-none m iter h);
    next = λ n iter at h.
        let (p, here, same) = drop_at m.list n at.inside in
        let (q, after, same') = drop_at m.list (suc n) h in
        (
          _,
          iter_next-some m iter p q _ (at.node ∙ here ∙ ap (λ l. p ∷ l) after),
          record { inside = h; node = sym after },
        );
    last = λ n iter at h.
        let (p, here, same) = drop_at m.list n at.inside in
        ap (λ (q : Bool × GtkTreeIter). q.0)
          (iter_next-none m iter p
            (at.node ∙ here ∙ ap (λ l. p ∷ l) (drop_past m.list (suc n) (omega arith))));
    value = λ n c iter at h.
        let (p, here, same) = drop_at m.list n at.inside in
        (p, same, get_value-some m iter p _ c (at.node ∙ here) h);
    flat = λ n iter row. (refl, refl, refl, refl, refl);
  }

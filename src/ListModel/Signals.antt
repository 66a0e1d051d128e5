-- ===== src/ListModel/Signals.antt =====
-- What the list model tells its views when a row goes or comes, pingu/model_gslist.c.
use misc_uni_stuff.Base.{
  ℕ, suc, ◌≡◌, ◌<◌, refl, ap, arith, List, [], ◌∷◌, ◌++◌, false, lt→leb, some, pos, ok, length,
  drop, take, get_elem?, length-append, Bool-cases, inl, inr,
}
use misc_uni_stuff.Glib.{Slist, Gpointer, null, same_pointer, g_slist_append}
use misc_uni_stuff.Net.Pointers.{count, same_pointer→eq}
use misc_uni_stuff.ListModel.{
  ModelGslist, GtkTreeIter, row_inserted, row_deleted, model_gslist_get_iter,
  model_gslist_delete_record, model_gslist_new_record,
}

module _ ⦃g : Slist⦄ where
  -- A position where `item` stands, and the list without it.
  record Position (l : List Gpointer) (item : Gpointer) : Type 0 where
    at : ℕ
    index : g.index l item ≡ pos at
    there : get_elem? l at ≡ some item
    rest : g.remove l item ≡ take at l ++ drop (suc at) l

  position : (l : List Gpointer) (item : Gpointer) → 0 < count item l → Position l item
  position [] item h = absurd (omega arith)
  position (q ∷ l) item h = elim (Bool-cases (same_pointer q item)) [
    | inl e ↦ record {
      at = 0;
      index = rw (g.index-cons q l item, e) refl;
      there = ap some (same_pointer→eq q item e);
      rest = rw (g.remove-cons q l item, e) refl;
    }
    | inr e ↦
        let p = position l item (later e) in
        record {
          at = suc p.at;
          index = rw (g.index-cons q l item, e, p.index) (ap pos (omega arith));
          there = p.there;
          rest = rw (g.remove-cons q l item, e, p.rest) refl;
        }
  ]
    where
      later : same_pointer q item ≡ false → 0 < count item l
      later e = ground arith

  -- Deleting a pointer that is in the list takes out one row that holds it, keeps the others in
  -- order, and tells the views the number of this row.
  pub model_gslist_delete_record-row :
      (m : ModelGslist) (item : Gpointer)
      → 0 < count item m.list
      → (n : ℕ) × (model_gslist_delete_record m item ≡ record m {
        list = take n m.list ++ drop (suc n) m.list;
        signals = m.signals ++ row_deleted (pos n ∷ []) ∷ [];
      })
        × (get_elem? m.list n ≡ some item)
  unfolding model_gslist_delete_record
  model_gslist_delete_record-row m item h =
      let p = position m.list item h in (p.at, rw (p.index, p.rest) refl, p.there)

  last-row :
      (l : List Gpointer) (item : Gpointer) → get_elem? (l ++ item ∷ []) (length l) ≡ some item
  last-row [] item = refl
  last-row (q ∷ l) item = last-row l item

  -- A pointer that the callers append becomes the last row, but the views are told that the row
  -- with number 0 came, and are given an iterator to the first row.
  pub model_gslist_new_record-row :
      (m : ModelGslist) (item : Gpointer) (iter : GtkTreeIter)
      → (it : GtkTreeIter) × (model_gslist_new_record m (g_slist_append m.list item) iter
          ≡ ok (record m {
            list = m.list ++ item ∷ [];
            signals = m.signals ++ row_inserted (pos 0 ∷ []) it ∷ [];
          }))
        × (it.user_data ≡ m.list ++ item ∷ [])
        × (get_elem? (m.list ++ item ∷ []) (length m.list) ≡ some item)
  unfolding model_gslist_new_record model_gslist_get_iter
  model_gslist_new_record-row m item iter =
      let l = m.list ++ item ∷ [] in
      let some_rows = lt→leb (length l) 0 (omega (arith, length-append m.list (item ∷ []))) in
      (
        record { stamp = m.stamp; user_data = l; user_data2 = null; user_data3 = null },
        rw (g.append_lem m.list item, g.len_lem l, some_rows, g.nth_lem l 0) refl,
        refl,
        last-row m.list item,
      )

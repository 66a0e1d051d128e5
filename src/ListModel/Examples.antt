-- ===== src/ListModel/Examples.antt =====
-- A list model of three rows.
use misc_uni_stuff.Base.{
  ◌≡◌, refl, arith, [], ◌∷◌, ◌++◌, none, some, pos, negsuc, true, ok, get_elem?,
}
use misc_uni_stuff.Glib.{null, block, list_slist, g_slist_append}
use misc_uni_stuff.ListModel.{
  ModelGslist, GtkTreeIter, g_type_string, row_inserted, model_gslist_get_iter,
  model_gslist_get_path, model_gslist_iter_nth_child, model_gslist_iter_n_children,
  model_gslist_new_record,
}
use misc_uni_stuff.ListModel.Walk.{row, rows, rows-n_children, get_path-get_iter}
use misc_uni_stuff.ListModel.Interface.{
  IsListModel, model_gslist_tree_model_init, model_gslist_tree_model_init-IsListModel,
}
use misc_uni_stuff.ListModel.Signals.{model_gslist_new_record-row}

abbrev three : ModelGslist
three = record {
  list = block 4 ∷ block 5 ∷ block 6 ∷ [];
  getcolumn = λ column p. [];
  getnumbercolumns = 4;
  gettypes = λ column. g_type_string;
  stamp = 77;
  signals = [];
}

abbrev garbage : GtkTreeIter
garbage = record { stamp = 0; user_data = []; user_data2 = null; user_data3 = null }

rows-n_children_example :
    rows (model_gslist_iter_n_children three none) three garbage ≡ block 4 ∷ block 5 ∷ block 6 ∷ []
rows-n_children_example = rows-n_children three garbage

get_path-get_iter_example :
    (it : GtkTreeIter) × (model_gslist_get_iter three garbage (pos 2 ∷ []) ≡ ok (true, it))
    × (model_gslist_iter_nth_child three garbage none (pos 2)
        ≡ (true, record garbage { stamp = 77; user_data = it.user_data }))
    × (row it ≡ some (block 6))
    × (model_gslist_get_path three it ≡ some (negsuc 0 ∷ []))
get_path-get_iter_example = get_path-get_iter three garbage 2 (omega arith) refl

model_gslist_new_record-row_example :
    (it : GtkTreeIter) × (model_gslist_new_record three
        (g_slist_append three.list (block 7))
        garbage
      ≡ ok (record three {
        list = three.list ++ block 7 ∷ [];
        signals = row_inserted (pos 0 ∷ []) it ∷ [];
      }))
    × (it.user_data ≡ three.list ++ block 7 ∷ [])
    × (get_elem? (three.list ++ block 7 ∷ []) 3 ≡ some (block 7))
model_gslist_new_record-row_example = model_gslist_new_record-row three (block 7) garbage

model_gslist_tree_model_init-IsListModel_example : IsListModel model_gslist_tree_model_init three
model_gslist_tree_model_init-IsListModel_example = model_gslist_tree_model_init-IsListModel three

-- ===== src/ListModel.antt =====
-- pingu/model_gslist.c and model_gslist.h: a GSList as the rows of a window. An iterator points to
-- a node, so it holds the rest of the list from there on. GTK is what calls these functions; it
-- never passes NULL for the iterator, and the model is always one, so the checks for that always
-- pass.
pub mod Walk
pub mod Signals
pub mod Interface
pub mod Gobject
mod Examples
use misc_uni_stuff.Base.{
  ℕ, ◌+◌, List, [], ◌∷◌, ◌++◌, Bool, true, false, leb, if◌then◌else◌, Option, none, some, ℤ, pos,
  negsuc, Result, ok, fault, assertion_failed, ◌>>=◌,
}
use misc_uni_stuff.Glib.{
  Slist, Gpointer, null, list_node, g_slist_remove, g_slist_length, g_slist_nth, g_slist_index,
}

-- What GTK is told: the path of a row that came, with its iterator, or that went.
pub record GtkTreeIter : Type 0 where
  pub stamp : ℕ
  pub user_data : List Gpointer
  pub user_data2 : Gpointer
  pub user_data3 : Gpointer

pub data Signal : Type 0 where
  row_inserted : List ℤ → GtkTreeIter → Signal
  row_deleted : List ℤ → Signal

-- The type of a column: the windows have strings only.
pub data GType : Type 0 where
  g_type_string : GType

pub data GtkTreeModelFlags : Type 0 where
  gtk_tree_model_list_only gtk_tree_model_iters_persist : GtkTreeModelFlags

-- The callbacks give the text of a column, the number of columns and the type of each. `signals`
-- logs what was emitted.
pub record ModelGslist : Type 0 where
  pub list : List Gpointer
  pub getcolumn : ℤ → Gpointer → List ℕ
  pub getnumbercolumns : ℕ
  pub gettypes : ℤ → GType
  pub stamp : ℕ
  pub signals : List Signal

-- A GValue: before and after g_value_init, and with its string.
pub data GValue : Type 0 where
  unset no_string : GValue
  string : List ℕ → GValue

-- `random` is the stamp that the initialiser of the class drew.
unfoldable pub model_gslist_new : (ℤ → Gpointer → List ℕ) → ℕ → (ℤ → GType) → ℕ → ModelGslist
model_gslist_new cols nocols types random = record {
  list = [];
  getcolumn = cols;
  getnumbercolumns = nocols;
  gettypes = types;
  stamp = random;
  signals = [];
}

pub model_gslist_get_n_columns : ModelGslist → ℕ
model_gslist_get_n_columns m = m.getnumbercolumns

pub model_gslist_get_column_type : ModelGslist → ℤ → GType
model_gslist_get_column_type m index = m.gettypes index

-- The flags that are set.
pub model_gslist_get_flags : ModelGslist → List GtkTreeModelFlags
model_gslist_get_flags m = gtk_tree_model_list_only ∷ gtk_tree_model_iters_persist ∷ []

pub model_gslist_get_list : ModelGslist → List Gpointer
model_gslist_get_list m = m.list

pub model_gslist_get : GtkTreeIter → List Gpointer
model_gslist_get iter = iter.user_data

-- `column <= 3`.
abbrev is_column : ℤ → Bool
is_column (pos n) = leb n 3
is_column (negsuc n) = true

pub model_gslist_get_value : ModelGslist → GtkTreeIter → ℤ → GValue → GValue
model_gslist_get_value m iter column value =
    if is_column column
    then elim iter.user_data [ [] ↦ no_string | p ∷ rest ↦ string (m.getcolumn column p) ]
    else value

pub model_gslist_iter_next : ModelGslist → GtkTreeIter → Bool × GtkTreeIter
model_gslist_iter_next m iter = elim iter.user_data [
  | [] ↦ (false, iter)
  | p ∷ rest ↦ elim rest [
    | [] ↦ (false, iter)
    | q ∷ l ↦ (true, record iter { stamp = m.stamp; user_data = q ∷ l })
  ]
]

-- A row has no children; NULL as the parent stands for the top.
pub model_gslist_iter_children : ModelGslist → GtkTreeIter → Option GtkTreeIter → Bool × GtkTreeIter
model_gslist_iter_children m iter (some parent) = (false, iter)
model_gslist_iter_children m iter none = elim m.list [
  | [] ↦ (false, iter)
  | p ∷ rest ↦ (true, record iter { stamp = m.stamp; user_data = m.list })
]

pub model_gslist_iter_has_child : ModelGslist → GtkTreeIter → Bool
model_gslist_iter_has_child m iter = false

pub model_gslist_iter_parent : ModelGslist → GtkTreeIter → GtkTreeIter → Bool
model_gslist_iter_parent m iter child = false

module _ ⦃g : Slist⦄ where
  -- The lengths are unsigned, so that a negative number is past the end.
  abbrev past_end : ModelGslist → ℤ → Bool
  past_end m (pos n) = leb (g_slist_length m.list) n
  past_end m (negsuc n) = true

  abbrev to_node : ModelGslist → ℤ → List Gpointer
  to_node m (pos n) = g_slist_nth m.list n
  to_node m (negsuc n) = []

  -- A path is the list of its indices.
  pub model_gslist_get_iter : ModelGslist → GtkTreeIter → List ℤ → Result (Bool × GtkTreeIter)
  model_gslist_get_iter m iter [] = fault assertion_failed
  model_gslist_get_iter m iter (n ∷ []) = ok (
      if past_end m n then (false, iter) else (
        true,
        record { stamp = m.stamp; user_data = to_node m n; user_data2 = null; user_data3 = null },
      ))
  model_gslist_get_iter m iter (n ∷ k ∷ rest) = fault assertion_failed

  -- The node itself is looked for among the data of the list.
  pub model_gslist_get_path : ModelGslist → GtkTreeIter → Option (List ℤ)
  model_gslist_get_path m iter = elim iter.user_data [
    | [] ↦ none
    | p ∷ rest ↦ some (g_slist_index m.list list_node ∷ [])
  ]

  pub model_gslist_iter_n_children : ModelGslist → Option GtkTreeIter → ℕ
  model_gslist_iter_n_children m none = g_slist_length m.list
  model_gslist_iter_n_children m (some iter) = 0

  pub model_gslist_iter_nth_child :
      ModelGslist → GtkTreeIter → Option GtkTreeIter → ℤ → Bool × GtkTreeIter
  model_gslist_iter_nth_child m iter (some parent) n = (false, iter)
  model_gslist_iter_nth_child m iter none n =
      if past_end m n
      then (false, iter)
      else (true, record iter { stamp = m.stamp; user_data = to_node m n })

  pub model_gslist_delete_record : ModelGslist → Gpointer → ModelGslist
  model_gslist_delete_record m item = record m {
    list = g_slist_remove m.list item;
    signals = m.signals ++ row_deleted (g_slist_index m.list item ∷ []) ∷ [];
  }

  -- `iter` is what stood in the variable; it is emitted as it is where the list is empty.
  pub model_gslist_new_record : ModelGslist → List Gpointer → GtkTreeIter → Result ModelGslist
  model_gslist_new_record m list iter = do
    let m' : ModelGslist = record m { list = list }
    found ← model_gslist_get_iter m' iter (pos 0 ∷ [])
    ok (record m' { signals = m.signals ++ row_inserted (pos 0 ∷ []) found.1 ∷ [] })

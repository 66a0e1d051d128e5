-- ===== src/Window/Examples.antt =====
-- Two searches, and the close button of the first.
use misc_uni_stuff.Base.{ℕ, ◌≡◌, refl, List, [], ◌∷◌, true, false, some}
use misc_uni_stuff.Glib.{list_slist}
use misc_uni_stuff.Request.{Handler, compare_func, request_ontimeout, request_get}
use misc_uni_stuff.Request.Model.{Sorted, sorted_tree}
use misc_uni_stuff.Request.Ending.{ended_at}
use misc_uni_stuff.Window.{Window, filename_search_begin, filename_search_close}
use misc_uni_stuff.Window.Model.{list_notebook}
use misc_uni_stuff.Window.Closing.{two_searches, filename_search_close-pages}

-- The first search has request 1, the block 8 and the widgets 20 and 21.
abbrev table : Handler Sorted
table = record {
  tree = sorted_tree.insert sorted_tree.create 1 8;
  cell = λ k. record {
    starttime = 30;
    timeout = request_ontimeout;
    model = 0;
    widget = 21;
    active = true;
    timedout = false;
    reqno = 1;
  };
  freed = λ k. false;
  bad_accesses = [];
  calls = [];
}

abbrev servers_only : Window (List ℕ)
servers_only = record { notebook = 10 ∷ []; text = λ k. [] }

abbrev both : Window (List ℕ)
both = two_searches (97 ∷ []) 20 21 (98 ∷ []) 30 31 servers_only

table_has : request_get table 1 ≡ some 8
unfolding request_get compare_func
table_has = refl

filename_search_close-pages_example :
    ((filename_search_close 1 (table, both)).0 ≡ ended_at 8 table)
    × ((filename_search_close 1 (table, both)).1.notebook ≡ 10 ∷ 20 ∷ [])
unfolding filename_search_begin
filename_search_close-pages_example =
    filename_search_close-pages (97 ∷ []) 20 21 (98 ∷ []) 30 31 servers_only table 1 8 table_has
      refl refl refl

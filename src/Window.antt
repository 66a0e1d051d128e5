-- ===== src/Window.antt =====
-- The searches in the window: filename_search_begin, filename_search_close and
-- gui_set_searchtimeout of pingu/gui.c, and filesearch_unallocate_request and request_ontimeout of
-- pingu/filesearch.c. Widgets are numbers; of the window only the pages of its notebook and the
-- texts of the labels are kept.
pub mod Closing
pub mod Model
mod Examples
use misc_uni_stuff.Base.{
  ℕ, suc, zero, ◌+◌, ◌≡◌, List, [], ◌∷◌, ◌++◌, Bool, ◌==◌, if◌then◌else◌, Option, none, some, ℤ,
  pos, negsuc,
}
use misc_uni_stuff.Glib.{Slist, Gtree, one_more}
use misc_uni_stuff.Request.{Handler, Request, compare_func, update, request_end, request_get}

-- Where a page stands, -1 for a widget that is no page.
abbrev pub position : List ℕ → ℕ → ℤ
position [] widget = negsuc 0
position (p ∷ pages) widget = if p == widget then pos 0 else one_more (position pages widget)

abbrev pub without_last : List ℕ → List ℕ
without_last [] = []
without_last (p ∷ []) = []
without_last (p ∷ q ∷ pages) = p ∷ without_last (q ∷ pages)

abbrev without_nth : ℕ → List ℕ → List ℕ
without_nth n [] = []
without_nth zero (p ∷ pages) = pages
without_nth (suc n) (p ∷ pages) = p ∷ without_nth n pages

-- The page with a number; a negative one stands for the last page.
abbrev pub without : ℤ → List ℕ → List ℕ
without (pos n) pages = without_nth n pages
without (negsuc n) pages = without_last pages

-- GTK's notebook.
pub record Notebook : Type 1 where
  pub Book : Type 0
  pub pages : Book → List ℕ
  pub append_page : Book → ℕ → Book
  pub page_num : Book → ℕ → ℤ
  pub remove_page : Book → ℤ → Book
  pub pages-append_page : (b : Book) (page : ℕ) → pages (append_page b page) ≡ pages b ++ page ∷ []
  pub page_num_lem : (b : Book) (widget : ℕ) → page_num b widget ≡ position (pages b) widget
  pub pages-remove_page : (b : Book) (n : ℤ) → pages (remove_page b n) ≡ without n (pages b)

pub record Window (B : Type 0) : Type 0 where
  pub notebook : B
  pub text : ℕ → List ℕ

-- "Searching for " and "Finished "
abbrev pub searching_for : List ℕ
searching_for = 83 ∷ 101 ∷ 97 ∷ 114 ∷ 99 ∷ 104 ∷ 105 ∷ 110 ∷ 103 ∷ 32 ∷ 102 ∷ 111 ∷ 114 ∷ 32 ∷ []

abbrev pub finished : List ℕ
finished = 70 ∷ 105 ∷ 110 ∷ 105 ∷ 115 ∷ 104 ∷ 101 ∷ 100 ∷ 32 ∷ []

pub gui_set_searchtimeout : {B : Type 0} → ℕ → Window B → Window B
gui_set_searchtimeout widget w = record w {
  text = update w.text widget (finished ++ w.text widget);
}

pub request_ontimeout_call : {B : Type 0} → Request → Window B → Window B
unfolding gui_set_searchtimeout
request_ontimeout_call req w = gui_set_searchtimeout req.widget w

module _ ⦃n : Notebook⦄ where
  -- `box` and `label_ret` are the new widgets; the label is what is returned.
  pub filename_search_begin : List ℕ → ℕ → ℕ → Window n.Book → Window n.Book × ℕ
  filename_search_begin filename box label_ret w = (
    record {
      notebook = n.append_page w.notebook box;
      text = update w.text label_ret (searching_for ++ filename);
    },
    label_ret,
  )

  pub filename_search_close_freewidgets : ℕ → Window n.Book → Window n.Book
  filename_search_close_freewidgets widget w = record w {
    notebook = n.remove_page w.notebook (n.page_num w.notebook widget);
  }

  module _ ⦃g : Slist⦄ ⦃t : Gtree compare_func⦄ where
    pub filesearch_unallocate_request :
        ℕ → Handler t.Tree × Window n.Book → Handler t.Tree × Window n.Book
    unfolding filename_search_close_freewidgets
    filesearch_unallocate_request req s =
        let requests = request_end s.0 req in
        elim (request_get requests req) [
          | none ↦ (requests, s.1)
          | some r ↦ (requests, filename_search_close_freewidgets (requests.cell r).widget s.1)
        ]

    -- The callback of the close button.
    pub filename_search_close : ℕ → Handler t.Tree × Window n.Book → Handler t.Tree × Window n.Book
    unfolding filesearch_unallocate_request
    filename_search_close req s = filesearch_unallocate_request req s

-- ===== src/Window/Model.antt =====
-- A notebook that meets the laws of Notebook: the list of its pages.
use misc_uni_stuff.Base.{ℕ, refl, List, [], ◌∷◌, ◌++◌}
use misc_uni_stuff.Window.{Notebook, position, without}

instance abbrev pub list_notebook : Notebook
list_notebook = record {
  Book = List ℕ;
  pages = λ b. b;
  append_page = λ b page. b ++ page ∷ [];
  page_num = position;
  remove_page = λ b n. without n b;
  pages-append_page = λ b page. refl;
  page_num_lem = λ b widget. refl;
  pages-remove_page = λ b n. refl;
}

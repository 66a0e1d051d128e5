-- ===== src/Window/Closing.antt =====
-- Closing a search, pingu/gui.c and pingu/filesearch.c.
use misc_uni_stuff.Base.{
  ℕ, Option-cases, inl, inr, ◌≡◌, refl, ap, ◌∙◌, arith, List, [], ◌∷◌, ◌++◌, false, ==_iff, some,
  negsuc,
}
use misc_uni_stuff.Glib.{Slist, Gtree}
use misc_uni_stuff.Request.{request_end, Handler, compare_func, request_get}
use misc_uni_stuff.Request.Ending.{ended_at, request_end-some}
use misc_uni_stuff.Window.{
  Window, Notebook, position, without, without_last, filename_search_begin,
  filename_search_close_freewidgets, filesearch_unallocate_request, filename_search_close,
}

without_last-append : (l : List ℕ) (p : ℕ) → without_last (l ++ p ∷ []) ≡ l
without_last-append [] p = refl
without_last-append (q ∷ []) p = refl
without_last-append (q ∷ r ∷ l) p = ap (λ x. q ∷ x) (without_last-append (r ∷ l) p)

module _ ⦃n : Notebook⦄ where
  freewidgets-pages :
      (widget : ℕ) (w : Window n.Book)
      → position (n.pages w.notebook) widget ≡ negsuc 0
      → n.pages (filename_search_close_freewidgets widget w).notebook
        ≡ without_last (n.pages w.notebook)
  unfolding filename_search_close_freewidgets
  freewidgets-pages widget w e =
      n.pages-remove_page w.notebook (n.page_num w.notebook widget)
      ∙ ap (λ k. without k (n.pages w.notebook)) (n.page_num_lem w.notebook widget ∙ e)

  module _ ⦃g : Slist⦄ ⦃t : Gtree compare_func⦄ where
    -- The window that two searches leave, one after the other.
    abbrev pub two_searches : List ℕ → ℕ → ℕ → List ℕ → ℕ → ℕ → Window n.Book → Window n.Book
    two_searches text box label text' box' label' w =
        (filename_search_begin text' box' label' (filename_search_begin text box label w).0).0

    two_searches-pages :
        (text : List ℕ) (box label : ℕ) (text' : List ℕ) (box' label' : ℕ) (w : Window n.Book)
        → n.pages (two_searches text box label text' box' label' w).notebook
          ≡ (n.pages w.notebook ++ box ∷ []) ++ box' ∷ []
    unfolding filename_search_begin
    two_searches-pages text box label text' box' label' w =
        n.pages-append_page (n.append_page w.notebook box) box'
        ∙ ap (λ l. l ++ box' ∷ []) (n.pages-append_page w.notebook box)

    pub filename_search_close-requests :
        (req : ℕ) (s : Handler t.Tree) (w : Window n.Book)
        → (filename_search_close req (s, w)).0 ≡ request_end s req
    unfolding filename_search_close filesearch_unallocate_request
    filename_search_close-requests req s w =
        elim (Option-cases (request_get (request_end s req) req)) [
          | inl e ↦ rw (filename_search_close, filesearch_unallocate_request, e) refl
          | inr (k, e) ↦ rw (filename_search_close, filesearch_unallocate_request, e) refl
        ]

    tree_lookup :
        (s : Handler t.Tree) (req k : ℕ) → request_get (ended_at k s) req ≡ request_get s req
    unfolding request_get
    tree_lookup s req k = refl

    filename_search_close-found :
        (s : Handler t.Tree) (u : Window n.Book) (req k : ℕ)
        → request_get s req ≡ some k
        → s.freed k ≡ false
        → filename_search_close req (s, u)
          ≡ (ended_at k s, filename_search_close_freewidgets ((ended_at k s).cell k).widget u)
    unfolding filename_search_close filesearch_unallocate_request
    filename_search_close-found s u req k e alive =
        let still = tree_lookup s req k in
        let ended = request_end-some s req k e alive in
        rw (filename_search_close, filesearch_unallocate_request, ended, still, e)
          (ap (λ x. (x, filename_search_close_freewidgets (x.cell k).widget u)) ended)

    -- Where two searches were opened last, and the first has its request in the table, not freed,
    -- with the label that filename_search_begin returned, which is no page: the close button of
    -- the first search ends its request, but takes the page of the second away, and its own page
    -- stays.
    pub filename_search_close-pages :
        (text : List ℕ) (box label : ℕ) (text' : List ℕ) (box' label' : ℕ) (w : Window n.Book)
        (s : Handler t.Tree) (req k : ℕ)
        → request_get s req ≡ some k
        → s.freed k ≡ false
        → (s.cell k).widget ≡ (filename_search_begin text box label w).1
        → position ((n.pages w.notebook ++ box ∷ []) ++ box' ∷ []) label ≡ negsuc 0
        → ((filename_search_close req (s, two_searches text box label text' box' label' w)).0
            ≡ ended_at k s)
          × (n.pages
                (filename_search_close req
                  (s, two_searches text box label text' box' label' w)).1.notebook
              ≡ n.pages w.notebook ++ box ∷ [])
    unfolding filename_search_begin
    filename_search_close-pages text box label text' box' label' w s req k e alive widget no_page =
        let u = two_searches text box label text' box' label' w in
        let pages = two_searches-pages text box label text' box' label' w in
        let kept : ((ended_at k s).cell k).widget ≡ label =
          ground (arith, (==_iff k k).1 refl, widget) in
        let gone = ap (λ l. position l label) pages ∙ no_page in
        let last =
          freewidgets-pages label u gone
          ∙ ap without_last pages
          ∙ without_last-append (n.pages w.notebook ++ box ∷ []) box' in
        rw (filename_search_close-found s u req k e alive, kept) (refl, last)

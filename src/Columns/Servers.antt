-- ===== src/Columns/Servers.antt =====
-- The window of the known servers: get_reply_column, get_reply_no_columns and the model that
-- make_servers_window makes, of pingu/gui.c.
use misc_uni_stuff.Base.{
  ℕ, ◌≡◌, ◌<◌, sym, ap, ◌∙◌, arith, List, [], ◌∷◌, true, ◌==◌, if◌then◌else◌, some, ℤ, pos, negsuc,
  length, get_elem?, ok,
}
use misc_uni_stuff.Host.{Host, store32}
use misc_uni_stuff.Glib.{Slist, Gpointer}
use misc_uni_stuff.Net.{Net, Servlet, deref}
use misc_uni_stuff.Net.Invariant.{IsNet}
use misc_uni_stuff.ListModel.{
  ModelGslist, GtkTreeIter, GType, g_type_string, unset, string, model_gslist_new,
  model_gslist_get_iter, model_gslist_get_value,
}
use misc_uni_stuff.ListModel.Interface.{
  model_gslist_tree_model_init, model_gslist_tree_model_init-IsListModel,
}
use misc_uni_stuff.Columns.{bar, fillin_host_string}
use misc_uni_stuff.Columns.Decimal.{numbers}
use misc_uni_stuff.Columns.Address.{inet_ntop_fits, numbers-address}

pub get_reply_no_columns : ℕ
get_reply_no_columns = 1

pub get_reply_column_type : ℤ → GType
get_reply_column_type column = g_type_string

module _ ⦃h : Host⦄ where
  -- `gee` is what the array on the stack holds.
  pub get_reply_column : List ℕ → ℤ → Servlet → List ℕ
  unfolding fillin_host_string
  get_reply_column gee (negsuc n) k = bar
  get_reply_column gee (pos n) k = if n == 0 then fillin_host_string gee 256 k else bar

  -- The model of the window: its callback looks through the pointers of a state, and its list is
  -- the one that the handlers have given it.
  pub servermodel : List ℕ → ℕ → Net → ModelGslist
  unfolding model_gslist_new
  servermodel gee random s =
      record (model_gslist_new (λ colno k. get_reply_column gee colno (deref s k))
        get_reply_no_columns get_reply_column_type random) { list = s.servermodel }

  server_text :
      (gee : List ℕ) (k : Servlet)
      → numbers 4 (get_reply_column gee (pos 0) k) ≡ store32 h.order k.client.s_addr
  unfolding get_reply_column
  server_text gee k =
      rw (inet_ntop_fits k.client.s_addr gee 256 (omega arith)) (numbers-address k.client.s_addr)

  module _ ⦃g : Slist⦄ where
    -- The window shows the known servers: while the table is well formed, the row of each number
    -- below the number of the known servers has in its column the text of the server at this place
    -- of the list, and the four numbers of the text are the bytes of its address in the order in
    -- which they stand in memory.
    pub get_value-servermodel :
        (gee : List ℕ) (random n : ℕ) (s : Net) (iter : GtkTreeIter)
        → IsNet s
        → n < length s.sockets
        → (it : GtkTreeIter) × (p : Gpointer) × (text : List ℕ) × (model_gslist_get_iter
              (servermodel gee random s)
              iter
              (pos n ∷ [])
            ≡ ok (true, it))
          × (get_elem? s.sockets n ≡ some p)
          × (model_gslist_get_value (servermodel gee random s) it (pos 0) unset ≡ string text)
          × (numbers 4 text ≡ store32 h.order (deref s p).client.s_addr)
    unfolding servermodel model_gslist_tree_model_init
    get_value-servermodel gee random n s iter v inside =
        let model = servermodel gee random s in
        let spec = model_gslist_tree_model_init-IsListModel model in
        let few : n < length s.servermodel = rw v.sync inside in
        let (it, found, at) = spec.iter_at n iter few in
        let (p, same, shown) = spec.value n 0 it at (omega arith) in
        (
          it,
          p,
          get_reply_column gee (pos 0) (deref s p),
          found,
          ap (λ l. get_elem? l n) (sym v.sync) ∙ same,
          shown,
          server_text gee (deref s p),
        )

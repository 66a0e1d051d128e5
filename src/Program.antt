-- ===== src/Program.antt =====
-- The whole program: main, the callbacks of the window and the jobs of the threads, pingu/gui.c,
-- and the set-up of the socket, pingu/socket.c. The windows of GTK are numbers; what the user types
-- and the system answers are arguments.
pub mod Invariant
mod Examples
use misc_uni_stuff.Base.{
  ℕ, ◌+◌, ◌^◌, ◌<◌, ◌≡◌, ◌≢◌, List, [], ◌∷◌, ◌++◌, Bool, true, false, ◌==◌, Option, none, some,
  Result, drop, length, ok, fault, exited, guard, ◌>>=◌, ◌>>◌,
}
use misc_uni_stuff.Host.{Host, hton}
use misc_uni_stuff.Glib.{Slist, Gtree, Gpointer}
use misc_uni_stuff.Packet.{FullPacket}
use misc_uni_stuff.Net.{
  Net, af_inet, servlet_port, new_servlet_real, look_for_new_servers, do_connection, idle_pinger,
}
use misc_uni_stuff.Net.Reach.{start}
use misc_uni_stuff.Request.{
  Handler, OnTimeout, request_ontimeout, download_request_timeout, compare_func, request_init,
  request_get,
}
use misc_uni_stuff.Search.{Filedata, FiledataResponse, Glob, searchfile}
use misc_uni_stuff.Download.{get_reply_download_file}
use misc_uni_stuff.FileDb.{Node, Stat, Md5, FileDb, create_filenametomd5}
use misc_uni_stuff.Window.{
  Window, Notebook, request_ontimeout_call, filename_search_begin, filename_search_close,
}
use misc_uni_stuff.Dispatch.{World, Calls, with_net, apply_packet}

pub record Program (T B : Type 0) : Type 0 where
  pub world : World T
  pub lastupdate : ℕ
  pub window : Window B

module _ ⦃h : Host⦄ where
  -- `opened` is what socket returned, `reused` and `bound` whether setsockopt and bind succeed.
  pub do_listen : Option ℕ → Bool → Bool → ℕ → Net → Result Net
  do_listen none reused bound now s = fault exited
  do_listen (some fd) reused bound now s = do
    guard reused exited
    guard bound exited
    ok
        (new_servlet_real (record s { listening = fd })
          (record { sin_family = af_inet; sin_port = hton h.order servlet_port; s_addr = 0 }) now).0

  pub setup_sockets : ⦃g : Slist⦄ → Option ℕ → Bool → Bool → ℕ → Net → Result Net
  unfolding do_listen
  setup_sockets opened reused bound now s = do
    s' ← do_listen opened reused bound now s
    ok (look_for_new_servers s')

module _ ⦃g : Slist⦄ ⦃t : Gtree compare_func⦄ ⦃n : Notebook⦄ where
  -- The page of the search and the page of the servers are `vbox` and `view`, in the new notebook
  -- `empty`.
  pub main :
      ⦃h : Host⦄
      → ℕ
      → Handler t.Tree
      → n.Book
      → ℕ
      → ℕ
      → Option ℕ
      → Bool
      → Bool
      → ℕ
      → Result (Program t.Tree n.Book)
  unfolding setup_sockets
  main argc memory empty vbox view opened reused bound now = do
    guard (argc == 2) exited
    net ← setup_sockets opened reused bound now (start 0)
    ok (record {
      world = record {
        requests = request_init memory;
        models = λ model. [];
        transfers = record {
          net = net;
          download_pool = [];
          upload_pool = [];
          connected = [];
          created = [];
        };
        database = [];
      };
      lastupdate = 0;
      window = record {
        notebook = n.append_page (n.append_page empty vbox) view;
        text = λ widget. [];
      };
    })

  -- `req` and `model` are new blocks, `box` and `label_ret` new widgets.
  pub clicked_on_search :
      ⦃h : Host⦄
      → List ℕ
      → ℕ
      → ℕ
      → ℕ
      → ℕ
      → ℕ
      → ℕ
      → ℕ
      → Program t.Tree n.Book
      → Result (Program t.Tree n.Book)
  clicked_on_search m now req model box label_ret junk junk' s = do
    let w = s.world
    let (window, meek) = filename_search_begin m box label_ret s.window
    u ← searchfile m now req model meek junk junk' w.requests w.models w.transfers.net
    ok (record s {
      world = record (with_net w u.2) { requests = u.0; models = u.1 };
      window = window;
    })

  -- The row that is selected, if there is one.
  pub clicked_filesearch_download :
      ⦃h : Host⦄
      → Option FiledataResponse
      → ℕ
      → ℕ
      → Program t.Tree n.Book
      → Result (Program t.Tree n.Book)
  clicked_filesearch_download none now req s = ok s
  clicked_filesearch_download (some k) now req s = do
    let w = s.world
    u ← get_reply_download_file k now req w.requests w.transfers.net
    ok (record s { world = record (with_net w u.1) { requests = u.0 } })

  pub process_connect_window :
      ⦃h : Host⦄ → Option ℕ → ℕ → Program t.Tree n.Book → Result (Program t.Tree n.Book)
  process_connect_window resolved now s = do
    net ← do_connection s.world.transfers.net resolved now
    ok (record s { world = with_net s.world net })

  -- The close button of a search.
  pub clicked_close : ℕ → Program t.Tree n.Book → Program t.Tree n.Book
  clicked_close req s =
      let u = filename_search_close req (s.world.requests, s.window) in
      record s { world = record s.world { requests = u.0 }; window = u.1 }

  -- What the callbacks of a sweep do to the window, from the requests before it: request_ontimeout
  -- changes the label of its search, and download_request_timeout only prints.
  pub show_timeouts : Handler t.Tree → List (OnTimeout × ℕ) → Window n.Book → Window n.Book
  show_timeouts s [] w = w
  show_timeouts s ((request_ontimeout, reqno) ∷ calls) w =
      show_timeouts s calls
        (elim (request_get s reqno) [ none ↦ w | some k ↦ request_ontimeout_call (s.cell k) w ])
  show_timeouts s ((download_request_timeout, reqno) ∷ calls) w = show_timeouts s calls w

  -- A run of the job in the pool `build_md5`, with the callbacks that its sweep ran.
  pub build_md5 :
      ⦃m : Md5⦄
      → (List ℕ → Stat)
      → ℕ
      → List ℕ
      → Node
      → ℕ
      → Program t.Tree n.Book
      → Result (Program t.Tree n.Book)
  build_md5 junk mtime dir node curt s = do
    u ←
        create_filenametomd5 junk mtime dir node curt
          (record { lastupdate = s.lastupdate; filenametomd5 = s.world.database }, s.world.requests)
    ok (record s {
      world = record s.world { requests = u.1; database = u.0.filenametomd5 };
      lastupdate = u.0.lastupdate;
      window =
          show_timeouts s.world.requests (drop (length s.world.requests.calls) u.1.calls) s.window;
    })

  -- A run of the job of `p` in the pool `pingers`, when a thread has taken it.
  pub run_pinger :
      ⦃h : Host⦄
      → Gpointer
      → List Gpointer
      → ℕ
      → ℕ
      → Program t.Tree n.Book
      → Result (Program t.Tree n.Book)
  run_pinger p others f later s = do
    net ← idle_pinger p f later (record s.world.transfers.net { pingers = others })
    ok (record s { world = with_net s.world net })

  -- What happens to the program, in any order. A new request takes a block that no request in the
  -- table has, while one of the numbers 1 to 65535 is free.
  pub data Event ⦃h : Host⦄ ⦃o : Glob⦄ ⦃m : Md5⦄ (s : Program t.Tree n.Book)
      : Program t.Tree n.Book → Type 0 where
    receives :
        (c : Calls) (p : FullPacket) (w : World t.Tree)
        → apply_packet c p s.world ≡ ok w
        → Event s (record s { world = w })
    searches :
        {u : Program t.Tree n.Book} (text : List ℕ) (now req model box label_ret junk junk' i : ℕ)
        → ((j : ℕ) → request_get s.world.requests j ≢ some req)
        → 0 < i
        → i < 2 ^ 16
        → request_get s.world.requests i ≡ none
        → clicked_on_search text now req model box label_ret junk junk' s ≡ ok u
        → Event s u
    downloads :
        {u : Program t.Tree n.Book} (row : Option FiledataResponse) (now req i : ℕ)
        → ((j : ℕ) → request_get s.world.requests j ≢ some req)
        → 0 < i
        → i < 2 ^ 16
        → request_get s.world.requests i ≡ none
        → clicked_filesearch_download row now req s ≡ ok u
        → Event s u
    connects :
        {u : Program t.Tree n.Book} (resolved : Option ℕ) (now : ℕ)
        → process_connect_window resolved now s ≡ ok u
        → Event s u
    closes : (req : ℕ) → Event s (clicked_close req s)
    builds :
        {u : Program t.Tree n.Book} (junk : List ℕ → Stat) (mtime : ℕ) (dir : List ℕ) (node : Node)
        (curt : ℕ)
        → build_md5 junk mtime dir node curt s ≡ ok u
        → Event s u
    pings :
        {u : Program t.Tree n.Book} (before after : List Gpointer) (p : Gpointer) (f later : ℕ)
        → s.world.transfers.net.pingers ≡ before ++ p ∷ after
        → run_pinger p (before ++ after) f later s ≡ ok u
        → Event s u

  pub data Run ⦃h : Host⦄ ⦃o : Glob⦄ ⦃m : Md5⦄ (s : Program t.Tree n.Book)
      : Program t.Tree n.Book → Type 0 where
    here : Run s s
    next : {u w : Program t.Tree n.Book} → Run s u → Event u w → Run s w

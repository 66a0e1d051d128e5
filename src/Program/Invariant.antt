-- ===== src/Program/Invariant.antt =====
-- The invariant of the whole program, over main and whatever happens afterwards, pingu/gui.c.
use misc_uni_stuff.Base.{
  ℕ, ◌≡◌, refl, sym, subst, ◌++◌, Bool, ◌==◌, Option, none, some, ok, exited, guard, bind-ok,
  ok-injective,
}
use misc_uni_stuff.Host.{Host}
use misc_uni_stuff.Glib.{Slist, Gtree}
use misc_uni_stuff.Net.{Net, do_connection, idle_pinger}
use misc_uni_stuff.Net.Invariant.{IsNet, look_for_new_servers-IsNet}
use misc_uni_stuff.Net.Sending.{sent-IsNet, idle_pinger-IsNet}
use misc_uni_stuff.Net.Reach.{start, new_servlet_real-IsNet, do_connection-IsNet, taken-IsNetBut}
use misc_uni_stuff.Request.{Handler, compare_func}
use misc_uni_stuff.Request.Numbers.{IsHandler}
use misc_uni_stuff.Request.Invariant.{Step-IsHandler, request_init-IsHandler}
use misc_uni_stuff.Request.Invariant.Step.{ends, sweeps}
use misc_uni_stuff.Search.{Glob, searchfile}
use misc_uni_stuff.Search.Sending.{searchfile-IsHandler}
use misc_uni_stuff.Download.{get_reply_download_file}
use misc_uni_stuff.Download.Sending.{get_reply_download_file-IsHandler}
use misc_uni_stuff.FileDb.{Md5, FileDb, create_filenametomd5}
use misc_uni_stuff.FileDb.Sums.{HasSums, create_filenametomd5-HasSums}
use misc_uni_stuff.Window.{Notebook, filename_search_begin}
use misc_uni_stuff.Window.Closing.{filename_search_close-requests}
use misc_uni_stuff.Dispatch.Keeps.{apply_packet-Keeps}
use misc_uni_stuff.Program.{
  Program, do_listen, setup_sockets, main, clicked_on_search, clicked_filesearch_download,
  process_connect_window, clicked_close, build_md5, run_pinger, Event, Run,
}
use misc_uni_stuff.Program.Event.{receives, searches, downloads, connects, closes, builds, pings}
use misc_uni_stuff.Program.Run.{here, next}

module _ ⦃g : Slist⦄ ⦃t : Gtree compare_func⦄ ⦃n : Notebook⦄ where
  -- The table of servers and the table of requests are well formed, and each shared file has a sum
  -- of sixteen bytes.
  pub record IsProgram (s : Program t.Tree n.Book) : Type 0 where
    pub net : IsNet s.world.transfers.net
    pub requests : IsHandler s.world.requests
    pub sums : HasSums s.world.database

  module _ ⦃h : Host⦄ where
    do_listen-IsNet :
        (opened : Option ℕ) (reused bound : Bool) (now : ℕ) (u : Net)
        → do_listen opened reused bound now (start 0) ≡ ok u
        → IsNet u
    unfolding do_listen
    do_listen-IsNet none reused bound now u e = cc e
    do_listen-IsNet (some fd) reused bound now u e =
        let (a, set, e1) = bind-ok (guard reused exited) _ u e in
        let (b, done, e2) = bind-ok (guard bound exited) _ u e1 in
        let opened : Net = record (start 0) { listening = fd } in
        subst IsNet (ok-injective e2) (
          new_servlet_real-IsNet opened _ now
            (record { sync = refl; pinged = λ p. refl; sockets = tt; possible = tt }))

    main-IsProgram :
        (argc : ℕ) (memory : Handler t.Tree) (empty : n.Book) (vbox view : ℕ) (opened : Option ℕ)
        (reused bound : Bool) (now : ℕ) (s : Program t.Tree n.Book)
        → main argc memory empty vbox view opened reused bound now ≡ ok s
        → IsProgram s
    unfolding main setup_sockets
    main-IsProgram argc memory empty vbox view opened reused bound now s e =
        let (a, arguments, e1) = bind-ok (guard (argc == 2) exited) _ s e in
        let (net, set, e2) = bind-ok (setup_sockets opened reused bound now (start 0)) _ s e1 in
        let (u, listens, e3) = bind-ok (do_listen opened reused bound now (start 0)) _ net set in
        subst IsProgram (ok-injective e2) (record {
          net =
              subst IsNet (ok-injective e3)
                (look_for_new_servers-IsNet u (do_listen-IsNet opened reused bound now u listens));
          requests = request_init-IsHandler memory;
          sums = tt;
        })

    module _ ⦃o : Glob⦄ ⦃m : Md5⦄ where
      Event-IsProgram : {s x : Program t.Tree n.Book} → Event s x → IsProgram s → IsProgram x
      unfolding clicked_on_search clicked_filesearch_download process_connect_window clicked_close
          build_md5 run_pinger
      Event-IsProgram {s} (receives c p w e) v =
          let (requests, database, net) = apply_packet-Keeps c p s.world w e in
          record {
            net = net v.net;
            requests = subst IsHandler (sym requests) v.requests;
            sums = subst HasSums (sym database) v.sums;
          }
      Event-IsProgram {s} {x}
            (searches text now req model box label_ret junk junk' i new pos_i small free e) v =
          let w = s.world in
          let meek = (filename_search_begin text box label_ret s.window).1 in
          let (u, run, e') =
            bind-ok
              (searchfile text now req model meek junk junk' w.requests w.models w.transfers.net) _
              x e in
          let (requests, only) =
            searchfile-IsHandler text now req model meek junk junk' i w.requests w.models
              w.transfers.net u v.requests new pos_i small free run in
          subst IsProgram (ok-injective e') (record {
            net = sent-IsNet w.transfers.net u.2 only v.net;
            requests = requests;
            sums = v.sums;
          })
      Event-IsProgram {s} (downloads none now req i new pos_i small free e) v =
          subst IsProgram (ok-injective e) v
      Event-IsProgram {s} {x} (downloads (some k) now req i new pos_i small free e) v =
          let w = s.world in
          let (u, run, e') =
            bind-ok (get_reply_download_file k now req w.requests w.transfers.net) _ x e in
          let (requests, only) =
            get_reply_download_file-IsHandler k now req i w.requests w.transfers.net u v.requests
              new pos_i small free run in
          subst IsProgram (ok-injective e') (record {
            net = sent-IsNet w.transfers.net u.1 only v.net;
            requests = requests;
            sums = v.sums;
          })
      Event-IsProgram {s} {x} (connects resolved now e) v =
          let (u, run, e') = bind-ok (do_connection s.world.transfers.net resolved now) _ x e in
          subst IsProgram (ok-injective e') (record {
            net = do_connection-IsNet s.world.transfers.net u resolved now run v.net;
            requests = v.requests;
            sums = v.sums;
          })
      Event-IsProgram {s} (closes req) v = record {
        net = v.net;
        requests =
            subst IsHandler (sym (filename_search_close-requests req s.world.requests s.window))
              (Step-IsHandler (ends req) v.requests);
        sums = v.sums;
      }
      Event-IsProgram {s} {x} (builds junk mtime dir node curt e) v =
          let db : FileDb = record {
            lastupdate = s.lastupdate;
            filenametomd5 = s.world.database;
          } in
          let (u, run, e') =
            bind-ok (create_filenametomd5 junk mtime dir node curt (db, s.world.requests)) _ x e in
          let (sums, swept) =
            create_filenametomd5-HasSums junk mtime dir node curt db s.world.requests u v.sums
              run in
          subst IsProgram (ok-injective e') (record {
            net = v.net;
            requests = subst IsHandler swept (Step-IsHandler (sweeps curt) v.requests);
            sums = sums;
          })
      Event-IsProgram {s} {x} (pings before after p f later has e) v =
          let net = s.world.transfers.net in
          let taken : Net = record net { pingers = before ++ after } in
          let (u, run, e') = bind-ok (idle_pinger p f later taken) _ x e in
          subst IsProgram (ok-injective e') (record {
            net =
                idle_pinger-IsNet p f later taken u run
                  (taken-IsNetBut net before after p has v.net);
            requests = v.requests;
            sums = v.sums;
          })

      Run-IsProgram : {s u : Program t.Tree n.Book} → Run s u → IsProgram s → IsProgram u
      Run-IsProgram here v = v
      Run-IsProgram (next r e) v = Event-IsProgram e (Run-IsProgram r v)

      -- Once main has set the program up, then in any order of packets, clicks and runs of the
      -- jobs in which no handler meets a fault and each new request finds a free number and a
      -- block that no request of the table has: the window shows the known servers, and each has a
      -- ping job for each of its entries; each number in the table of requests is between 1 and
      -- 65535 and carries a request with this number that is not freed; and each shared file has a
      -- sum of sixteen bytes.
      pub main-Run-IsProgram :
          (argc : ℕ) (memory : Handler t.Tree) (empty : n.Book) (vbox view : ℕ) (opened : Option ℕ)
          (reused bound : Bool) (now : ℕ) (s u : Program t.Tree n.Book)
          → main argc memory empty vbox view opened reused bound now ≡ ok s
          → Run s u
          → IsProgram u
      main-Run-IsProgram argc memory empty vbox view opened reused bound now s u e r =
          Run-IsProgram r (main-IsProgram argc memory empty vbox view opened reused bound now s e)

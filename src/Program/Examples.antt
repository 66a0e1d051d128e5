-- ===== src/Program/Examples.antt =====
-- The program starts, is pinged, scans its directory, and the user clicks.
use misc_uni_stuff.Base.{
  drop, length, ℕ, ◌≡◌, refl, ap, ◌∙◌, List, [], ◌∷◌, ◌++◌, true, false, replicate, none, some, ok,
  ◌>>=◌,
}
use misc_uni_stuff.Host.{Host, little, hton}
use misc_uni_stuff.Glib.{list_slist}
use misc_uni_stuff.Packet.{SockaddrIn, FullPacket, request_ping}
use misc_uni_stuff.Net.{
  Net, af_inet, servlet_port, new_servlet_real, look_for_new_servers, check_add_server,
}
use misc_uni_stuff.Net.Reach.{start}
use misc_uni_stuff.Net.Replies.{sending, generate_reply_servers-sent}
use misc_uni_stuff.Request.{Handler, request_ontimeout, request_init, request_do_timeout}
use misc_uni_stuff.Request.Model.{Sorted, sorted_tree}
use misc_uni_stuff.Search.{Glob}
use misc_uni_stuff.FileDb.{Entries, entry, end, regular, directory, Stat, is_other, Md5}
use misc_uni_stuff.FileDb.Scan.{IsSoundEntries, listing_entries}
use misc_uni_stuff.FileDb.Update.{create_filenametomd5-listing}
use misc_uni_stuff.Window.Model.{list_notebook}
use misc_uni_stuff.Dispatch.{Calls, with_net, apply_packet}
use misc_uni_stuff.Dispatch.Greeting.{replies}
use misc_uni_stuff.Dispatch.Receive.{ours}
use misc_uni_stuff.Dispatch.Switch.{apply_packet-ping}
use misc_uni_stuff.Program.{
  Program, do_listen, setup_sockets, main, build_md5, show_timeouts, clicked_close, Run,
}
use misc_uni_stuff.Program.Event.{receives, builds, closes}
use misc_uni_stuff.Program.Run.{here, next}
use misc_uni_stuff.Program.Invariant.{IsProgram, main-Run-IsProgram}

instance abbrev pc : Host
pc = record { order = little }

instance abbrev any_name : Glob
any_name = record { pattern_match = λ pattern name. true }

instance abbrev zeros : Md5
zeros = record { md5_stream = λ bytes. replicate 16 0; length-md5_stream = λ bytes. refl }

abbrev anna : SockaddrIn
anna = record { sin_family = 2; sin_port = 48398; s_addr = 16777226 }

abbrev blank : Handler Sorted
blank = record {
  tree = sorted_tree.create;
  cell = λ k. record {
    starttime = 0;
    timeout = request_ontimeout;
    model = 0;
    widget = 0;
    active = false;
    timedout = false;
    reqno = 0;
  };
  freed = λ k. false;
  bad_accesses = [];
  calls = [];
}

abbrev calls : Calls
calls = record {
  now = 50;
  later = 51;
  upstream_now = 52;
  opened = none;
  listenfd = none;
  reused = true;
  listens = true;
  bound = none;
  sockfd = none;
  connects = true;
  filefd = none;
  junk = 0;
}

abbrev listening : Net
listening =
    look_for_new_servers
      (new_servlet_real (record (start 0) { listening = 4 })
        (record { sin_family = af_inet; sin_port = hton little servlet_port; s_addr = 0 }) 40).0

abbrev started : Program Sorted (List ℕ)
started = record {
  world = record {
    requests = request_init blank;
    models = λ model. [];
    transfers = record {
      net = listening;
      download_pool = [];
      upload_pool = [];
      connected = [];
      created = [];
    };
    database = [];
  };
  lastupdate = 0;
  window = record { notebook = 10 ∷ 11 ∷ []; text = λ widget. [] };
}

starts : main 2 blank [] 10 11 (some 4) true true 40 ≡ ok started
unfolding main setup_sockets do_listen
starts = refl

abbrev shared : Entries
shared = entry (97 ∷ []) (regular 2 (some (5 ∷ 6 ∷ []))) end

shared-IsSound : IsSoundEntries shared
unfolding IsSoundEntries
shared-IsSound = (tt, tt)

abbrev ping : FullPacket
ping = ours request_ping 0 0 [] anna

abbrev greeted : Net
greeted = check_add_server listening anna 50 51

abbrev answered : Program Sorted (List ℕ)
answered = record started {
  world = with_net started.world (sending greeted (greeted.sent ++ replies ping greeted));
}

answers : apply_packet calls ping started.world ≡ ok answered.world
answers =
    apply_packet-ping calls started.world 0 0 [] anna
    ∙ ap (λ r. r >>= λ u. ok (with_net started.world u)) (generate_reply_servers-sent ping greeted)

abbrev junk : List ℕ → Stat
junk path = record { st_mode = is_other; st_size = 0 }

abbrev scanned : Program Sorted (List ℕ)
scanned = record answered {
  world = record answered.world {
    requests = request_do_timeout (request_init blank) 60;
    database = listing_entries (46 ∷ 47 ∷ []) shared;
  };
  lastupdate = 7;
  window =
      show_timeouts (request_init blank)
        (drop (length (request_init blank).calls)
          (request_do_timeout (request_init blank) 60).calls)
        answered.window;
}

scans : build_md5 junk 7 (46 ∷ []) (directory shared) 60 answered ≡ ok scanned
unfolding build_md5
scans =
    rw
      (create_filenametomd5-listing junk 7 (46 ∷ []) shared 60
        (record { lastupdate = 0; filenametomd5 = [] }) (request_init blank) shared-IsSound)
      refl

abbrev run : Run started (clicked_close 1 scanned)
run =
    next
      (next (next here (receives calls ping answered.world answers))
        (builds junk 7 (46 ∷ []) (directory shared) 60 scans))
      (closes 1)

main-Run-IsProgram_example : IsProgram (clicked_close 1 scanned)
main-Run-IsProgram_example =
    main-Run-IsProgram 2 blank [] 10 11 (some 4) true true 40 started (clicked_close 1 scanned)
      starts run

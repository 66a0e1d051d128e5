-- ===== src/Net/Examples.antt =====
-- Runs of the table of servers: one server is heard of, pinged, and dropped when it stays silent.
use misc_uni_stuff.Base.{◌+◌, ◌≡◌, refl, arith, [], ◌∷◌, if◌then◌else◌, ◌==◌, take, length, ok}
use misc_uni_stuff.Host.{Host, little}
use misc_uni_stuff.Glib.{block, list_slist}
use misc_uni_stuff.Packet.{SockaddrIn}
use misc_uni_stuff.Net.{Net, check_add_server, idle_pinger, look_for_new_servers}
use misc_uni_stuff.Net.Known.{IsKnown, check_add_server-IsKnown}
use misc_uni_stuff.Net.Lookout.{started, look_for_new_servers-started}
use misc_uni_stuff.Net.Invariant.{IsNet, IsNetBut}
use misc_uni_stuff.Net.Reach.{Step, Reach, start, Reach-IsNet}
use misc_uni_stuff.Net.Pinger.{Ran, idle_pinger-Ran}

instance abbrev pc : Host
pc = record { order = little }

abbrev anna : SockaddrIn
anna = record { sin_family = 2; sin_port = 48398; s_addr = 16777226 }

abbrev berta : SockaddrIn
berta = record { sin_family = 2; sin_port = 48398; s_addr = 33554442 }

abbrev first : Net
first = start 4

abbrev two : Net
two = check_add_server (check_add_server first anna 100 100) berta 101 101

abbrev runs_two : Reach first two
runs_two =
    Reach.next (Reach.next Reach.here (Step.hears anna 100 100 refl))
      (Step.hears berta 101 101 refl)

Reach-IsNet_example : IsNet two
Reach-IsNet_example = Reach-IsNet 4 two runs_two

two-IsNet : IsNet two
two-IsNet = Reach-IsNet 4 two runs_two

check_add_server-IsKnown_example : IsKnown two anna 130 (check_add_server two anna 129 130)
check_add_server-IsKnown_example = check_add_server-IsKnown two anna 129 130 two-IsNet.sockets

-- A state in which the job of the one known server runs, and another server is possible.
abbrev running : Net
running = record first {
  cell =
      λ j. record { client = (if j == 0 then anna else berta); lastpinged = 0; lastponged = 100 };
  free = 2;
  sockets = block 0 ∷ [];
  servermodel = block 0 ∷ [];
  possible_servers = block 1 ∷ [];
}

running-IsNetBut : IsNetBut (block 0) running
running-IsNetBut = record {
  sync = refl;
  pinged = λ q. ground arith;
  sockets = (omega arith, tt);
  possible = (omega arith, tt);
}

idle_pinger-Ran_example :
    (u : Net) × (idle_pinger (block 0) 200 201 running ≡ ok u) × Ran (block 0) 200 running u
idle_pinger-Ran_example = idle_pinger-Ran (block 0) 200 201 running running-IsNetBut

look_for_new_servers-started_example :
    look_for_new_servers running ≡ record (started (take 6 running.possible_servers) running) {
      asked = running.asked + (if length running.possible_servers == 0 then 1 else 0);
    }
look_for_new_servers-started_example = look_for_new_servers-started running refl

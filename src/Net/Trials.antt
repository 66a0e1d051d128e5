-- ===== src/Net/Trials.antt =====
-- Two threads that handle packets at the same time, a server that answers and one that does not,
-- and the end of the program.
use misc_uni_stuff.Base.{ℕ, ◌≡◌, ◌≢◌, ◌<◌, ◌≤◌, refl, arith, ok, [], ◌∷◌, true, none, some}
use misc_uni_stuff.Host.{Host, little}
use misc_uni_stuff.Glib.{Gpointer, block, list_slist}
use misc_uni_stuff.Packet.{SockaddrIn}
use misc_uni_stuff.Net.{
  idle_pinger, check_add_server, Net, deref, find_servlet, new_servlet_real, new_servlet_startup,
  cmp_sockaddr, check_add_server,
}
use misc_uni_stuff.Net.Known.{IsUnique}
use misc_uni_stuff.Net.Invariant.{IsNet}
use misc_uni_stuff.Net.Reach.{start}
use misc_uni_stuff.Net.Threads.{Threads, inside, waiting, finished, served}
use misc_uni_stuff.Net.Serial.{Reach-served, Reach-IsUnique}
use misc_uni_stuff.Net.Threads.Step.{locks, finds, adds, starts, stamps, unlocks}
use misc_uni_stuff.Net.Threads.Reach.{here, next}
use misc_uni_stuff.Net.Restarts.{IsLone, idle_pinger_runs, idle_pinger_runs-IsLone}
use misc_uni_stuff.Net.Pointers.{count}
use misc_uni_stuff.Net.Pinger.{idle_pinger-Ran}
use misc_uni_stuff.Net.Reach.{taken-IsNetBut}
use misc_uni_stuff.Net.Reach.Step.{hears, pings}
use misc_uni_stuff.Net.Answered.{Answered, Answered-known}
use misc_uni_stuff.Net.Shutdown.{closedown, closedown-IsUnique}
use misc_uni_stuff.Net.Race.{add_upstream_server-raced}

instance abbrev pc : Host
pc = record { order = little }

abbrev anna : SockaddrIn
anna = record { sin_family = 2; sin_port = 48398; s_addr = 16777226 }

-- Every packet is from the same host.
abbrev from_anna : ℕ → SockaddrIn
from_anna i = anna

abbrev at : ℕ → ℕ
at i = 100

start-IsNet : IsNet (start 4)
start-IsNet = record { sync = refl; pinged = λ p. refl; sockets = tt; possible = tt }

start-IsUnique : IsUnique (start 4)
start-IsUnique a = omega arith

-- Thread 5 gets the lock first, and thread 3 after it.
run_of_two : (u : Threads) × misc_uni_stuff.Net.Threads.Reach from_anna at at (start 4) u
unfolding find_servlet new_servlet_real new_servlet_startup cmp_sockaddr
run_of_two = (
  _,
  next
      (next
        (next
          (next
            (next
              (next
                (next (next (next (next here (locks 5 refl refl)) (finds 5 refl)) (adds 5 refl))
                  (starts 5 (block 0) refl))
                (stamps 5 (block 0) refl))
              (unlocks 5 refl))
            (locks 3 refl refl))
          (finds 3 refl))
        (stamps 3 (block 0) refl))
      (unlocks 3 refl),
)

Reach-served_example :
    ((i j : ℕ) → inside (run_of_two.0.pc i) ≡ true → inside (run_of_two.0.pc j) ≡ true → i ≡ j)
    × (run_of_two.0.holder ≡ none
        → run_of_two.0.net ≡ served from_anna at at (start 4) run_of_two.0.acquired)
    × ((i : ℕ)
        → run_of_two.0.pc i ≢ finished
        → (w : Threads) × misc_uni_stuff.Net.Threads.Step from_anna at at run_of_two.0 w)
Reach-served_example = Reach-served from_anna at at (start 4) run_of_two.0 run_of_two.1

Reach-IsUnique_example : IsNet run_of_two.0.net × IsUnique run_of_two.0.net
unfolding run_of_two
Reach-IsUnique_example =
    Reach-IsUnique from_anna at at (start 4) run_of_two.0 start-IsNet start-IsUnique run_of_two.1
      refl

add_upstream_server-raced_example :
    (u : misc_uni_stuff.Net.Race.Threads) × misc_uni_stuff.Net.Race.Reach from_anna at (start 4) u
    × (u.pc 5 ≡ misc_uni_stuff.Net.Race.finished)
    × (u.pc 3 ≡ misc_uni_stuff.Net.Race.finished)
    × (u.net.possible_servers ≡ block 0 ∷ block 1 ∷ [])
    × ((deref u.net (block 0)).client ≡ anna)
    × ((deref u.net (block 1)).client ≡ anna)
add_upstream_server-raced_example =
    add_upstream_server-raced from_anna at (start 4) 5 3 (ground arith) refl refl

-- Server 1, last heard of at 100, is the only known one and the only possible one.
abbrev silent : Net
silent = record (start 4) {
  cell = λ k. record { client = anna; lastpinged = 0; lastponged = 100 };
  free = 2;
  sockets = block 1 ∷ [];
  servermodel = block 1 ∷ [];
  possible_servers = block 1 ∷ [];
  pingers = block 1 ∷ [];
}

idle_pinger_runs-IsLone_example :
    (u : Net) × (idle_pinger_runs ((200, 200) ∷ (200, 201) ∷ (201, 201) ∷ []) (block 1) silent
      ≡ ok u)
    × IsLone (block 1) u
    × (u.pingers ≡ block 1 ∷ [])
    × (u.asked ≡ 0)
idle_pinger_runs-IsLone_example =
    idle_pinger_runs-IsLone 1 ((200, 200) ∷ (200, 201) ∷ (201, 201) ∷ []) silent
      (record { sockets = refl; servermodel = refl; possible = refl }) refl
      (omega arith, (omega arith, (omega arith, tt)))

silent-IsUnique : IsUnique silent
silent-IsUnique a = ground arith

closedown-IsUnique_example :
    ((closedown silent).freed ≡ block 1 ∷ [])
    × ((p : Gpointer) → count p (closedown silent).freed ≤ 1)
    × ((closedown silent).net.sockets ≡ [])
closedown-IsUnique_example = closedown-IsUnique silent silent-IsUnique

-- Server 0 was last heard of at 100; its job runs at 120, and a packet of it comes.
abbrev heard : Net
heard = record (start 4) {
  cell = λ k. record { client = anna; lastpinged = 0; lastponged = 100 };
  free = 1;
  sockets = block 0 ∷ [];
  servermodel = block 0 ∷ [];
  pingers = block 0 ∷ [];
}

heard-IsNet : IsNet heard
heard-IsNet = record { sync = refl; pinged = λ p. refl; sockets = (omega arith, tt); possible = tt }

pinged_once : (u : Net) × (idle_pinger (block 0) 120 121 (record heard { pingers = [] }) ≡ ok u)
pinged_once =
    let (u, e, ran) =
      idle_pinger-Ran (block 0) 120 121 (record heard { pingers = [] })
        (taken-IsNetBut heard [] [] (block 0) refl heard-IsNet) in
    (u, e)

heard_run : Answered anna 0 heard 125 (check_add_server pinged_once.0 anna 125 125)
heard_run =
    Answered.next
      (Answered.next Answered.here (pings [] [] (block 0) 120 121 refl pinged_once.1)
        (λ e. omega arith))
      (hears anna 125 125 refl) tt

heard_found : find_servlet heard anna ≡ some (block 0)
unfolding find_servlet cmp_sockaddr
heard_found = refl

Answered-known_example :
    let u = check_add_server pinged_once.0 anna 125 125 in
    (find_servlet u anna ≡ some (block 0))
    × (0 < count (block 0) u.sockets)
    × (0 < count (block 0) u.pingers)
    × ((deref u (block 0)).client ≡ anna)
    × ((deref u (block 0)).lastponged ≡ 125)
Answered-known_example =
    Answered-known anna 0 125 heard (check_add_server pinged_once.0 anna 125 125) heard-IsNet
      heard_found heard_run

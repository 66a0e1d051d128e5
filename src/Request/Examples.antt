-- ===== src/Request/Examples.antt =====
-- Runs of the request table: a request is started, ended and swept.
use misc_uni_stuff.Base.{
  ℕ, ◌≡◌, ◌≢◌, ◌<◌, refl, arith, [], ◌++◌, ◌&&◌, not, false, if◌then◌else◌, none, some,
}
use misc_uni_stuff.Glib.{list_slist}
use misc_uni_stuff.Request.{
  Handler, request_ontimeout, request_init, request_start, request_end, request_get,
  request_do_timeout, find_next_number, next_number, compare_func, request_get_local,
  request_do_timeout_single, request_do_timeout_single2,
}
use misc_uni_stuff.Request.Model.{Sorted, sorted_tree}
use misc_uni_stuff.Request.Sweep.{expired, expired_nodes}
use misc_uni_stuff.Request.Turns.{calls_of, ended}
use misc_uni_stuff.Request.Numbers.{IsHandler, request_start_number, request_start-zero}
use misc_uni_stuff.Request.Timeout.{
  request_get-request_do_timeout, request_do_timeout_calls, request_do_timeout_bad_accesses,
}
use misc_uni_stuff.Request.Invariant.{malloc, Step, Reach, Reach-IsHandler}

abbrev blank : Handler Sorted
blank = record {
  tree = sorted_tree.create;
  cell = λ k. record {
    starttime = 0;
    timeout = request_ontimeout;
    model = 0;
    widget = 0;
    active = false;
    timedout = false;
    reqno = 0;
  };
  freed = λ k. false;
  bad_accesses = [];
  calls = [];
}

abbrev empty : Handler Sorted
empty = request_init blank

abbrev one : Handler Sorted
one = (request_start (malloc 8 empty) 8 100).0

abbrev over : Handler Sorted
over = request_end one 1

empty-none : (j : ℕ) → request_get empty j ≡ none
unfolding request_get request_init
empty-none j = refl

empty_new : (j : ℕ) → request_get empty j ≢ some 8
empty_new j e = cc (empty-none j, e)

abbrev runs_one : Reach empty one
runs_one =
    Reach.next Reach.here (Step.starts 8 100 1 empty_new (omega arith) (omega arith) (empty-none 1))

abbrev runs_over : Reach empty over
runs_over = Reach.next runs_one (Step.ends 1)

Reach-IsHandler_example : IsHandler over
Reach-IsHandler_example = Reach-IsHandler blank over runs_over

one-IsHandler : IsHandler one
one-IsHandler = Reach-IsHandler blank one runs_one

empty-IsHandler : IsHandler empty
empty-IsHandler = Reach-IsHandler blank empty Reach.here

request_start_number_example :
    (request_get one (request_start one 9 101).1 ≡ none)
    × ((request_start one 9 101).1 < 65536)
    × ((j : ℕ) → 0 < j → j < (request_start one 9 101).1 → request_get one j ≢ none)
    × ((request_start one 9 101).1 ≡ 0 → (j : ℕ) → 0 < j → j < 65536 → request_get one j ≢ none)
request_start_number_example = request_start_number one 9 101 one-IsHandler

second_number : (request_start one 9 101).1 ≡ 2
unfolding request_start next_number find_next_number compare_func request_init malloc
second_number = refl

nine_alive : one.freed 9 ≡ false
unfolding request_start malloc request_init
nine_alive = refl

over-IsHandler : IsHandler over
over-IsHandler = Reach-IsHandler blank over runs_over

request_get-request_do_timeout_example :
    request_get (request_do_timeout over 200) 1 ≡ elim (request_get over 1) [
      | none ↦ none
      | some k ↦ if expired 200 over.cell k && not (over.cell k).active then none else some k
    ]
request_get-request_do_timeout_example = request_get-request_do_timeout over 200 over-IsHandler 1

-- The ended request leaves the table.
ended_swept : request_get (request_do_timeout over 200) 1 ≡ none
unfolding request_do_timeout_single request_do_timeout_single2 request_get request_do_timeout
    request_end request_start next_number find_next_number compare_func request_init malloc
    request_get_local
ended_swept = refl

request_do_timeout_calls_example :
    (request_do_timeout one 200).calls
    ≡ one.calls ++ calls_of one.cell (expired_nodes 200 one.cell (sorted_tree.nodes one.tree))
request_do_timeout_calls_example = request_do_timeout_calls one 200 one-IsHandler

request_do_timeout_bad_accesses_example :
    (request_do_timeout over 200).bad_accesses
    ≡ over.bad_accesses
      ++ ended over.cell (expired_nodes 200 over.cell (sorted_tree.nodes over.tree))
request_do_timeout_bad_accesses_example = request_do_timeout_bad_accesses over 200 over-IsHandler

-- The blocks 7 and 8 have the numbers 0 and 1.
abbrev wrapped : Handler Sorted
wrapped = record blank { tree = sorted_tree.insert (sorted_tree.insert sorted_tree.create 0 7) 1 8 }

wrapped_zero : request_get wrapped 0 ≡ some 7
unfolding request_get request_get_local compare_func
wrapped_zero = refl

request_start-zero_example :
    ((request_start wrapped 9 100).1 ≡ 1) × (request_get (request_start wrapped 9 100).0 1 ≡ some 9)
request_start-zero_example = request_start-zero wrapped 9 7 100 wrapped_zero refl

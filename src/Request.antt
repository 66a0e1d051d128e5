-- ===== src/Request.antt =====
-- pingu/request_handler.c and request_handler.h: the table of outstanding requests. The static
-- tree, the request objects on the heap and the output of the callbacks are one state. Each
-- function runs under the lock request_start, so it is one step.
mod Scan
mod Sweep
mod Turns
pub mod Numbers
pub mod Timeout
pub mod Invariant
pub mod Ending
pub mod Model
mod Examples
use misc_uni_stuff.Base.{
  ℕ, ◌+◌, ◌≡◌, List, [], ◌∷◌, ◌++◌, Bool, true, false, not, ◌&&◌, ltb, ◌==◌, if◌then◌else◌, Option,
  none, some, ℤ, pos, negsuc,
}
use misc_uni_stuff.Host.{u16}
use misc_uni_stuff.Glib.{Slist, g_slist_append, g_slist_foreach, Gtree}

unfoldable pub compare_func : ℕ → ℕ → ℤ
compare_func left right =
    if ltb left right then negsuc 0 else if ltb right left then pos 1 else pos 0

-- The functions that a request may carry as its callback.
pub data OnTimeout : Type 0 where
  request_ontimeout download_request_timeout : OnTimeout

-- `model` is the field `data`; it and `widget` are the callers' pointers.
pub record Request : Type 0 where
  pub starttime : ℕ
  pub timeout : OnTimeout
  pub model : ℕ
  pub widget : ℕ
  pub active : Bool
  pub timedout : Bool
  pub reqno : ℕ

-- `cell` is the memory of the request objects, `freed` says which were freed, `bad_accesses` logs
-- each write to a freed one, and `calls` each callback that ran.
pub record Handler (T : Type 0) : Type 0 where
  pub tree : T
  pub cell : ℕ → Request
  pub freed : ℕ → Bool
  pub bad_accesses : List ℕ
  pub calls : List (OnTimeout × ℕ)

abbrev pub update {ℓ} : {A : Type ℓ} → (ℕ → A) → ℕ → A → ℕ → A
update f k a j = if k == j then a else f j

-- A write through `k`: a block that was freed keeps its contents, and the write is logged.
abbrev pub poke : {T : Type 0} → Handler T → ℕ → Request → Handler T
poke s k r =
    if s.freed k
    then record s { bad_accesses = s.bad_accesses ++ k ∷ [] }
    else record s { cell = update s.cell k r }

-- `*curmax` is the state of the traversal.
pub find_next_number : ℕ → ℕ → ℕ → Bool × ℕ
find_next_number requestno k curmax =
    if not (curmax == requestno) then (true, curmax) else (false, u16 (requestno + 1))

module _ ⦃g : Slist⦄ ⦃t : Gtree compare_func⦄ where
  pub request_init : Handler t.Tree → Handler t.Tree
  request_init s = record s { tree = t.create }

  pub request_get_local : Handler t.Tree → ℕ → Option ℕ
  request_get_local s reqno = t.lookup s.tree reqno

  pub request_end : Handler t.Tree → ℕ → Handler t.Tree
  request_end s req = elim (request_get_local s req) [
    | none ↦ s
    | some k ↦ poke s k (record (s.cell k) { active = false })
  ]

  pub request_do_timeout_single : ℕ → (ℕ → Request) → ℕ → ℕ → List ℕ → Bool × List ℕ
  request_do_timeout_single curt cell req k list =
      if ltb (cell k).starttime curt then (false, g_slist_append list k) else (false, list)

  -- The callback, if it is due.
  pub run_timeout : ℕ → Handler t.Tree → Handler t.Tree
  run_timeout k s =
      let r = s.cell k in
      if r.active && not r.timedout
      then record s { calls = s.calls ++ (r.timeout, r.reqno) ∷ [] }
      else s

  -- An ended request leaves the tree and is freed.
  pub release : ℕ → Handler t.Tree → Handler t.Tree
  release k s =
      let r = s.cell k in
      if not r.active
      then record s { tree = t.remove s.tree r.reqno; freed = update s.freed k true }
      else s

  -- The last write comes whether the request was freed or not.
  pub request_do_timeout_single2 : ℕ → Handler t.Tree → Handler t.Tree
  unfolding run_timeout release
  request_do_timeout_single2 k s =
      let s' = release k (run_timeout k s) in poke s' k (record (s'.cell k) { timedout = true })

  -- `curt` is what `time(NULL)` returned.
  pub request_do_timeout : Handler t.Tree → ℕ → Handler t.Tree
  request_do_timeout s curt =
      g_slist_foreach request_do_timeout_single2
        (t.foreach (request_do_timeout_single curt s.cell) s.tree []) s

  pub next_number : t.Tree → ℕ
  unfolding find_next_number
  next_number tree = t.foreach find_next_number tree 1

  -- `now` is what `time(NULL)` returned.
  pub request_start : Handler t.Tree → ℕ → ℕ → Handler t.Tree × ℕ
  request_start s k now =
      let found = next_number s.tree in
      (
        poke (record s { tree = t.insert s.tree found k }) k
            (record (s.cell k) {
              active = true;
              starttime = now + 5;
              reqno = found;
              timedout = false;
            }),
        found,
      )

  unfoldable pub request_get : Handler t.Tree → ℕ → Option ℕ
  request_get s reqno = t.lookup s.tree reqno

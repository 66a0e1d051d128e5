-- ===== src/Request/Invariant.antt =====
-- The table of requests over any run of its operations, pingu/request_handler.c.
use misc_uni_stuff.Base.{
  ℕ, ◌≡◌, ◌≢◌, ◌<◌, ◌^◌, refl, ap, ◌∙◌, arith, List, [], ◌∷◌, false, not, ◌&&◌, none, some,
  Option-cases, inl, inr,
}
use misc_uni_stuff.Glib.{Slist, Gtree}
use misc_uni_stuff.Request.{
  Handler, Request, compare_func, poke, update, request_init, request_start, request_end,
  request_get, request_get_local, request_do_timeout,
}
use misc_uni_stuff.Request.Sweep.{expired, expired_nodes, request_do_timeout-each}
use misc_uni_stuff.Request.Turns.{freed_in, each_freed, each_reqno}
use misc_uni_stuff.Request.Numbers.{IsHandler, request_start-IsHandler}
use misc_uni_stuff.Request.Timeout.{request_get-request_do_timeout}

module _ ⦃g : Slist⦄ ⦃t : Gtree compare_func⦄ where
  freed_in-expired_nodes :
      (curt : ℕ) (cell : ℕ → Request) (k : ℕ) (l : List (ℕ × ℕ))
      → (expired curt cell k && not (cell k).active) ≡ false
      → freed_in cell (expired_nodes curt cell l) k ≡ false
  unfolding freed_in
  freed_in-expired_nodes curt cell k [] h = refl
  freed_in-expired_nodes curt cell k ((j, i) ∷ rest) h =
      ground (arith, freed_in-expired_nodes curt cell k rest h)

  request_do_timeout-IsHandler :
      (s : Handler t.Tree) (curt : ℕ) → IsHandler s → IsHandler (request_do_timeout s curt)
  unfolding request_get
  request_do_timeout-IsHandler s curt v = record {
    positive = λ j k e. v.positive j k (kept j k e).0;
    fits = λ j k e. v.fits j k (kept j k e).0;
    numbered = λ j k e.
        ap (λ (z : Handler t.Tree). (z.cell k).reqno) (request_do_timeout-each s curt)
        ∙ each_reqno (expired_nodes curt s.cell (t.nodes s.tree)) s k
        ∙ v.numbered j k (kept j k e).0;
    alive = λ j k e.
        ap (λ (z : Handler t.Tree). z.freed k) (request_do_timeout-each s curt)
        ∙ each_freed (expired_nodes curt s.cell (t.nodes s.tree)) s k
        ∙ rw (freed_in-expired_nodes curt s.cell k (t.nodes s.tree) (kept j k e).1)
            (v.alive j k (kept j k e).0);
  }
    where
      kept :
          (j k : ℕ)
          → t.lookup (request_do_timeout s curt).tree j ≡ some k
          → (t.lookup s.tree j ≡ some k)
            × ((expired curt s.cell k && not (s.cell k).active) ≡ false)
      kept j k e = ground (arith, request_get-request_do_timeout s curt v j)

  request_end-IsHandler :
      (s : Handler t.Tree) (req : ℕ) → IsHandler s → IsHandler (request_end s req)
  unfolding request_end request_get_local
  request_end-IsHandler s req v = elim (Option-cases (t.lookup s.tree req)) [
    | inl e ↦ rw (e, request_end, request_get_local) v
    | inr (i, e) ↦
        rw (e, request_end, request_get_local)
          (record {
            positive = λ j k e'. v.positive j k (ground arith);
            fits = λ j k e'. v.fits j k (ground arith);
            numbered = λ j k e'. ground (arith, v.numbered j k);
            alive = λ j k e'. ground (arith, v.alive j k);
          })
  ]

  -- malloc hands out `k`, which may have been freed before.
  unfoldable pub malloc : ℕ → Handler t.Tree → Handler t.Tree
  malloc k s = record s { freed = update s.freed k false }

  malloc-IsHandler : (s : Handler t.Tree) (k : ℕ) → IsHandler s → IsHandler (malloc k s)
  unfolding malloc
  malloc-IsHandler s k v = record {
    positive = v.positive;
    fits = v.fits;
    numbered = v.numbered;
    alive = λ j i e. ground (arith, v.alive j i);
  }

  -- What the callers store in their request, as searchfile does.
  pub set_user_data : Handler t.Tree → ℕ → ℕ → ℕ → Handler t.Tree
  set_user_data s k model widget = poke s k (record (s.cell k) { model = model; widget = widget })

  set_user_data-IsHandler :
      (s : Handler t.Tree) (k model widget : ℕ)
      → IsHandler s
      → IsHandler (set_user_data s k model widget)
  unfolding set_user_data
  set_user_data-IsHandler s k model widget v = record {
    positive = λ j i e. v.positive j i (ground arith);
    fits = λ j i e. v.fits j i (ground arith);
    numbered = λ j i e. ground (arith, v.numbered j i);
    alive = λ j i e. ground (arith, v.alive j i);
  }

  -- The locked operations, in any order. A request is started on a block that is not in the table,
  -- while one of the numbers 1 to 65535 is free.
  pub data Step (s : Handler t.Tree) : Handler t.Tree → Type 0 where
    starts :
        (k now i : ℕ)
        → ((j : ℕ) → request_get s j ≢ some k)
        → 0 < i
        → i < 2 ^ 16
        → request_get s i ≡ none
        → Step s (request_start (malloc k s) k now).0
    fills : (k model widget : ℕ) → Step s (set_user_data s k model widget)
    ends : (req : ℕ) → Step s (request_end s req)
    sweeps : (curt : ℕ) → Step s (request_do_timeout s curt)

  pub data Reach (s : Handler t.Tree) : Handler t.Tree → Type 0 where
    here : Reach s s
    next : {u w : Handler t.Tree} → Reach s u → Step u w → Reach s w

  pub Step-IsHandler : {s u : Handler t.Tree} → Step s u → IsHandler s → IsHandler u
  unfolding malloc request_get
  Step-IsHandler {s} (starts k now i new pos_i small free) v =
      request_start-IsHandler (malloc k s) k now i (malloc-IsHandler s k v) (ground arith) new pos_i
        small free
  Step-IsHandler {s} (fills k model widget) v = set_user_data-IsHandler s k model widget v
  Step-IsHandler {s} (ends req) v = request_end-IsHandler s req v
  Step-IsHandler {s} (sweeps curt) v = request_do_timeout-IsHandler s curt v

  pub request_init-IsHandler : (s : Handler t.Tree) → IsHandler (request_init s)
  unfolding request_init
  request_init-IsHandler s = record {
    positive = λ j k e. cc (t.lookup-create j);
    fits = λ j k e. cc (t.lookup-create j);
    numbered = λ j k e. cc (t.lookup-create j);
    alive = λ j k e. cc (t.lookup-create j);
  }

  Reach-IsHandler_from : {s u : Handler t.Tree} → IsHandler s → Reach s u → IsHandler u
  Reach-IsHandler_from v here = v
  Reach-IsHandler_from v (next r st) = Step-IsHandler st (Reach-IsHandler_from v r)

  -- From request_init on, whatever requests start, end and time out, a start finding a free number
  -- and a block that no request of the table has: each number in the table is between 1 and 65535
  -- and carries a request that holds this number and is not freed.
  pub Reach-IsHandler : (s u : Handler t.Tree) → Reach (request_init s) u → IsHandler u
  Reach-IsHandler s u r = Reach-IsHandler_from (request_init-IsHandler s) r

-- ===== src/Request/Ending.antt =====
-- What request_end changes, pingu/request_handler.c.
use misc_uni_stuff.Base.{ℕ, ◌≡◌, refl, false, none, some}
use misc_uni_stuff.Glib.{Slist, Gtree}
use misc_uni_stuff.Request.{
  Handler, compare_func, poke, update, request_end, request_get, request_get_local,
}

module _ ⦃g : Slist⦄ ⦃t : Gtree compare_func⦄ where
  -- The table with the request at `k` inactive.
  abbrev pub ended_at : ℕ → Handler t.Tree → Handler t.Tree
  ended_at k s = record s { cell = update s.cell k (record (s.cell k) { active = false }) }

  pub request_end-none :
      (s : Handler t.Tree) (req : ℕ) → request_get s req ≡ none → request_end s req ≡ s
  unfolding request_end request_get_local request_get
  request_end-none s req e = rw (e, request_end, request_get_local) refl

  pub request_end-some :
      (s : Handler t.Tree) (req k : ℕ)
      → request_get s req ≡ some k
      → s.freed k ≡ false
      → request_end s req ≡ ended_at k s
  unfolding request_end request_get_local request_get
  request_end-some s req k e alive = rw (e, request_end, request_get_local, poke, alive) refl

-- ===== src/Net/Restarts.antt =====
-- idle_pinger of pingu/socket.c when the only possible server is silent.
use misc_uni_stuff.Base.{
  ℕ, ◌+◌, ◌≡◌, ◌<◌, refl, ap, subst, sym, ◌∙◌, arith, List, [], ◌∷◌, ◌++◌, All, ltb, lt→ltb,
  if◌then◌else◌, Result, ok, ◌>>=◌,
}
use misc_uni_stuff.Host.{Host}
use misc_uni_stuff.Glib.{Slist, Gpointer, list_node, block}
use misc_uni_stuff.Packet.{pong_time}
use misc_uni_stuff.Net.{Net, deref, drop_servlet, ping_if_due, transmit, idle_pinger}
use misc_uni_stuff.Net.Pinger.{ping_if_due-datagrams}
use misc_uni_stuff.Net.Sending.{ping_if_due_lists}
use misc_uni_stuff.Net.Pointers.{count, same_pointer_refl}
use misc_uni_stuff.Net.Lookout.{look_for_new_servers-started}

-- One server is known, and it is the only possible one.
pub record IsLone (p : Gpointer) (s : Net) : Type 0 where
  pub sockets : s.sockets ≡ p ∷ []
  pub servermodel : s.servermodel ≡ p ∷ []
  pub possible : s.possible_servers ≡ p ∷ []

module _ ⦃g : Slist⦄ ⦃h : Host⦄ where
  -- Runs of the only job in the pool, each with the times at its start and of its ping.
  abbrev pub idle_pinger_runs : List (ℕ × ℕ) → Gpointer → Net → Result Net
  idle_pinger_runs [] p s = ok s
  idle_pinger_runs ((f, later) ∷ times) p s =
      idle_pinger p f later (record s { pingers = [] }) >>= λ u. idle_pinger_runs times p u

  ping_if_due_asked :
      (k f later : ℕ) (s w : Net) → ping_if_due (block k) f later s ≡ ok w → w.asked ≡ s.asked
  unfolding ping_if_due transmit
  ping_if_due_asked k f later s w e = ground arith

  drop_servlet-IsLone :
      (k : ℕ) (w : Net)
      → IsLone (block k) w
      → drop_servlet (block k) w ≡ record w {
        sockets = block k ∷ [];
        servermodel = block k ∷ [];
        pingers = w.pingers ++ block k ∷ [];
      }
  unfolding drop_servlet
  drop_servlet-IsLone k w v =
      let empty =
        g.remove-cons (block k) [] (block k)
        ∙ ap (λ b. if b then [] else block k ∷ g.remove [] (block k))
            (same_pointer_refl (block k)) in
      let none_listed : count list_node w.possible_servers ≡ 0 = rw v.possible refl in
      rw (v.servermodel, empty, g.len_lem [])
        (look_for_new_servers-started (record w { sockets = []; servermodel = [] }) none_listed
          ∙ rw v.possible (
              ap
                (λ n. record w {
                  sockets = block k ∷ [];
                  servermodel = block k ∷ [];
                  possible_servers = block k ∷ [];
                  pingers = w.pingers ++ block k ∷ [];
                  asked = n;
                })
                {x = w.asked + 0} (omega arith)))

  idle_pinger-IsLone :
      (k f later : ℕ) (s : Net)
      → IsLone (block k) s
      → (deref s (block k)).lastponged + pong_time < f
      → (u : Net) × (idle_pinger (block k) f later s ≡ ok u)
        × IsLone (block k) u
        × (u.pingers ≡ s.pingers ++ block k ∷ [])
        × (u.asked ≡ s.asked)
        × ((deref u (block k)).lastponged ≡ (deref s (block k)).lastponged)
  unfolding idle_pinger
  idle_pinger-IsLone k f later s v late =
      let (w, e, sent) = ping_if_due-datagrams (block k) f later s in
      let lists = ping_if_due_lists (block k) f later s w e in
      let same_late = ap (λ n. ltb (n + pong_time) f) lists.5 ∙ lt→ltb _ f late in
      let lone : IsLone (block k) w = record {
        sockets = lists.0 ∙ v.sockets;
        servermodel = lists.1 ∙ v.servermodel;
        possible = lists.3 ∙ v.possible;
      } in
      let u : Net = record w {
        sockets = block k ∷ [];
        servermodel = block k ∷ [];
        pingers = w.pingers ++ block k ∷ [];
      } in
      (
        u,
        rw (e, same_late, drop_servlet-IsLone k w lone) refl,
        record { sockets = refl; servermodel = refl; possible = lone.possible },
        ap (λ l. l ++ block k ∷ []) lists.2,
        ping_if_due_asked k f later s w e,
        lists.5,
      )

  -- A silent server keeps the pingers busy. Let one server be known that is the only possible one,
  -- let its job be the only one in the pool, and let it have sent no pong for more than thirty
  -- seconds. However often its job runs after that, no run fails, and afterwards the server is
  -- still the only known and the only possible one, with one job in the pool again, and the user
  -- was not asked for another one.
  pub idle_pinger_runs-IsLone :
      (k : ℕ) (times : List (ℕ × ℕ)) (s : Net)
      → IsLone (block k) s
      → s.pingers ≡ block k ∷ []
      → All (λ t. (deref s (block k)).lastponged + pong_time < t.0) times
      → (u : Net) × (idle_pinger_runs times (block k) s ≡ ok u)
        × IsLone (block k) u
        × (u.pingers ≡ block k ∷ [])
        × (u.asked ≡ s.asked)
  idle_pinger_runs-IsLone k [] s v pool late = (s, refl, v, pool, refl)
  idle_pinger_runs-IsLone k ((f, later) ∷ times) s v pool late =
      let taken : Net = record s { pingers = [] } in
      let lone : IsLone (block k) taken = record {
        sockets = v.sockets;
        servermodel = v.servermodel;
        possible = v.possible;
      } in
      let (w, e, lone_w, pool_w, asked_w, silent) =
        idle_pinger-IsLone k f later taken lone late.0 in
      let later_on =
        subst (λ n. All (λ (t : ℕ × ℕ). n + pong_time < t.0) times) (sym silent) late.1 in
      let (u, runs, lone_u, pool_u, asked_u) =
        idle_pinger_runs-IsLone k times w lone_w pool_w later_on in
      (u, rw (e, ◌>>=◌) runs, lone_u, pool_u, asked_u ∙ asked_w)

-- ===== src/Net/Dropping.antt =====
-- The job idle_pinger and the drop of a servlet, pingu/socket.c: what they keep of another servlet,
-- and of one that answers.
use misc_uni_stuff.Base.{
  ℕ, ◌+◌, ◌≡◌, ◌≤◌, ◌<◌, refl, ap, sym, ◌∙◌, subst, arith, [], ◌∷◌, ◌++◌, true, false, ◌==◌,
  if◌then◌else◌, Bool-cases, Result-cases, inl, inr, ok, ltb, length,
}
use misc_uni_stuff.Host.{Host}
use misc_uni_stuff.Glib.{Slist, Gpointer, null, list_node, block, same_pointer}
use misc_uni_stuff.Packet.{pong_time}
use misc_uni_stuff.Net.{
  Net, deref, transmit, look_for_new_servers, drop_servlet, ping_if_due, idle_pinger,
}
use misc_uni_stuff.Net.Pointers.{same_pointer_refl, same_pointer→eq, count, one_if, count-remove}
use misc_uni_stuff.Net.Lookup.{first_match_same, first_match-remove}
use misc_uni_stuff.Net.Invariant.{IsNetBut, count-list_node}
use misc_uni_stuff.Net.Sending.{lists-IsNetBut, ping_if_due_lists, idle_pinger_end}
use misc_uni_stuff.Net.Staying.{Stays, Stays-trans, same-Stays, looks-Stays}

module _ ⦃g : Slist⦄ ⦃h : Host⦄ where
  ping_if_due-client :
      (p : Gpointer) (k f later : ℕ) (s w : Net)
      → ping_if_due p f later s ≡ ok w
      → ((w.cell k).client ≡ (s.cell k).client) × ((w.cell k).lastponged ≡ (s.cell k).lastponged)
  unfolding ping_if_due transmit
  ping_if_due-client null k f later s w e = ground arith
  ping_if_due-client list_node k f later s w e = ground arith
  ping_if_due-client (block j) k f later s w e = ground arith

  abbrev left : Gpointer → Net → Net
  left p w = record w { servermodel = g.remove w.sockets p; sockets = g.remove w.sockets p }

  drop_servlet-left :
      (p : Gpointer) (w : Net)
      → w.servermodel ≡ w.sockets
      → drop_servlet p w
        ≡ (if length (g.remove w.sockets p) == 0 then look_for_new_servers (left p w) else left p w)
  unfolding drop_servlet
  drop_servlet-left p w e = rw (e, g.len_lem (g.remove w.sockets p)) refl

  -- Dropping another server: its own entry goes.
  drop_servlet-Stays :
      (p : Gpointer) (k : ℕ) (w : Net)
      → IsNetBut p w
      → same_pointer p (block k) ≡ false
      → Stays k (w.cell k).lastponged w (drop_servlet p w)
  drop_servlet-Stays p k w v other =
      let known : 0 < count p w.sockets =
        omega (arith, v.pinged p, ap one_if (same_pointer_refl p)) in
      let kept = count-remove (block k) p w.sockets known in
      let pong = (w.cell k).lastponged in
      let fewer : Stays k pong w (left p w) = record {
        address = refl;
        entries = omega (arith, kept, ap one_if other);
        ponged = refl;
        found = λ a e.
            first_match_same w (left p w) a (g.remove w.sockets p) (λ j. refl)
            ∙ first_match-remove w a w.sockets (block k) p other e;
      } in
      let none_listed = count-list_node w.free w.possible_servers v.possible in
      subst (Stays k pong w) (sym (drop_servlet-left p w v.sync))
        (elim (Bool-cases (length (g.remove w.sockets p) == 0)) [
          | inl empty ↦ rw empty (Stays-trans fewer (looks-Stays k (left p w) none_listed))
          | inr more ↦ rw more fewer
        ])

  not_late :
      (p : Gpointer) (k f : ℕ) (s : Net)
      → ltb ((deref s p).lastponged + pong_time) f ≡ true
      → (same_pointer p (block k) ≡ true → f ≤ (s.cell k).lastponged + pong_time)
      → same_pointer p (block k) ≡ false
  not_late p k f s late answered = elim (Bool-cases (same_pointer p (block k))) [
    | inl e ↦
        let in_time = answered e in
        let own = ap (λ q. (deref s q).lastponged) (same_pointer→eq p (block k) e) in
        absurd (ground (arith, late, in_time, own))
    | inr e ↦ e
  ]

  pub idle_pinger-Stays :
      (p : Gpointer) (k f later : ℕ) (s u : Net)
      → IsNetBut p s
      → idle_pinger p f later s ≡ ok u
      → (same_pointer p (block k) ≡ true → f ≤ (s.cell k).lastponged + pong_time)
      → Stays k (s.cell k).lastponged s u
  idle_pinger-Stays p k f later s u v run answered = elim (Result-cases (ping_if_due p f later s)) [
    | inl (w, e) ↦
        let lists = ping_if_due_lists p f later s w e in
        let client : (j : ℕ) → (w.cell j).client ≡ (s.cell j).client =
          λ j. (ping_if_due-client p j f later s w e).0 in
        let pong = (ping_if_due-client p k f later s w e).1 in
        let again : Net = record w { pingers = w.pingers ++ p ∷ [] } in
        subst (λ t. Stays k t s u) pong
          (subst (Stays k (w.cell k).lastponged s) (sym (idle_pinger_end p f later s w u e run))
            (elim (Bool-cases (ltb ((deref s p).lastponged + pong_time) f)) [
              | inl late ↦ rw late (
                  Stays-trans (same-Stays k s w client lists.0) (
                    drop_servlet-Stays p k w (lists-IsNetBut s w p lists v)
                      (not_late p k f s late answered)))
              | inr fresh ↦ rw fresh (same-Stays k s again client lists.0)
            ]))
    | inr (x, e) ↦ absurd (unfold idle_pinger in ground (arith, e))
  ]

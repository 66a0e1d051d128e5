-- ===== src/Net/Pinger.antt =====
-- One run of the job idle_pinger, pingu/socket.c.
use misc_uni_stuff.Base.{
  ℕ, ◌+◌, ◌≡◌, refl, ap, ap₂, sym, ◌∙◌, arith, List, [], ◌∷◌, ◌++◌, Bool, true, false, ◌||◌, ◌==◌,
  ltb, if◌then◌else◌, Bool-cases, inl, inr, take, append-nil, ok, length,
}
use misc_uni_stuff.Host.{Host}
use misc_uni_stuff.Glib.{Slist, Gpointer, null, list_node, block}
use misc_uni_stuff.Packet.{SockaddrIn, fillin_packet, request_ping, ping_time, pong_time}
use misc_uni_stuff.Packet.Wire.{datagram_of}
use misc_uni_stuff.Net.{Net, Servlet, deref, assign, drop_servlet, ping_if_due, idle_pinger}
use misc_uni_stuff.Net.Invariant.{IsNetBut, count-list_node}
use misc_uni_stuff.Net.Sending.{SameLists, ping_if_due_lists}
use misc_uni_stuff.Net.Pointers.{count}
use misc_uni_stuff.Net.Lookout.{look_for_new_servers-started}
use misc_uni_stuff.Net.Replies.{sending, transmit-fillin_packet}

-- Never pinged, or not for more than five seconds.
abbrev pub is_due : Servlet → ℕ → Bool
is_due v f = v.lastpinged == 0 || ltb (v.lastpinged + ping_time) f

-- No pong for more than thirty seconds.
abbrev pub is_late : Servlet → ℕ → Bool
is_late v f = ltb (v.lastponged + pong_time) f

module _ ⦃g : Slist⦄ ⦃h : Host⦄ where
  abbrev pub ping_datagrams : Servlet → ℕ → List (SockaddrIn × List ℕ)
  ping_datagrams v f =
      if is_due v f then (v.client, datagram_of h (fillin_packet request_ping 0 0) []) ∷ [] else []

  assign_sent : (s : Net) (p : Gpointer) (v : Servlet) → (assign s p v).sent ≡ s.sent
  assign_sent s null v = refl
  assign_sent s list_node v = refl
  assign_sent s (block k) v = refl

  pub ping_if_due-datagrams :
      (p : Gpointer) (f later : ℕ) (s : Net)
      → (w : Net) × (ping_if_due p f later s ≡ ok w)
        × (w.sent ≡ s.sent ++ ping_datagrams (deref s p) f)
  unfolding ping_if_due
  ping_if_due-datagrams p f later s = elim (Bool-cases (is_due (deref s p) f)) [
    | inl due ↦
        let w : Net = sending s (s.sent ++ ping_datagrams (deref s p) f) in
        (
          assign w p (record (deref w p) { lastpinged = later }),
          ground (
            arith,
            transmit-fillin_packet (deref s p).client request_ping 0 0 [] s (omega arith) refl,
          ),
          assign_sent w p (record (deref w p) { lastpinged = later }),
        )
    | inr early ↦ (s, ground arith, ground (arith, append-nil s.sent))
  ]

  abbrev pub left_over : Gpointer → Net → List Gpointer
  left_over p s = g.remove s.sockets p

  -- The servlets that are started when the last server is dropped.
  abbrev pub fallback : Gpointer → Net → List Gpointer
  fallback p s = if length (left_over p s) == 0 then take 6 s.possible_servers else []

  drop_servlet-effect :
      (p : Gpointer) (w : Net)
      → w.servermodel ≡ w.sockets
      → count list_node w.possible_servers ≡ 0
      → ((drop_servlet p w).sockets ≡ left_over p w ++ fallback p w)
        × ((drop_servlet p w).pingers ≡ w.pingers ++ fallback p w)
        × ((drop_servlet p w).sent ≡ w.sent)
  unfolding drop_servlet
  drop_servlet-effect p w e none_listed = elim (Bool-cases (length (left_over p w) == 0)) [
    | inl empty ↦
        rw
          (
            e,
            g.len_lem (left_over p w),
            empty,
            look_for_new_servers-started
                (record w { servermodel = left_over p w; sockets = left_over p w }) none_listed,
          )
          (refl, refl, refl)
    | inr more ↦
        rw (e, g.len_lem (left_over p w), more)
          (sym (append-nil (left_over p w)), sym (append-nil w.pingers), refl)
  ]

  -- What one run of the job leaves: the ping, and the lists.
  pub record Ran (p : Gpointer) (f : ℕ) (s u : Net) : Type 0 where
    pub sent : u.sent ≡ s.sent ++ ping_datagrams (deref s p) f
    pub kept :
        is_late (deref s p) f ≡ false → (u.sockets ≡ s.sockets) × (u.pingers ≡ s.pingers ++ p ∷ [])
    pub dropped :
        is_late (deref s p) f ≡ true
        → (u.sockets ≡ left_over p s ++ fallback p s) × (u.pingers ≡ s.pingers ++ fallback p s)

  Ran-end :
      (p : Gpointer) (f later : ℕ) (s w u : Net)
      → IsNetBut p s
      → ping_if_due p f later s ≡ ok w
      → w.sent ≡ s.sent ++ ping_datagrams (deref s p) f
      → u ≡ (
          if is_late (deref s p) f
          then drop_servlet p w
          else record w { pingers = w.pingers ++ p ∷ [] })
      → Ran p f s u
  Ran-end p f later s w u v e sent end = record {
    sent = elim (Bool-cases (is_late (deref s p) f)) [
      | inl late ↦ rw (end, late) (effect.2 ∙ sent)
      | inr fresh ↦ rw (end, fresh) sent
    ];
    kept = λ fresh. rw (end, fresh) (lists.0, ap (λ x. x ++ p ∷ []) lists.2);
    dropped = λ late.
        rw (end, late)
          (
            effect.0
                ∙ ap₂ (λ x y. g.remove x p ++ (if length (g.remove x p) == 0 then take 6 y else []))
                    lists.0 lists.3,
            effect.1
                ∙ ap₂ (λ x y. x ++ y) lists.2
                    (ap₂ (λ x y. if length (g.remove x p) == 0 then take 6 y else []) lists.0
                      lists.3),
          );
  }
    where
      lists : SameLists p s w
      lists = ping_if_due_lists p f later s w e

      effect :
          ((drop_servlet p w).sockets ≡ left_over p w ++ fallback p w)
          × ((drop_servlet p w).pingers ≡ w.pingers ++ fallback p w)
          × ((drop_servlet p w).sent ≡ w.sent)
      effect =
          drop_servlet-effect p w (lists.1 ∙ v.sync ∙ sym lists.0)
            (ap (count list_node) lists.3 ∙ count-list_node s.free s.possible_servers v.possible)

  -- The job never fails. It pings a server that was never pinged or not for more than five seconds;
  -- if the server sent no pong for more than thirty seconds it takes one entry of it off the list
  -- and out of the pool, and if no server is left starts up to six possible ones; otherwise the job
  -- goes back to the pool.
  pub idle_pinger-Ran :
      (p : Gpointer) (f later : ℕ) (s : Net)
      → IsNetBut p s
      → (u : Net) × (idle_pinger p f later s ≡ ok u) × Ran p f s u
  unfolding idle_pinger
  idle_pinger-Ran p f later s v =
      let (w, e, sent) = ping_if_due-datagrams p f later s in
      let u : Net =
        if is_late (deref s p) f
        then drop_servlet p w
        else record w { pingers = w.pingers ++ p ∷ [] } in
      (
        u,
        ground (arith, e, ping_if_due_lists p f later s w e),
        Ran-end p f later s w u v e sent refl,
      )

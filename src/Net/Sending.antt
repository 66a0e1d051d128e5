-- ===== src/Net/Sending.antt =====
-- Steps that only send, and the job that pings, pingu/socket.c: they keep the invariant of the
-- tables.
use misc_uni_stuff.Base.{
  ℕ, ◌+◌, ◌≡◌, ap, sym, ◌∙◌, arith, List, [], ◌∷◌, ◌++◌, ltb, if◌then◌else◌, Bool-cases, inl, inr,
  ok, Result-cases,
}
use misc_uni_stuff.Host.{Host}
use misc_uni_stuff.Glib.{Slist, Gpointer, null, list_node, block}
use misc_uni_stuff.Packet.{Packet, SockaddrIn, pong_time}
use misc_uni_stuff.Net.{Net, deref, transmit, drop_servlet, ping_if_due, idle_pinger}
use misc_uni_stuff.Net.Pointers.{count-snoc}
use misc_uni_stuff.Net.Invariant.{IsNet, IsNetBut, drop_servlet-IsNet}

module _ ⦃g : Slist⦄ ⦃h : Host⦄ where
  -- A step that changes nothing but the datagrams sent.
  abbrev pub OnlySends : Net → Net → Type 0
  OnlySends s u = u ≡ record s { sent = u.sent }

  pub transmit-OnlySends :
      (addr : SockaddrIn) (p : Packet) (d : List ℕ) (s u : Net)
      → transmit addr p d s ≡ ok u
      → OnlySends s u
  unfolding transmit
  transmit-OnlySends addr p d s u e = ground arith

  pub OnlySends-trans : (s u w : Net) → OnlySends s u → OnlySends u w → OnlySends s w
  OnlySends-trans s u w a b = b ∙ ap (λ (x : Net). record x { sent = w.sent }) a

  pub sent-IsNet : (s u : Net) → OnlySends s u → IsNet s → IsNet u
  sent-IsNet s u e v =
      rw e (record { sync = v.sync; pinged = v.pinged; sockets = v.sockets; possible = v.possible })

  -- Sending a ping stamps the servlet, and changes no list.
  abbrev pub SameLists : Gpointer → Net → Net → Type 0
  SameLists p s u =
      (u.sockets ≡ s.sockets)
      × (u.servermodel ≡ s.servermodel)
      × (u.pingers ≡ s.pingers)
      × (u.possible_servers ≡ s.possible_servers)
      × (u.free ≡ s.free)
      × ((deref u p).lastponged ≡ (deref s p).lastponged)

  pub ping_if_due_lists :
      (p : Gpointer) (f later : ℕ) (s u : Net) → ping_if_due p f later s ≡ ok u → SameLists p s u
  unfolding ping_if_due transmit
  ping_if_due_lists null f later s u e = ground arith
  ping_if_due_lists list_node f later s u e = ground arith
  ping_if_due_lists (block k) f later s u e = ground arith

  pub lists-IsNetBut : (s u : Net) (p : Gpointer) → SameLists p s u → IsNetBut p s → IsNetBut p u
  lists-IsNetBut s u p l v = record {
    sync = l.1 ∙ v.sync ∙ sym l.0;
    pinged = λ q. rw (l.0, l.2) (v.pinged q);
    sockets = rw (l.0, l.4) v.sockets;
    possible = rw (l.3, l.4) v.possible;
  }

  pub repushed-IsNet :
      (s : Net) (p : Gpointer) → IsNetBut p s → IsNet (record s { pingers = s.pingers ++ p ∷ [] })
  repushed-IsNet s p v = record {
    sync = v.sync;
    pinged = λ q. omega (arith, v.pinged q, count-snoc q p s.pingers);
    sockets = v.sockets;
    possible = v.possible;
  }

  pub idle_pinger_end :
      (p : Gpointer) (f later : ℕ) (s w u : Net)
      → ping_if_due p f later s ≡ ok w
      → idle_pinger p f later s ≡ ok u
      → u ≡ (
          if ltb ((deref s p).lastponged + pong_time) f
          then drop_servlet p w
          else record w { pingers = w.pingers ++ p ∷ [] })
  unfolding idle_pinger
  idle_pinger_end p f later s w u e e' = ground (arith, ping_if_due_lists p f later s w e)

  pub idle_pinger-IsNet :
      (p : Gpointer) (f later : ℕ) (s u : Net)
      → idle_pinger p f later s ≡ ok u
      → IsNetBut p s
      → IsNet u
  idle_pinger-IsNet p f later s u e v = elim (Result-cases (ping_if_due p f later s)) [
    | inl (w, e') ↦
        let w_ok = lists-IsNetBut s w p (ping_if_due_lists p f later s w e') v in
        rw (idle_pinger_end p f later s w u e' e)
          (elim (Bool-cases (ltb ((deref s p).lastponged + pong_time) f)) [
            | inl late ↦ rw late (drop_servlet-IsNet w p w_ok)
            | inr fresh ↦ rw fresh (repushed-IsNet w p w_ok)
          ])
    | inr (x, e') ↦ absurd (unfold idle_pinger in ground (arith, e'))
  ]

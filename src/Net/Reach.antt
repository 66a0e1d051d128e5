-- ===== src/Net/Reach.antt =====
-- Any order of the handlers that touch the table of servers, pingu/socket.c.
use misc_uni_stuff.Base.{
  ℕ, suc, ◌≡◌, refl, ap, subst, arith, List, [], ◌∷◌, ◌++◌, All-append, Bool-cases, Option-cases,
  ◌⊎◌, inl, inr, Option, none, some, is_zero, not, Result, ok, ◌>>=◌, Result-cases, ok-injective,
  drop,
}
use misc_uni_stuff.Host.{Host, load16, load32}
use misc_uni_stuff.Glib.{Slist, Gpointer, block}
use misc_uni_stuff.Packet.{Packet, SockaddrIn, FullPacket}
use misc_uni_stuff.Net.{
  Net, no_servlet, look_for_new_servers, deref, cmp_at, slist_data, upstream_address, add_possible,
  transmit, check_add_server, idle_pinger, generate_reply_servers, send_each, send_each_except,
  send_to_all, send_to_all_except, add_upstream_server, do_connection, new_servlet,
  new_servlet_real, new_servlet_startup,
}
use misc_uni_stuff.Net.Pointers.{count, count-append}
use misc_uni_stuff.Net.Known.{with_new}
use misc_uni_stuff.Net.Lookup.{IsServlet}
use misc_uni_stuff.Net.Replies.{generate_reply_servers-sent}
use misc_uni_stuff.Net.Invariant.{
  IsNet, IsNetBut, check_add_server-IsNet, IsServlet-suc, look_for_new_servers-IsNet,
  with_new-IsNet,
}
use misc_uni_stuff.Net.Sending.{
  OnlySends, transmit-OnlySends, OnlySends-trans, sent-IsNet, idle_pinger-IsNet,
}

module _ ⦃g : Slist⦄ ⦃h : Host⦄ where
  -- A run that succeeds only sends.
  abbrev pub Sends : Net → Result Net → Type 0
  Sends s r = (u : Net) → r ≡ ok u → OnlySends s u

  send_each-Sends :
      (p : Packet) (d : List ℕ) (l : List Gpointer) (s : Net) → Sends s (send_each p d l s)
  unfolding send_each
  send_each-Sends p d [] s u e = ground arith
  send_each-Sends p d (q ∷ l) s u e = elim (Result-cases (transmit (deref s q).client p d s)) [
    | inl (w, t) ↦
        OnlySends-trans s w u (transmit-OnlySends (deref s q).client p d s w t)
          (send_each-Sends p d l w u (rw (t, ◌>>=◌) at e))
    | inr (x, t) ↦ absurd (ground arith)
  ]

  send_each_except-Sends :
      (addr : SockaddrIn) (p : Packet) (d : List ℕ) (l : List Gpointer) (s : Net)
      → Sends s (send_each_except addr p d l s)
  unfolding send_each_except
  send_each_except-Sends addr p d [] s u e = ground arith
  send_each_except-Sends addr p d (q ∷ l) s u e =
      elim (Bool-cases (not (is_zero (cmp_at s q addr)))) [
        | inl other ↦ elim (Result-cases (transmit (deref s q).client p d s)) [
          | inl (w, t) ↦
              OnlySends-trans s w u (transmit-OnlySends (deref s q).client p d s w t)
                (send_each_except-Sends addr p d l w u (ground arith))
          | inr (x, t) ↦ absurd (ground arith)
        ]
        | inr same ↦ send_each_except-Sends addr p d l s u (ground arith)
      ]

  pub send_to_all_except-Sends :
      (addr : SockaddrIn) (p : Packet) (d : List ℕ) (s : Net)
      → Sends s (send_to_all_except addr p d s)
  unfolding send_to_all_except
  send_to_all_except-Sends addr p d s u e = send_each_except-Sends addr p d s.sockets s u e

  pub send_to_all-Sends : (p : Packet) (d : List ℕ) (s : Net) → Sends s (send_to_all p d s)
  unfolding send_to_all
  send_to_all-Sends p d s u e = send_each-Sends p d s.sockets s u e

  pub generate_reply_servers-Sends :
      (k : FullPacket) (s : Net) → Sends s (generate_reply_servers k s)
  generate_reply_servers-Sends k s u e = ground (arith, generate_reply_servers-sent k s)

  new_servlet-IsNet :
      (s : Net) (source : SockaddrIn) (now : ℕ) → IsNet s → IsNet (new_servlet s source now).0
  unfolding new_servlet new_servlet_real new_servlet_startup
  new_servlet-IsNet s source now v =
      rw (g.append_lem s.sockets (block s.free)) (with_new_fields (with_new-IsNet s source now v))
    where
      with_new_fields : IsNet (with_new s source now) → IsNet (with_new s source now)
      with_new_fields w = w

  pub new_servlet_real-IsNet :
      (s : Net) (a : SockaddrIn) (now : ℕ) → IsNet s → IsNet (new_servlet_real s a now).0
  unfolding new_servlet_real
  new_servlet_real-IsNet s a now v = record {
    sync = v.sync;
    pinged = v.pinged;
    sockets = IsServlet-suc s.free s.sockets v.sockets;
    possible = IsServlet-suc s.free s.possible_servers v.possible;
  }

  pub do_connection-IsNet :
      (s u : Net) (resolved : Option ℕ) (now : ℕ)
      → do_connection s resolved now ≡ ok u
      → IsNet s
      → IsNet u
  unfolding do_connection
  do_connection-IsNet s u none now e v = cc
  do_connection-IsNet s u (some address) now e v =
      subst IsNet (ok-injective e) (new_servlet-IsNet s _ now v)

  add_possible-IsNet :
      (s : Net) (a : SockaddrIn) (now : ℕ)
      → IsNet s
      → IsNet (add_possible (new_servlet_real s a now))
  unfolding new_servlet_real
  add_possible-IsNet s a now v = rw (g.append_lem s.possible_servers (block s.free)) (record {
    sync = v.sync;
    pinged = v.pinged;
    sockets = IsServlet-suc s.free s.sockets v.sockets;
    possible =
        All-append (IsServlet (suc s.free)) s.possible_servers (block s.free ∷ [])
          (IsServlet-suc s.free s.possible_servers v.possible) (omega arith, tt);
  })

  -- What a packet that can be read makes of the possible servers.
  pub add_upstream_server-cases :
      (k : FullPacket) (now : ℕ) (s u : Net)
      → add_upstream_server k now s ≡ ok u
      → (s ≡ u) ⊎ ((a : SockaddrIn) × (add_possible (new_servlet_real s a now) ≡ u))
  unfolding add_upstream_server
  add_upstream_server-cases k now s u e = elim (Result-cases (load16 h.order (drop 4 k.payload))) [
    | inr (x, e1) ↦ absurd (ground arith)
    | inl (port, e1) ↦ elim (Result-cases (load32 h.order k.payload)) [
      | inr (x, e2) ↦ absurd (ground arith)
      | inl (address, e2) ↦
          let i = upstream_address port address in
          elim (Option-cases (slist_data (g.find_custom s.possible_servers i (cmp_at s)))) [
            | inr (m, e3) ↦ inl (ground arith)
            | inl e3 ↦ inr (i, ground arith)
          ]
    ]
  ]

  pub add_upstream_server-IsNet :
      (k : FullPacket) (now : ℕ) (s u : Net)
      → add_upstream_server k now s ≡ ok u
      → IsNet s
      → IsNet u
  add_upstream_server-IsNet k now s u e v = elim (add_upstream_server-cases k now s u e) [
    | inl same ↦ subst IsNet same v
    | inr (a, new) ↦ subst IsNet new (add_possible-IsNet s a now v)
  ]

  -- The handlers, in any order. A job leaves the pool when a thread takes it.
  pub data Step (s u : Net) : Type 0 where
    hears :
        (source : SockaddrIn) (now later : ℕ) → u ≡ check_add_server s source now later → Step s u
    learns : (k : FullPacket) (now : ℕ) → add_upstream_server k now s ≡ ok u → Step s u
    connects : (resolved : Option ℕ) (now : ℕ) → do_connection s resolved now ≡ ok u → Step s u
    answers : (k : FullPacket) → generate_reply_servers k s ≡ ok u → Step s u
    forwards :
        (a : SockaddrIn) (p : Packet) (d : List ℕ) → send_to_all_except a p d s ≡ ok u → Step s u
    broadcasts : (p : Packet) (d : List ℕ) → send_to_all p d s ≡ ok u → Step s u
    sends : (a : SockaddrIn) (p : Packet) (d : List ℕ) → transmit a p d s ≡ ok u → Step s u
    looks : u ≡ look_for_new_servers s → Step s u
    pings :
        (before after : List Gpointer) (p : Gpointer) (f later : ℕ)
        → s.pingers ≡ before ++ p ∷ after
        → idle_pinger p f later (record s { pingers = before ++ after }) ≡ ok u
        → Step s u

  pub data Reach (s : Net) : Net → Type 0 where
    here : Reach s s
    next : {u w : Net} → Reach s u → Step u w → Reach s w

  pub taken-IsNetBut :
      (s : Net) (before after : List Gpointer) (p : Gpointer)
      → s.pingers ≡ before ++ p ∷ after
      → IsNet s
      → IsNetBut p (record s { pingers = before ++ after })
  taken-IsNetBut s before after p e v = record {
    sync = v.sync;
    pinged = λ q. omega (
      arith,
      v.pinged q,
      ap (count q) e,
      count-append q before (p ∷ after),
      count-append q before after,
    );
    sockets = v.sockets;
    possible = v.possible;
  }

  pub Step-IsNet : {s u : Net} → Step s u → IsNet s → IsNet u
  Step-IsNet {s} (hears source now later e) v = rw e (check_add_server-IsNet s source now later v)
  Step-IsNet {s} {u} (learns k now e) v = add_upstream_server-IsNet k now s u e v
  Step-IsNet {s} {u} (connects resolved now e) v = do_connection-IsNet s u resolved now e v
  Step-IsNet {s} {u} (answers k e) v = sent-IsNet s u (generate_reply_servers-Sends k s u e) v
  Step-IsNet {s} {u} (forwards a p d e) v = sent-IsNet s u (send_to_all_except-Sends a p d s u e) v
  Step-IsNet {s} {u} (broadcasts p d e) v = sent-IsNet s u (send_to_all-Sends p d s u e) v
  Step-IsNet {s} {u} (sends a p d e) v = sent-IsNet s u (transmit-OnlySends a p d s u e) v
  Step-IsNet {s} (looks e) v = rw e (look_for_new_servers-IsNet s v)
  Step-IsNet {s} {u} (pings before after p f later e run) v =
      idle_pinger-IsNet p f later (record s { pingers = before ++ after }) u run
        (taken-IsNetBut s before after p e v)

  -- The state before setup_sockets, with socket `fd`.
  abbrev pub start : ℕ → Net
  start fd = record {
    cell = λ k. no_servlet;
    free = 0;
    sockets = [];
    servermodel = [];
    possible_servers = [];
    pingers = [];
    listening = fd;
    sent = [];
    asked = 0;
  }

  Reach-IsNet_from : {s u : Net} → IsNet s → Reach s u → IsNet u
  Reach-IsNet_from v here = v
  Reach-IsNet_from v (next r st) = Step-IsNet st (Reach-IsNet_from v r)

  -- Whatever the order of packets, pings, timeouts and connections: the window shows the known
  -- servers, a server has a ping job for each of its entries and none when it is dropped, and the
  -- lists hold allocated servlets only.
  pub Reach-IsNet : (fd : ℕ) (u : Net) → Reach (start fd) u → IsNet u
  Reach-IsNet fd u r =
      Reach-IsNet_from (record { sync = refl; pinged = λ p. refl; sockets = tt; possible = tt }) r

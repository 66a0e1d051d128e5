-- ===== src/Dispatch/Greeting.antt =====
-- A ping and the answers to it, between two hosts of any byte orders: the handlers of apply_packet
-- that keep the tables of servers, pingu/socket.c.
use misc_uni_stuff.Base.{
  ℕ, ◌^◌, ◌≡◌, ◌<◌, refl, ap, ◌∙◌, arith, List, [], ◌∷◌, ◌++◌, All, map, ◌==◌, if◌then◌else◌, some,
  Bool-cases, inl, inr, ok, ◌>>=◌, length,
}
use misc_uni_stuff.Host.{Host, store32}
use misc_uni_stuff.Glib.{Slist, Gtree, Gpointer}
use misc_uni_stuff.Packet.{
  FullPacket, SockaddrIn, fillin_packet, read_packet, recvfrom, request_ping, reply_servers,
  reply_noservers,
}
use misc_uni_stuff.Packet.Wire.{datagram_of, cross}
use misc_uni_stuff.Net.{Net, deref, find_servlet, check_add_server}
use misc_uni_stuff.Net.Known.{IsKnown, check_add_server-IsKnown}
use misc_uni_stuff.Net.Invariant.{IsNet, check_add_server-IsNet}
use misc_uni_stuff.Net.Replies.{
  sending, others, server_reply, noservers_reply, address_bytes, length-address_bytes,
  length-store32, generate_reply_servers-sent,
}
use misc_uni_stuff.Net.Upstream.{add_upstream_server-Learned}
use misc_uni_stuff.Request.{compare_func}
use misc_uni_stuff.Search.{Glob}
use misc_uni_stuff.Dispatch.{World, Calls, with_net, apply_packet}
use misc_uni_stuff.Dispatch.Receive.{ours, receive}
use misc_uni_stuff.Dispatch.Switch.{
  apply_packet-ping, apply_packet-reply_servers, apply_packet-reply_noservers,
}

module _ ⦃h : Host⦄ ⦃g : Slist⦄ where
  -- The answers to a ping.
  abbrev pub replies : FullPacket → Net → List (SockaddrIn × List ℕ)
  replies k s =
      if length (others s k.addr s.sockets) == 0
      then noservers_reply k s.listening ∷ []
      else map (server_reply k) (others s k.addr s.sockets)

  replies_exist :
      (k : FullPacket) (s : Net) (l : List SockaddrIn)
      → others s k.addr s.sockets ≡ l
      → 0 < length (replies k s)
  replies_exist k s [] e = rw e (omega arith)
  replies_exist k s (x ∷ l) e = rw e (ground arith)

  replies-All :
      (P : SockaddrIn × List ℕ → Type 0) (k : FullPacket) (s : Net)
      → P (noservers_reply k s.listening)
      → ((x : SockaddrIn) → P (server_reply k x))
      → All P (replies k s)
  replies-All P k s none_known each = elim (Bool-cases (length (others s k.addr s.sockets) == 0)) [
    | inl e ↦ rw e (none_known, tt)
    | inr e ↦ rw e (map_All (others s k.addr s.sockets))
  ]
    where
      map_All : (l : List SockaddrIn) → All P (map (server_reply k) l)
      map_All [] = tt
      map_All (x ∷ l) = (each x, map_All l)

module _ ⦃g : Slist⦄ ⦃t : Gtree compare_func⦄ ⦃m : Glob⦄ (a b : Host) where
  -- The ping of `a` as `b` reads it.
  abbrev pub ping_from : SockaddrIn → FullPacket
  ping_from from = ours ⦃h = b⦄ request_ping 0 (cross a.order b.order 0) [] from

  -- While the table of servers is well formed, a ping that is received, from a host of any byte
  -- order and over any buffer, makes its sender a known server, and is answered: at least one
  -- datagram goes out, and all that go out go to the sender.
  pub apply_packet-greeting :
      (c : Calls) (w : World t.Tree) (buffer : List ℕ) (from : SockaddrIn)
      → IsNet w.transfers.net
      → (u : Net) × IsKnown w.transfers.net from c.later u
        × ((read_packet ⦃h = b⦄
                (recvfrom buffer (datagram_of a (fillin_packet ⦃h = a⦄ request_ping 0 0) []))
                from
              >>= λ p. apply_packet ⦃h = b⦄ c p w)
            ≡ ok (with_net w (sending u (u.sent ++ replies ⦃h = b⦄ (ping_from from) u))))
        × (0 < length (replies ⦃h = b⦄ (ping_from from) u))
        × All (λ r. r.0 ≡ from) (replies ⦃h = b⦄ (ping_from from) u)
  apply_packet-greeting c w buffer from v =
      let net = w.transfers.net in
      let u = check_add_server net from c.now c.later in
      let k = ping_from from in
      (
        u,
        check_add_server-IsKnown net from c.now c.later v.sockets,
        rw
            (
              receive a b request_ping 0 0 [] buffer from (omega arith) (omega arith) refl,
              apply_packet-ping ⦃h = b⦄ c w 0 (cross a.order b.order 0) [] from,
              generate_reply_servers-sent ⦃h = b⦄ k u,
            )
            refl,
        replies_exist ⦃h = b⦄ k u (others u from u.sockets) refl,
        replies-All ⦃h = b⦄ (λ r. r.0 ≡ from) k u refl (λ x. refl),
      )

  -- What `b` makes of a datagram from `a`: no fault, and the sender is a known server whose pong
  -- has come.
  abbrev pub Welcome : Calls → World t.Tree → List ℕ → SockaddrIn → SockaddrIn × List ℕ → Type 0
  Welcome c w buffer from r =
      (u : World t.Tree) × (entry : Gpointer) × ((read_packet ⦃h = b⦄ (recvfrom buffer r.1) from
          >>= λ p. apply_packet ⦃h = b⦄ c p w)
        ≡ ok u)
      × (find_servlet u.transfers.net from ≡ some entry)
      × ((deref u.transfers.net entry).lastponged ≡ c.later)

  -- While the table of servers of `b` is well formed, each answer that `a` gives to a ping whose
  -- handle has 16 bits is understood by `b`, over any buffer, and makes `a` a known server of `b`
  -- whose pong has just come.
  pub replies-Welcome :
      (c : Calls) (w : World t.Tree) (buffer : List ℕ) (from : SockaddrIn) (k : FullPacket)
      (s : Net)
      → IsNet w.transfers.net
      → k.packet.request_handle < 2 ^ 16
      → All (Welcome c w buffer from) (replies ⦃h = a⦄ k s)
  replies-Welcome c w buffer from k s v small =
      replies-All ⦃h = a⦄ (Welcome c w buffer from) k s no_servers server
    where
      net : Net
      net = check_add_server w.transfers.net from c.now c.later

      known : IsKnown w.transfers.net from c.later net
      known = check_add_server-IsKnown w.transfers.net from c.now c.later v.sockets

      net-IsNet : IsNet net
      net-IsNet = check_add_server-IsNet w.transfers.net from c.now c.later v

      no_servers : Welcome c w buffer from (noservers_reply ⦃h = a⦄ k s.listening)
      no_servers =
          let d = store32 a.order s.listening in
          (
            with_net w net,
            known.entry,
            rw
                (receive a b reply_noservers 4 k.packet.request_handle d buffer from (omega arith)
                  small (length-store32 ⦃h = a⦄ s.listening))
                (apply_packet-reply_noservers ⦃h = b⦄ c w 4
                  (cross a.order b.order k.packet.request_handle) d from),
            known.found,
            known.stamped,
          )

      server : (x : SockaddrIn) → Welcome c w buffer from (server_reply ⦃h = a⦄ k x)
      server x =
          let d = address_bytes ⦃h = a⦄ x in
          let six = length-address_bytes ⦃h = a⦄ x in
          let handle = cross a.order b.order k.packet.request_handle in
          let p = ours ⦃h = b⦄ reply_servers 6 handle d from in
          let (u, e, learned, keeps) =
            add_upstream_server-Learned ⦃h = b⦄ p c.upstream_now net (omega (arith, six))
              net-IsNet.sockets net-IsNet.possible in
          let (found, same) = keeps from known.entry known.found in
          (
            with_net w u,
            known.entry,
            rw
                (
                  receive a b reply_servers 6 k.packet.request_handle d buffer from (omega arith)
                      small six,
                  apply_packet-reply_servers ⦃h = b⦄ c w 6 handle d from,
                  e,
                )
                refl,
            found,
            ap (λ z. z.lastponged) same ∙ known.stamped,
          )

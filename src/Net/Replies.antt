-- ===== src/Net/Replies.antt =====
-- The datagrams that the handlers of pingu/socket.c send: answers to a ping, and copies to all
-- servers.
use misc_uni_stuff.Base.{
  ℕ, ◌≡◌, ◌<◌, ◌^◌, refl, ap, ◌∙◌, arith, List, [], ◌∷◌, ◌++◌, Bool, true, false, ◌||◌, Bool-cases,
  inl, inr, not, if◌then◌else◌, ◌==◌, map, ok, length, append_assoc, append-nil,
}
use misc_uni_stuff.Host.{Host, store16, store32}
use misc_uni_stuff.Glib.{Slist, Gpointer, null, list_node, block}
use misc_uni_stuff.Packet.{
  Packet, SockaddrIn, FullPacket, fillin_packet, reply_servers, reply_noservers,
}
use misc_uni_stuff.Packet.Wire.{datagram_of, send_packet-datagram_of, fillin_length}
use misc_uni_stuff.Net.{
  Net, deref, transmit, generate_reply_servers_single, generate_reply_servers, send_each,
  send_each_except, send_to_all, send_to_all_except,
}
use misc_uni_stuff.Net.Lookup.{same_host, cmp_sockaddr-zero}

abbrev pub sending : Net → List (SockaddrIn × List ℕ) → Net
sending s x = record s { sent = x }

pub deref-sending :
    (s : Net) (x : List (SockaddrIn × List ℕ)) (p : Gpointer) → deref (sending s x) p ≡ deref s p
deref-sending s x null = refl
deref-sending s x list_node = refl
deref-sending s x (block k) = refl

-- The servers of a list other than the one at `a`.
abbrev pub others : Net → SockaddrIn → List Gpointer → List SockaddrIn
others s a [] = []
others s a (p ∷ l) =
    if same_host (deref s p).client a then others s a l else (deref s p).client ∷ others s a l

module _ ⦃h : Host⦄ where
  -- A packet that is filled in with the size of its data goes out whole.
  pub transmit-fillin_packet :
      (addr : SockaddrIn) (operation datalen request : ℕ) (d : List ℕ) (s : Net)
      → datalen < 2 ^ 16
      → length d ≡ datalen
      → transmit addr (fillin_packet operation datalen request) d s
        ≡ ok (
            sending s
              (s.sent ++ (addr, datagram_of h (fillin_packet operation datalen request) d) ∷ []))
  unfolding transmit
  transmit-fillin_packet addr operation datalen request d s small e = ground (
    arith,
    send_packet-datagram_of h (fillin_packet operation datalen request) d
        (fillin_length h operation datalen request d small e),
  )

  -- The address and port of a servlet as they lie in memory.
  abbrev pub address_bytes : SockaddrIn → List ℕ
  address_bytes a = store32 h.order a.s_addr ++ store16 h.order a.sin_port

  pub length-address_bytes : (a : SockaddrIn) → length (address_bytes a) ≡ 6
  unfolding store32 store16
  length-address_bytes a = ground arith

  pub length-store32 : (x : ℕ) → length (store32 h.order x) ≡ 4
  unfolding store32
  length-store32 x = ground arith

  -- The datagram that tells `k` of one server.
  abbrev pub server_reply : FullPacket → SockaddrIn → SockaddrIn × List ℕ
  server_reply k a = (
    k.addr,
    datagram_of h (fillin_packet reply_servers 6 k.packet.request_handle) (address_bytes a),
  )

  abbrev pub noservers_reply : FullPacket → ℕ → SockaddrIn × List ℕ
  noservers_reply k listening = (
    k.addr,
    datagram_of h (fillin_packet reply_noservers 4 k.packet.request_handle)
        (store32 h.order listening),
  )

module _ ⦃g : Slist⦄ ⦃h : Host⦄ where
  single-reply :
      (k : FullPacket) (j : Gpointer) (s : Net) (x : List (SockaddrIn × List ℕ)) (b : Bool)
      → generate_reply_servers_single k j (ok (sending s x, b)) ≡ (
          if same_host (deref s j).client k.addr
          then ok (sending s x, b)
          else ok (sending s (x ++ server_reply k (deref s j).client ∷ []), true))
  unfolding generate_reply_servers_single
  single-reply k j s x b =
      rw (deref-sending s x j, cmp_sockaddr-zero (deref s j) k.addr)
        (ground (
          arith,
          transmit-fillin_packet k.addr reply_servers 6 k.packet.request_handle
              (address_bytes (deref s j).client) (sending s x) (omega arith)
              (length-address_bytes (deref s j).client),
        ))

  foreach-replies :
      (k : FullPacket) (l : List Gpointer) (s : Net) (x : List (SockaddrIn × List ℕ)) (b : Bool)
      → g.foreach (generate_reply_servers_single k) l (ok (sending s x, b))
        ≡ ok (
          sending s (x ++ map (server_reply k) (others s k.addr l)),
          b || not (length (others s k.addr l) == 0),
        )
  foreach-replies k [] s x b =
      g.foreach-nil (generate_reply_servers_single k) (ok (sending s x, b))
      ∙ ground (arith, append-nil x)
  foreach-replies k (j ∷ l) s x b =
      g.foreach-cons (generate_reply_servers_single k) j l (ok (sending s x, b))
      ∙ ap (g.foreach (generate_reply_servers_single k) l) (single-reply k j s x b)
      ∙ elim (Bool-cases (same_host (deref s j).client k.addr)) [
        | inl asker ↦ rw asker (foreach-replies k l s x b)
        | inr other ↦ rw other (
            foreach-replies k l s (x ++ server_reply k (deref s j).client ∷ []) true
            ∙ ground (
              arith,
              append_assoc x (server_reply k (deref s j).client ∷ [])
                  (map (server_reply k) (others s k.addr l)),
            ))
      ]

  answer :
      (k : FullPacket) (s : Net) (l : List SockaddrIn)
      → others s k.addr s.sockets ≡ l
      → generate_reply_servers k s
        ≡ ok (
            sending s (
              s.sent
              ++ (if length l == 0
                  then noservers_reply k s.listening ∷ []
                  else map (server_reply k) l)))
  unfolding generate_reply_servers
  answer k s [] e =
      rw (foreach-replies k s.sockets s s.sent false, e, append-nil s.sent)
        (transmit-fillin_packet k.addr reply_noservers 4 k.packet.request_handle
          (store32 h.order s.listening) s (omega arith) (length-store32 s.listening))
  answer k s (a ∷ l) e = rw (foreach-replies k s.sockets s s.sent false, e) (ground arith)

  -- An answer to a ping tells the asker of each other known server, in order, in a datagram of its
  -- own; if there is none it says so, in one datagram. Nothing else changes, and the answer cannot
  -- fail.
  pub generate_reply_servers-sent :
      (k : FullPacket) (s : Net)
      → generate_reply_servers k s
        ≡ ok (
            sending s (
              s.sent
              ++ (if length (others s k.addr s.sockets) == 0
                  then noservers_reply k s.listening ∷ []
                  else map (server_reply k) (others s k.addr s.sockets))))
  generate_reply_servers-sent k s = answer k s (others s k.addr s.sockets) refl

  -- Copies to all known servers, or to all but those at one address: the same bytes to each.
  abbrev pub copies : Packet → List ℕ → List SockaddrIn → List (SockaddrIn × List ℕ)
  copies p d l = map (λ a. (a, datagram_of h p d)) l

  unfoldable pub clients : Net → List Gpointer → List SockaddrIn
  clients s [] = []
  clients s (p ∷ l) = (deref s p).client ∷ clients s l

  pub transmit-whole :
      (addr : SockaddrIn) (p : Packet) (d : List ℕ) (s : Net)
      → length d ≡ p.packet_length
      → transmit addr p d s ≡ ok (sending s (s.sent ++ (addr, datagram_of h p d) ∷ []))
  unfolding transmit
  transmit-whole addr p d s e = ground (arith, send_packet-datagram_of h p d e)

  send_each-sent :
      (p : Packet) (d : List ℕ) (l : List Gpointer) (s : Net) (x : List (SockaddrIn × List ℕ))
      → length d ≡ p.packet_length
      → send_each p d l (sending s x) ≡ ok (sending s (x ++ copies p d (clients s l)))
  unfolding send_each clients
  send_each-sent p d [] s x e = ground (arith, append-nil x)
  send_each-sent p d (q ∷ l) s x e =
      rw (deref-sending s x q, transmit-whole (deref s q).client p d (sending s x) e)
        (send_each-sent p d l s (x ++ ((deref s q).client, datagram_of h p d) ∷ []) e
          ∙ ap (λ y. ok (sending s y)) (append_assoc x _ (copies p d (clients s l))))

  send_each_except-sent :
      (a : SockaddrIn) (p : Packet) (d : List ℕ) (l : List Gpointer) (s : Net)
      (x : List (SockaddrIn × List ℕ))
      → length d ≡ p.packet_length
      → send_each_except a p d l (sending s x) ≡ ok (sending s (x ++ copies p d (others s a l)))
  unfolding send_each_except
  send_each_except-sent a p d [] s x e = ground (arith, append-nil x)
  send_each_except-sent a p d (q ∷ l) s x e =
      rw
        (
          deref-sending s x q,
          cmp_sockaddr-zero (deref s q) a,
          transmit-whole (deref s q).client p d (sending s x) e,
        )
        (elim (Bool-cases (same_host (deref s q).client a)) [
          | inl same ↦ rw same (send_each_except-sent a p d l s x e)
          | inr other ↦ rw other (
              send_each_except-sent a p d l s (x ++ ((deref s q).client, datagram_of h p d) ∷ []) e
              ∙ ap (λ y. ok (sending s y)) (append_assoc x _ (copies p d (others s a l))))
        ])

  -- Forwarding a packet whose data has the length in its header sends one copy of it to each known
  -- server but those at the given address, in order, and changes nothing else.
  pub send_to_all_except-sent :
      (a : SockaddrIn) (p : Packet) (d : List ℕ) (s : Net)
      → length d ≡ p.packet_length
      → send_to_all_except a p d s ≡ ok (sending s (s.sent ++ copies p d (others s a s.sockets)))
  unfolding send_to_all_except
  send_to_all_except-sent a p d s e = send_each_except-sent a p d s.sockets s s.sent e

  -- The same after other datagrams.
  pub send_to_all_except-sending :
      (a : SockaddrIn) (p : Packet) (d : List ℕ) (s : Net) (x : List (SockaddrIn × List ℕ))
      → length d ≡ p.packet_length
      → send_to_all_except a p d (sending s x)
        ≡ ok (sending s (x ++ copies p d (others s a s.sockets)))
  unfolding send_to_all_except
  send_to_all_except-sending a p d s x e = send_each_except-sent a p d s.sockets s x e

  -- Broadcasting a packet whose data has the length in its header sends one copy of it to each
  -- known server, in order, and changes nothing else.
  pub send_to_all-sent :
      (p : Packet) (d : List ℕ) (s : Net)
      → length d ≡ p.packet_length
      → send_to_all p d s ≡ ok (sending s (s.sent ++ copies p d (clients s s.sockets)))
  unfolding send_to_all
  send_to_all-sent p d s e = send_each-sent p d s.sockets s s.sent e

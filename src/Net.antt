-- ===== src/Net.antt =====
-- pingu/servlet.h and the table of known servers of pingu/socket.c: the servlets on the heap, the
-- lists `sockets` and `possible_servers`, the list of the window's model, the jobs of the thread
-- pool `pingers`, and the datagrams handed to sendto. Each handler is one step.
pub mod Pointers
mod Lookup
pub mod Known
pub mod Lookout
pub mod Replies
pub mod Invariant
pub mod Sending
pub mod Reach
pub mod Pinger
pub mod Upstream
pub mod Restarts
pub mod Shutdown
pub mod Staying
pub mod Dropping
pub mod Answered
pub mod Threads
pub mod Serial
pub mod Race
mod Trials
mod Examples
use misc_uni_stuff.Base.{
  ℕ, suc, ◌+◌, List, [], ◌∷◌, ◌++◌, Bool, true, false, not, ◌||◌, ltb, ◌==◌, if◌then◌else◌, Option,
  none, some, ℤ, pos, negsuc, is_zero, drop, Result, ok, fault, null_pointer, ◌>>=◌,
}
use misc_uni_stuff.Host.{Host, hton, store16, store32, load16, load32}
use misc_uni_stuff.Glib.{
  Slist, Gpointer, null, list_node, block, g_slist_append, g_slist_remove, g_slist_find_custom,
  g_slist_foreach, g_slist_length,
}
use misc_uni_stuff.Packet.{
  Packet, SockaddrIn, FullPacket, fillin_packet, send_packet, request_ping, reply_servers,
  reply_noservers, ping_time, pong_time,
}

pub record Servlet : Type 0 where
  pub client : SockaddrIn
  pub lastpinged : ℕ
  pub lastponged : ℕ

-- `cell` is the heap below `free`; `asked` counts the dialogs of ask_new_server.
pub record Net : Type 0 where
  pub cell : ℕ → Servlet
  pub free : ℕ
  pub sockets : List Gpointer
  pub servermodel : List Gpointer
  pub possible_servers : List Gpointer
  pub pingers : List Gpointer
  pub listening : ℕ
  pub sent : List (SockaddrIn × List ℕ)
  pub asked : ℕ

abbrev pub af_inet : ℕ
af_inet = 2

abbrev pub servlet_port : ℕ
servlet_port = 3773

-- What stands where a pointer is no servlet's; the lists hold servlets only.
abbrev pub no_servlet : Servlet
no_servlet = record {
  client = record { sin_family = 0; sin_port = 0; s_addr = 0 };
  lastpinged = 0;
  lastponged = 0;
}

abbrev pub deref : Net → Gpointer → Servlet
deref s (block k) = s.cell k
deref s null = no_servlet
deref s list_node = no_servlet

abbrev pub assign : Net → Gpointer → Servlet → Net
assign s (block k) v = record s { cell = λ j. if k == j then v else s.cell j }
assign s null v = s
assign s list_node v = s

-- A list as an untyped pointer: NULL, or its first node.
abbrev pub slist_pointer : List Gpointer → Gpointer
slist_pointer [] = null
slist_pointer (p ∷ l) = list_node

abbrev pub slist_data : List Gpointer → Option Gpointer
slist_data [] = none
slist_data (p ∷ l) = some p

unfoldable pub cmp_sockaddr : Servlet → SockaddrIn → ℤ
cmp_sockaddr j in_addr =
    if ltb in_addr.s_addr j.client.s_addr
    then pos 1
    else if ltb j.client.s_addr in_addr.s_addr
    then negsuc 0
    else if ltb in_addr.sin_port j.client.sin_port
    then pos 1
    else if ltb j.client.sin_port in_addr.sin_port
    then negsuc 0
    else pos 0

-- The callback that GLib's search gets: it looks through the pointer.
abbrev pub cmp_at : Net → Gpointer → SockaddrIn → ℤ
cmp_at s p in_addr = cmp_sockaddr (deref s p) in_addr

-- malloc, and the fields that are filled in.
pub new_servlet_real : Net → SockaddrIn → ℕ → Net × Gpointer
new_servlet_real s in_addr now = (
  record s {
    cell = λ j.
        if s.free == j
        then record { client = in_addr; lastpinged = 0; lastponged = now }
        else s.cell j;
    free = suc s.free;
  },
  block s.free,
)

module _ ⦃g : Slist⦄ where
  pub find_servlet : Net → SockaddrIn → Option Gpointer
  find_servlet s in_addr = slist_data (g_slist_find_custom s.sockets in_addr (cmp_at s))

  pub new_servlet_startup : Net → Gpointer → Net
  new_servlet_startup s serv =
      let sockets : List Gpointer = g_slist_append s.sockets serv in
      record s { sockets = sockets; servermodel = sockets; pingers = s.pingers ++ serv ∷ [] }

  pub new_servlet : Net → SockaddrIn → ℕ → Net × Gpointer
  new_servlet s in_addr now =
      let (s', moo) = new_servlet_real s in_addr now in (new_servlet_startup s' moo, moo)

  -- The two times are what time(NULL) returns in new_servlet_real and at the end.
  pub check_add_server : Net → SockaddrIn → ℕ → ℕ → Net
  check_add_server s source now later = elim (find_servlet s source) [
    | none ↦
        let (s', serv) = new_servlet s source now in
        assign s' serv (record (deref s' serv) { lastponged = later })
    | some serv ↦ assign s serv (record (deref s serv) { lastponged = later })
  ]

  -- The while loop from a node of `possible_servers` on; the counter is returned with the state.
  pub startup_loop : List Gpointer → ℕ → Net → Net × ℕ
  startup_loop [] i s = (s, i)
  startup_loop (j ∷ moo) i s =
      let rest = startup_loop moo (i + 1) (new_servlet_startup s j) in
      if i == 5 then (new_servlet_startup s j, i) else rest

  -- The for loop, `n` rounds of it.
  pub remove_loop : ℕ → List Gpointer → List Gpointer
  remove_loop ℕ.zero l = l
  remove_loop (suc n) l = remove_loop n (g_slist_remove l (slist_pointer l))

  pub look_for_new_servers : Net → Net
  look_for_new_servers s =
      let (s', i) = startup_loop s.possible_servers 0 s in
      let s'' : Net = record s' { possible_servers = remove_loop (i + 1) s'.possible_servers } in
      if i == 0 then record s'' { asked = s''.asked + 1 } else s''

  -- The list of the model after model_gslist_delete_record becomes `sockets`.
  pub drop_servlet : Gpointer → Net → Net
  drop_servlet servlet s =
      let list : List Gpointer = g_slist_remove s.servermodel servlet in
      let s' : Net = record s { servermodel = list; sockets = list } in
      if g_slist_length s'.sockets == 0 then look_for_new_servers s' else s'

  -- `resolved` is what gethostbyname found, NULL where it fails; the code does not look.
  pub do_connection : ⦃h : Host⦄ → Net → Option ℕ → ℕ → Result Net
  do_connection ⦃h⦄ s none now = fault null_pointer
  do_connection ⦃h⦄ s (some address) now =
      let server : SockaddrIn = record {
        sin_family = af_inet;
        sin_port = hton h.order servlet_port;
        s_addr = address;
      } in
      ok (new_servlet s server now).0

-- A datagram out of the one socket that get_outgoing_socket returns.
pub transmit : ⦃h : Host⦄ → SockaddrIn → Packet → List ℕ → Net → Result Net
transmit addr p d s = do
  bytes ← send_packet p d
  ok (record s { sent = s.sent ++ (addr, bytes) ∷ [] })

abbrev pub upstream_address : ℕ → ℕ → SockaddrIn
upstream_address port address = record { sin_family = af_inet; sin_port = port; s_addr = address }

module _ ⦃g : Slist⦄ ⦃h : Host⦄ where
  abbrev pub add_possible : Net × Gpointer → Net
  add_possible (s, l) = record s { possible_servers = g_slist_append s.possible_servers l }

  pub send_each_except : SockaddrIn → Packet → List ℕ → List Gpointer → Net → Result Net
  send_each_except addr p d [] s = ok s
  send_each_except addr p d (serv ∷ l) s = do
    s' ← if not (is_zero (cmp_at s serv addr)) then transmit (deref s serv).client p d s else ok s
    send_each_except addr p d l s'

  pub send_to_all_except : SockaddrIn → Packet → List ℕ → Net → Result Net
  send_to_all_except addr p d s = send_each_except addr p d s.sockets s

  pub send_each : Packet → List ℕ → List Gpointer → Net → Result Net
  send_each p d [] s = ok s
  send_each p d (serv ∷ l) s = do s' ← transmit (deref s serv).client p d s; send_each p d l s'

  pub send_to_all : Packet → List ℕ → Net → Result Net
  send_to_all p d s = send_each p d s.sockets s

  -- The flag is `generate_reply_servers_found`.
  pub generate_reply_servers_single :
      FullPacket → Gpointer → Result (Net × Bool) → Result (Net × Bool)
  generate_reply_servers_single k j run = do
    state ← run
    if not (is_zero (cmp_at state.0 j k.addr))
        then (do
          let client = (deref state.0 j).client
          s' ←
              transmit k.addr (fillin_packet reply_servers 6 k.packet.request_handle)
                (store32 h.order client.s_addr ++ store16 h.order client.sin_port) state.0
          ok (s', true))
        else ok state

  pub generate_reply_servers : FullPacket → Net → Result Net
  generate_reply_servers p s = do
    state ← g_slist_foreach (generate_reply_servers_single p) s.sockets (ok (s, false))
    if state.1
        then ok state.0
        else transmit p.addr (fillin_packet reply_noservers 4 p.packet.request_handle)
            (store32 h.order state.0.listening) state.0

  pub add_upstream_server : FullPacket → ℕ → Net → Result Net
  add_upstream_server p now s = do
    port ← load16 h.order (drop 4 p.payload)
    address ← load32 h.order p.payload
    let i = upstream_address port address
    ok (elim (slist_data (g_slist_find_custom s.possible_servers i (cmp_at s))) [
      | some moo ↦ s
      | none ↦ add_possible (new_servlet_real s i now)
    ])

  -- A job of the pool `pingers`: `f` is the time at its start, `later` the time of the ping.
  pub ping_if_due : Gpointer → ℕ → ℕ → Net → Result Net
  ping_if_due servlet f later s =
      if (deref s servlet).lastpinged == 0 || ltb ((deref s servlet).lastpinged + ping_time) f
      then (do
        s' ← transmit (deref s servlet).client (fillin_packet request_ping 0 0) [] s
        ok (assign s' servlet (record (deref s' servlet) { lastpinged = later })))
      else ok s

  pub idle_pinger : Gpointer → ℕ → ℕ → Net → Result Net
  unfolding ping_if_due drop_servlet
  idle_pinger servlet f later s = do
    s' ← ping_if_due servlet f later s
    ok (
        if ltb ((deref s' servlet).lastponged + pong_time) f
        then drop_servlet servlet s'
        else record s' { pingers = s'.pingers ++ servlet ∷ [] })

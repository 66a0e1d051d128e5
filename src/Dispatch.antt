-- ===== src/Dispatch.antt =====
-- apply_packet of pingu/socket.c: what a host does with a packet that it received. The state is
-- that of the parts that the handlers belong to.
pub mod Foreign
pub mod Receive
pub mod Switch
pub mod Keeps
pub mod Greeting
pub mod Rows
pub mod Found
pub mod Fetched
pub mod Delivered
mod Trials
mod Examples
use misc_uni_stuff.Base.{ℕ, List, Bool, not, ◌==◌, if◌then◌else◌, Option, Result, ok, ◌>>=◌}
use misc_uni_stuff.Host.{Host, hton}
use misc_uni_stuff.Glib.{Slist, Gtree}
use misc_uni_stuff.Packet.{
  FullPacket, protocol_magic, protocol_version, request_ping, request_filesearch, request_wantfile,
  reply_servers, reply_noservers, reply_filesearch, reply_transferwaiting,
}
use misc_uni_stuff.Net.{Net, check_add_server, add_upstream_server, generate_reply_servers}
use misc_uni_stuff.Request.{Handler, compare_func}
use misc_uni_stuff.Search.{Filedata, Glob, Models, get_request_search, get_reply_search}
use misc_uni_stuff.Download.{
  download_create_socket, listening_socket, Transfers, get_request_wantfile,
  download_reply_transferwaiting,
}

-- `transfers` holds the table of servers, and `database` is what get_file_database returns.
pub record World (T : Type 0) : Type 0 where
  pub requests : Handler T
  pub models : Models
  pub transfers : Transfers
  pub database : List Filedata

-- What the system calls of a handler return: the times in check_add_server, or the one in
-- add_upstream_server, and what the download handlers get.
pub record Calls : Type 0 where
  pub now : ℕ
  pub later : ℕ
  pub upstream_now : ℕ
  pub opened : Option ℕ
  pub listenfd : Option ℕ
  pub reused : Bool
  pub listens : Bool
  pub bound : Option ℕ
  pub sockfd : Option ℕ
  pub connects : Bool
  pub filefd : Option ℕ
  pub junk : ℕ

-- The socket that a file is offered on.
abbrev pub listening_of : Calls → Option (ℕ × ℕ)
listening_of c = listening_socket (download_create_socket c.listenfd c.reused c.listens) c.bound

abbrev pub with_net : {T : Type 0} → World T → Net → World T
with_net w net = record w { transfers = record w.transfers { net = net } }

module _ ⦃g : Slist⦄ ⦃t : Gtree compare_func⦄ ⦃h : Host⦄ ⦃m : Glob⦄ where
  -- The switch.
  pub apply_operation : Calls → FullPacket → World t.Tree → Result (World t.Tree)
  apply_operation c p w =
      let operation = p.packet.operation in
      let net = w.transfers.net in
      let net' = check_add_server net p.addr c.now c.later in
      if operation == request_ping
      then (generate_reply_servers p net' >>= λ u. ok (with_net w u))
      else if operation == request_filesearch
      then (get_request_search p w.database net >>= λ u. ok (with_net w u))
      else if operation == request_wantfile
      then (get_request_wantfile p w.database c.opened (listening_of c) w.transfers >>= λ u.
          ok (record w { transfers = u }))
      else if operation == reply_transferwaiting
      then (download_reply_transferwaiting p c.sockfd c.connects c.filefd c.junk w.transfers
          >>= λ u. ok (record w { transfers = u }))
      else if operation == reply_filesearch
      then (get_reply_search p w.requests w.models >>= λ u. ok (record w { models = u }))
      else if operation == reply_servers
      then (add_upstream_server p c.upstream_now net' >>= λ u. ok (with_net w u))
      else if operation == reply_noservers
      then ok (with_net w net')
      else ok w

  pub apply_packet : Calls → FullPacket → World t.Tree → Result (World t.Tree)
  apply_packet c p w =
      if not (p.packet.magic == hton h.order protocol_magic)
      then ok w
      else if not (p.packet.version == hton h.order protocol_version)
      then ok w
      else apply_operation c p w

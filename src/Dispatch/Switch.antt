-- ===== src/Dispatch/Switch.antt =====
-- The branches of the switch in apply_packet, pingu/socket.c.
use misc_uni_stuff.Base.{ℕ, ◌≡◌, false, ◌==◌, refl, arith, List, ok, ◌>>=◌, ◌∙◌}
use misc_uni_stuff.Host.{Host}
use misc_uni_stuff.Glib.{Slist, Gtree}
use misc_uni_stuff.Packet.{
  FullPacket, SockaddrIn, request_ping, request_filesearch, reply_servers, reply_noservers,
  reply_filesearch, request_wantfile, reply_transferwaiting,
}
use misc_uni_stuff.Packet.Wire.{fillin_packet-fields}
use misc_uni_stuff.Net.{check_add_server, add_upstream_server, generate_reply_servers}
use misc_uni_stuff.Request.{compare_func}
use misc_uni_stuff.Search.{Glob, get_request_search, get_reply_search}
use misc_uni_stuff.Download.{get_request_wantfile, download_reply_transferwaiting}
use misc_uni_stuff.Dispatch.Receive.{ours}
use misc_uni_stuff.Dispatch.{listening_of, World, Calls, with_net, apply_operation, apply_packet}

module _ ⦃g : Slist⦄ ⦃t : Gtree compare_func⦄ ⦃h : Host⦄ ⦃m : Glob⦄ where
  module _ (c : Calls) (p : FullPacket) (w : World t.Tree) where
    pub switch_ping :
        p.packet.operation ≡ request_ping
        → apply_operation c p w ≡ (
            generate_reply_servers p (check_add_server w.transfers.net p.addr c.now c.later)
            >>= λ u. ok (with_net w u))
    unfolding apply_operation
    switch_ping e = rw e refl

    pub switch_filesearch :
        p.packet.operation ≡ request_filesearch
        → apply_operation c p w
          ≡ (get_request_search p w.database w.transfers.net >>= λ u. ok (with_net w u))
    unfolding apply_operation
    switch_filesearch e = rw e refl

    pub switch_reply_filesearch :
        p.packet.operation ≡ reply_filesearch
        → apply_operation c p w
          ≡ (get_reply_search p w.requests w.models >>= λ u. ok (record w { models = u }))
    unfolding apply_operation
    switch_reply_filesearch e = rw e refl

    pub switch_reply_servers :
        p.packet.operation ≡ reply_servers
        → apply_operation c p w ≡ (
            add_upstream_server p c.upstream_now
              (check_add_server w.transfers.net p.addr c.now c.later)
            >>= λ u. ok (with_net w u))
    unfolding apply_operation
    switch_reply_servers e = rw e refl

    pub switch_reply_noservers :
        p.packet.operation ≡ reply_noservers
        → apply_operation c p w
          ≡ ok (with_net w (check_add_server w.transfers.net p.addr c.now c.later))
    unfolding apply_operation
    switch_reply_noservers e = rw e refl

    pub switch_wantfile :
        p.packet.operation ≡ request_wantfile
        → apply_operation c p w ≡ (
            get_request_wantfile p w.database c.opened (listening_of c) w.transfers >>= λ u.
            ok (record w { transfers = u }))
    unfolding apply_operation
    switch_wantfile e = rw e refl

    pub switch_transferwaiting :
        p.packet.operation ≡ reply_transferwaiting
        → apply_operation c p w ≡ (
            download_reply_transferwaiting p c.sockfd c.connects c.filefd c.junk w.transfers
            >>= λ u. ok (record w { transfers = u }))
    unfolding apply_operation
    switch_transferwaiting e = rw e refl

    pub switch_unknown :
        (p.packet.operation == request_ping) ≡ false
        → (p.packet.operation == request_filesearch) ≡ false
        → (p.packet.operation == request_wantfile) ≡ false
        → (p.packet.operation == reply_transferwaiting) ≡ false
        → (p.packet.operation == reply_filesearch) ≡ false
        → (p.packet.operation == reply_servers) ≡ false
        → (p.packet.operation == reply_noservers) ≡ false
        → apply_operation c p w ≡ ok w
    unfolding apply_operation
    switch_unknown a b c d e f g = rw (a, b, c, d, e, f, g) refl

  module _ (c : Calls) (w : World t.Tree) (n request : ℕ) (d : List ℕ) (a : SockaddrIn) where
    -- What is received from a host of the protocol goes to the switch.
    apply_packet-ours :
        (operation : ℕ)
        → apply_packet c (ours operation n request d a) w
          ≡ apply_operation c (ours operation n request d a) w
    unfolding apply_packet
    apply_packet-ours operation =
        let f = fillin_packet-fields h operation n request in ground (arith, f.0, f.1)

    pub apply_packet-ping : apply_packet c (ours request_ping n request d a) w ≡ (
        generate_reply_servers
          (ours request_ping n request d a)
          (check_add_server w.transfers.net a c.now c.later)
        >>= λ u. ok (with_net w u))
    apply_packet-ping =
        apply_packet-ours request_ping
        ∙ switch_ping c _ w (fillin_packet-fields h request_ping n request).3

    pub apply_packet-filesearch : apply_packet c (ours request_filesearch n request d a) w ≡ (
        get_request_search (ours request_filesearch n request d a) w.database w.transfers.net
        >>= λ u. ok (with_net w u))
    apply_packet-filesearch =
        apply_packet-ours request_filesearch
        ∙ switch_filesearch c _ w (fillin_packet-fields h request_filesearch n request).3

    pub apply_packet-reply_filesearch : apply_packet c (ours reply_filesearch n request d a) w ≡ (
        get_reply_search (ours reply_filesearch n request d a) w.requests w.models >>= λ u.
        ok (record w { models = u }))
    apply_packet-reply_filesearch =
        apply_packet-ours reply_filesearch
        ∙ switch_reply_filesearch c _ w (fillin_packet-fields h reply_filesearch n request).3

    pub apply_packet-reply_servers : apply_packet c (ours reply_servers n request d a) w ≡ (
        add_upstream_server
          (ours reply_servers n request d a)
          c.upstream_now
          (check_add_server w.transfers.net a c.now c.later)
        >>= λ u. ok (with_net w u))
    apply_packet-reply_servers =
        apply_packet-ours reply_servers
        ∙ switch_reply_servers c _ w (fillin_packet-fields h reply_servers n request).3

    pub apply_packet-reply_noservers :
        apply_packet c (ours reply_noservers n request d a) w
        ≡ ok (with_net w (check_add_server w.transfers.net a c.now c.later))
    apply_packet-reply_noservers =
        apply_packet-ours reply_noservers
        ∙ switch_reply_noservers c _ w (fillin_packet-fields h reply_noservers n request).3

    pub apply_packet-wantfile : apply_packet c (ours request_wantfile n request d a) w ≡ (
        get_request_wantfile
          (ours request_wantfile n request d a)
          w.database
          c.opened
          (listening_of c)
          w.transfers
        >>= λ u. ok (record w { transfers = u }))
    apply_packet-wantfile =
        apply_packet-ours request_wantfile
        ∙ switch_wantfile c _ w (fillin_packet-fields h request_wantfile n request).3

    pub apply_packet-transferwaiting :
        apply_packet c (ours reply_transferwaiting n request d a) w ≡ (
          download_reply_transferwaiting
            (ours reply_transferwaiting n request d a)
            c.sockfd
            c.connects
            c.filefd
            c.junk
            w.transfers
          >>= λ u. ok (record w { transfers = u }))
    apply_packet-transferwaiting =
        apply_packet-ours reply_transferwaiting
        ∙ switch_transferwaiting c _ w (fillin_packet-fields h reply_transferwaiting n request).3

-- ===== src/Dispatch/Keeps.antt =====
-- What apply_packet of pingu/socket.c leaves alone, for any packet.
use misc_uni_stuff.Base.{
  ◌≡◌, refl, sym, subst, ◌∙◌, not, ◌==◌, ==_iff, Bool-cases, inl, inr, Result, ok, ◌>>=◌, bind-ok,
  ok-injective,
}
use misc_uni_stuff.Host.{Host, hton}
use misc_uni_stuff.Glib.{Slist, Gtree}
use misc_uni_stuff.Packet.{
  FullPacket, protocol_magic, protocol_version, request_ping, request_filesearch, request_wantfile,
  reply_servers, reply_noservers, reply_filesearch, reply_transferwaiting,
}
use misc_uni_stuff.Net.{Net, check_add_server, generate_reply_servers, add_upstream_server}
use misc_uni_stuff.Net.Invariant.{IsNet, check_add_server-IsNet}
use misc_uni_stuff.Net.Sending.{sent-IsNet}
use misc_uni_stuff.Net.Reach.{generate_reply_servers-Sends, add_upstream_server-IsNet}
use misc_uni_stuff.Request.{compare_func}
use misc_uni_stuff.Search.{Glob, get_request_search, get_reply_search}
use misc_uni_stuff.Search.Sending.{get_request_search-OnlySends}
use misc_uni_stuff.Download.{Transfers, get_request_wantfile, download_reply_transferwaiting}
use misc_uni_stuff.Download.Sending.{
  get_request_wantfile-OnlySends, download_reply_transferwaiting-net,
}
use misc_uni_stuff.Dispatch.{listening_of, World, Calls, with_net, apply_operation, apply_packet}
use misc_uni_stuff.Dispatch.Switch.{
  switch_ping, switch_filesearch, switch_wantfile, switch_transferwaiting, switch_reply_filesearch,
  switch_reply_servers, switch_reply_noservers, switch_unknown,
}

module _ ⦃g : Slist⦄ ⦃t : Gtree compare_func⦄ ⦃h : Host⦄ ⦃m : Glob⦄ where
  -- The requests and the database stay, and the table of servers stays well formed.
  abbrev pub Keeps : World t.Tree → World t.Tree → Type 0
  Keeps w x =
      (x.requests ≡ w.requests)
      × (x.database ≡ w.database)
      × (IsNet w.transfers.net → IsNet x.transfers.net)

  net-Keeps :
      (w x : World t.Tree) (r : Result Net)
      → ((u : Net) → r ≡ ok u → IsNet w.transfers.net → IsNet u)
      → (r >>= λ u. ok (with_net w u)) ≡ ok x
      → Keeps w x
  net-Keeps w x r keeps e =
      let (u, run, e') = bind-ok r _ x e in
      subst (Keeps w) (ok-injective e') (refl, refl, keeps u run)

  transfers-Keeps :
      (w x : World t.Tree) (r : Result Transfers)
      → ((u : Transfers) → r ≡ ok u → IsNet w.transfers.net → IsNet u.net)
      → (r >>= λ u. ok (record w { transfers = u })) ≡ ok x
      → Keeps w x
  transfers-Keeps w x r keeps e =
      let (u, run, e') = bind-ok r _ x e in
      subst (Keeps w) (ok-injective e') (refl, refl, keeps u run)

  module _ (c : Calls) (p : FullPacket) (w x : World t.Tree) where
    greeted-IsNet :
        IsNet w.transfers.net → IsNet (check_add_server w.transfers.net p.addr c.now c.later)
    greeted-IsNet v = check_add_server-IsNet w.transfers.net p.addr c.now c.later v

    apply_operation-Keeps : apply_operation c p w ≡ ok x → Keeps w x
    apply_operation-Keeps e = elim (Bool-cases (p.packet.operation == request_ping)) [
      | inl b ↦
          net-Keeps w x (generate_reply_servers p _)
            (λ u run v. sent-IsNet _ u (generate_reply_servers-Sends p _ u run) (greeted-IsNet v))
            (sym (switch_ping c p w ((==_iff _ _).0 b)) ∙ e)
      | inr n1 ↦ elim (Bool-cases (p.packet.operation == request_filesearch)) [
        | inl b ↦
            net-Keeps w x (get_request_search p w.database w.transfers.net)
              (λ u run v.
                sent-IsNet _ u (get_request_search-OnlySends p w.database w.transfers.net u run) v)
              (sym (switch_filesearch c p w ((==_iff _ _).0 b)) ∙ e)
        | inr n2 ↦ elim (Bool-cases (p.packet.operation == request_wantfile)) [
          | inl b ↦
              transfers-Keeps w x
                (get_request_wantfile p w.database c.opened (listening_of c) w.transfers)
                (λ u run v.
                  sent-IsNet _ u.net
                    (get_request_wantfile-OnlySends p w.database c.opened (listening_of c)
                      w.transfers u run)
                    v)
                (sym (switch_wantfile c p w ((==_iff _ _).0 b)) ∙ e)
          | inr n3 ↦ elim (Bool-cases (p.packet.operation == reply_transferwaiting)) [
            | inl b ↦
                transfers-Keeps w x
                  (download_reply_transferwaiting p c.sockfd c.connects c.filefd c.junk w.transfers)
                  (λ u run v.
                    subst IsNet
                      (sym (
                        download_reply_transferwaiting-net p c.sockfd c.connects c.filefd c.junk
                          w.transfers u run))
                      v)
                  (sym (switch_transferwaiting c p w ((==_iff _ _).0 b)) ∙ e)
            | inr n4 ↦ elim (Bool-cases (p.packet.operation == reply_filesearch)) [
              | inl b ↦
                  let (u, run, e') =
                    bind-ok (get_reply_search p w.requests w.models) _ x
                      (sym (switch_reply_filesearch c p w ((==_iff _ _).0 b)) ∙ e) in
                  subst (Keeps w) (ok-injective e') (refl, refl, λ v. v)
              | inr n5 ↦ elim (Bool-cases (p.packet.operation == reply_servers)) [
                | inl b ↦
                    net-Keeps w x (add_upstream_server p c.upstream_now _)
                      (λ u run v.
                        add_upstream_server-IsNet p c.upstream_now _ u run (greeted-IsNet v))
                      (sym (switch_reply_servers c p w ((==_iff _ _).0 b)) ∙ e)
                | inr n6 ↦ elim (Bool-cases (p.packet.operation == reply_noservers)) [
                  | inl b ↦
                      subst (Keeps w)
                        (ok-injective (sym (switch_reply_noservers c p w ((==_iff _ _).0 b)) ∙ e))
                        (refl, refl, greeted-IsNet)
                  | inr n7 ↦
                      subst (Keeps w)
                        (ok-injective (sym (switch_unknown c p w n1 n2 n3 n4 n5 n6 n7) ∙ e))
                        (refl, refl, λ v. v)
                ]
              ]
            ]
          ]
        ]
      ]
    ]

    pub apply_packet-Keeps : apply_packet c p w ≡ ok x → Keeps w x
    unfolding apply_packet
    apply_packet-Keeps e = elim (Bool-cases (not (p.packet.magic == hton h.order protocol_magic))) [
      | inl a ↦ subst (Keeps w) (ok-injective (rw (a, apply_packet) at e)) (refl, refl, λ v. v)
      | inr a ↦ elim (Bool-cases (not (p.packet.version == hton h.order protocol_version))) [
        | inl b ↦ subst (Keeps w) (ok-injective (rw (a, b, apply_packet) at e)) (refl, refl, λ v. v)
        | inr b ↦ apply_operation-Keeps (rw (a, b, apply_packet) at e)
      ]
    ]

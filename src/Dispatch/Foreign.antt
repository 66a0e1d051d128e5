-- ===== src/Dispatch/Foreign.antt =====
-- Which packets apply_packet of pingu/socket.c looks at.
use misc_uni_stuff.Base.{ℕ, ◌≡◌, ◌≢◌, ◌⊎◌, inl, inr, arith, List, [], ◌∷◌, All, ok}
use misc_uni_stuff.Host.{Host, hton}
use misc_uni_stuff.Glib.{Slist, Gtree}
use misc_uni_stuff.Packet.{
  FullPacket, protocol_magic, protocol_version, request_ping, request_filesearch, request_wantfile,
  reply_servers, reply_noservers, reply_filesearch, reply_transferwaiting, reply_filenotfound,
}
use misc_uni_stuff.Request.{compare_func}
use misc_uni_stuff.Search.{Glob}
use misc_uni_stuff.Dispatch.{World, Calls, apply_operation, apply_packet}

-- The operations that the switch has a case for.
abbrev pub handled : List ℕ
handled =
    request_ping ∷ request_filesearch ∷ request_wantfile ∷ reply_transferwaiting ∷ reply_filesearch
    ∷ reply_servers ∷ reply_noservers ∷ []

module _ ⦃g : Slist⦄ ⦃t : Gtree compare_func⦄ ⦃h : Host⦄ ⦃m : Glob⦄ where
  -- A packet of another protocol or version, or with an operation that the switch has no case for,
  -- changes nothing, and no part of its data is read. One such operation is REPLY_FILENOTFOUND,
  -- which the protocol does have.
  pub apply_packet_foreign :
      (c : Calls) (p : FullPacket) (w : World t.Tree)
      → (p.packet.magic ≢ hton h.order protocol_magic)
        ⊎ ((p.packet.version ≢ hton h.order protocol_version)
            ⊎ (All (λ n. p.packet.operation ≢ n) handled
                ⊎ (p.packet.operation ≡ reply_filenotfound)))
      → apply_packet c p w ≡ ok w
  unfolding apply_packet apply_operation
  apply_packet_foreign c p w (inl e) = ground (arith, e)
  apply_packet_foreign c p w (inr (inl e)) = ground (arith, e)
  apply_packet_foreign c p w (inr (inr (inl e))) = ground (arith, e)
  apply_packet_foreign c p w (inr (inr (inr e))) = ground (arith, e)

-- ===== src/Dispatch/Receive.antt =====
-- What a host of the protocol makes of a packet that another one filled in, pingu/socket.c.
use misc_uni_stuff.Base.{ℕ, ◌+◌, ◌^◌, ◌≡◌, ◌<◌, ◌≤◌, ap, ◌∙◌, arith, List, drop, length, ok}
use misc_uni_stuff.Host.{Host}
use misc_uni_stuff.Packet.{FullPacket, SockaddrIn, fillin_packet, read_packet, recvfrom, max_packet}
use misc_uni_stuff.Packet.Wire.{
  cross, cross_same, datagram_of, length-datagram_of, recvfrom-append, read_packet-fillin_packet,
}

-- A packet of the protocol as it is received.
abbrev pub ours : ⦃h : Host⦄ → ℕ → ℕ → ℕ → List ℕ → SockaddrIn → FullPacket
ours operation n request d a = record {
  packet = fillin_packet operation n request;
  payload = d;
  addr = a;
}

pub receive :
    (a b : Host) (operation n request : ℕ) (d buffer : List ℕ) (from : SockaddrIn)
    → n + 10 ≤ max_packet
    → request < 2 ^ 16
    → length d ≡ n
    → read_packet ⦃h = b⦄
        (recvfrom buffer (datagram_of a (fillin_packet ⦃h = a⦄ operation n request) d))
        from
      ≡ ok (ours ⦃h = b⦄ operation n (cross a.order b.order request) d from)
receive a b operation n request d buffer from fits small e =
    let sent = datagram_of a (fillin_packet ⦃h = a⦄ operation n request) d in
    let size = length-datagram_of a (fillin_packet ⦃h = a⦄ operation n request) d in
    let bounded : length sent ≤ max_packet = omega arith in
    rw (recvfrom-append buffer sent bounded) (
      read_packet-fillin_packet a b from operation n request d (drop (length sent) buffer)
        (omega arith) small e)

pub receive_same :
    ⦃h : Host⦄ (operation n request : ℕ) (d buffer : List ℕ) (from : SockaddrIn)
    → n + 10 ≤ max_packet
    → request < 2 ^ 16
    → length d ≡ n
    → read_packet (recvfrom buffer (datagram_of h (fillin_packet operation n request) d)) from
      ≡ ok (ours operation n request d from)
receive_same ⦃h⦄ operation n request d buffer from fits small e =
    receive h h operation n request d buffer from fits small e
    ∙ ap (λ x. ok (ours operation n x d from)) (cross_same h.order request)

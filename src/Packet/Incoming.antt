-- ===== src/Packet/Incoming.antt =====
-- The loop that receives packets: incoming of pingu/socket.c.
use misc_uni_stuff.Base.{
  ℕ, ◌+◌, ◌^◌, ◌≡◌, ◌<◌, ◌≤◌, refl, arith, List, [], ◌∷◌, ◌++◌, All, map, length, drop, Option,
  none, some, ok,
}
use misc_uni_stuff.Host.{Host}
use misc_uni_stuff.Packet.{
  FullPacket, SockaddrIn, fillin_packet, read_packet, recvfrom, incoming, max_packet,
}
use misc_uni_stuff.Packet.Wire.{
  cross, datagram_of, length-datagram_of, recvfrom-append, read_packet-fillin_packet,
}

-- A packet that some host filled in and sent.
pub record Message : Type 0 where
  pub host : Host
  pub sender : SockaddrIn
  pub operation : ℕ
  pub request : ℕ
  pub bytes : List ℕ

pub record IsMessage (m : Message) : Type 0 where
  pub fits : length m.bytes + 10 ≤ max_packet
  pub request : m.request < 2 ^ 16

abbrev pub on_wire : Message → List ℕ
on_wire m =
    datagram_of m.host (fillin_packet ⦃h = m.host⦄ m.operation (length m.bytes) m.request) m.bytes

-- The packet as the receiver `r` would have filled it in, with the handle as it loads it.
abbrev pub arrival : Host → Message → FullPacket
arrival r m = record {
  packet =
      fillin_packet ⦃h = r⦄ m.operation (length m.bytes) (cross m.host.order r.order m.request);
  payload = m.bytes;
  addr = m.sender;
}

receive_message :
    (r : Host) (m : Message) (buffer : List ℕ)
    → IsMessage m
    → read_packet ⦃h = r⦄ (recvfrom buffer (on_wire m)) m.sender ≡ ok (arrival r m)
receive_message r m buffer v =
    let size =
      length-datagram_of m.host (fillin_packet ⦃h = m.host⦄ m.operation (length m.bytes) m.request)
        m.bytes in
    let fits = v.fits in
    let bounded : length (on_wire m) ≤ max_packet = omega arith in
    rw (recvfrom-append buffer (on_wire m) bounded) (
      read_packet-fillin_packet m.host r m.sender m.operation (length m.bytes) m.request m.bytes
        (drop (length (on_wire m)) buffer) (omega arith) v.request refl)

-- Packets that hosts of any byte order filled in, with handles of 16 bits, and sent whole in
-- datagrams that fit into the buffer are pushed one by one, in the order in which they came,
-- whatever was in the buffer and however long those before were; the first failure of recvfrom
-- ends the loop for good.
pub incoming-arrival :
    (r : Host) (buffer : List ℕ) (messages : List Message)
    (later : List (Option (List ℕ × SockaddrIn)))
    → All IsMessage messages
    → incoming ⦃h = r⦄ buffer (map (λ m. some (on_wire m, m.sender)) messages ++ none ∷ later)
      ≡ ok (map (arrival r) messages)
unfolding incoming
incoming-arrival r buffer [] later v = refl
incoming-arrival r buffer (m ∷ messages) later v =
    rw
      (
        receive_message r m buffer v.0,
        incoming-arrival r (recvfrom buffer (on_wire m)) messages later v.1,
      )
      refl

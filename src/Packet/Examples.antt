-- ===== src/Packet/Examples.antt =====
-- Runs of the packet code of pingu/socket.c between two hosts of different byte orders.
use misc_uni_stuff.Base.{
  ℕ, ◌≡◌, refl, arith, List, [], ◌∷◌, take, drop, length, replicate, map, none, some, ok, ◌++◌,
}
use misc_uni_stuff.Host.{Host, little, big, hton}
use misc_uni_stuff.Packet.{
  SockaddrIn, FullPacket, fillin_packet, packet_bytes, send_packet, read_packet, recvfrom, incoming,
  request_filesearch, reply_filesearch,
}
use misc_uni_stuff.Packet.Wire.{
  cross, datagram_of, length-datagram_of, recvfrom-append, read_packet-fillin_packet,
}
use misc_uni_stuff.Packet.Incoming.{Message, on_wire, arrival, incoming-arrival}
use misc_uni_stuff.Packet.RoundTrip.{
  read_packet-send_packet, read_packet-handle_echo, read_packet_stale,
}

abbrev pc : Host
pc = record { order = little }

abbrev sparc : Host
sparc = record { order = big }

abbrev somewhere : SockaddrIn
somewhere = record { sin_family = 2; sin_port = 3773; s_addr = 16777343 }

abbrev buffer : List ℕ
buffer = replicate 16 7

abbrev message : List ℕ
message = 1 ∷ 2 ∷ 3 ∷ []

read_packet-send_packet_example :
    (datagram : List ℕ) × (send_packet ⦃h = pc⦄
        (fillin_packet ⦃h = pc⦄ request_filesearch 3 258)
        message
      ≡ ok datagram)
    × (read_packet ⦃h = sparc⦄ (recvfrom buffer datagram) somewhere
        ≡ ok (record {
          packet = fillin_packet ⦃h = sparc⦄ request_filesearch 3 (cross little big 258);
          payload = message;
          addr = somewhere;
        }))
read_packet-send_packet_example =
    read_packet-send_packet pc sparc buffer somewhere request_filesearch 3 258 message (omega arith)
      (omega arith) refl

abbrev there : List ℕ
there = datagram_of pc (fillin_packet ⦃h = pc⦄ request_filesearch 3 258) message

abbrev arrived : FullPacket
arrived = record {
  packet = fillin_packet ⦃h = sparc⦄ request_filesearch 3 513;
  payload = message;
  addr = somewhere;
}

abbrev back : List ℕ
back = datagram_of sparc (fillin_packet ⦃h = sparc⦄ reply_filesearch 3 513) message

abbrev returned : FullPacket
returned = record {
  packet = fillin_packet ⦃h = pc⦄ reply_filesearch 3 258;
  payload = message;
  addr = somewhere;
}

there_sent :
    send_packet ⦃h = pc⦄ (fillin_packet ⦃h = pc⦄ request_filesearch 3 258) message ≡ ok there
unfolding send_packet fillin_packet datagram_of packet_bytes
there_sent = refl

there_read : read_packet ⦃h = sparc⦄ (recvfrom buffer there) somewhere ≡ ok arrived
unfolding cross
there_read =
    rw
      (recvfrom-append buffer there (
        omega
          (arith, length-datagram_of pc (fillin_packet ⦃h = pc⦄ request_filesearch 3 258) message)))
      (read_packet-fillin_packet pc sparc somewhere request_filesearch 3 258 message _ (omega arith)
        (omega arith) refl)

back_sent :
    send_packet ⦃h = sparc⦄
      (fillin_packet ⦃h = sparc⦄ reply_filesearch (length message) arrived.packet.request_handle)
      message
    ≡ ok back
unfolding send_packet fillin_packet datagram_of packet_bytes
back_sent = refl

back_read : read_packet ⦃h = pc⦄ (recvfrom buffer back) somewhere ≡ ok returned
unfolding cross
back_read =
    rw
      (recvfrom-append buffer back (
        omega (
          arith,
          length-datagram_of sparc (fillin_packet ⦃h = sparc⦄ reply_filesearch 3 513) message,
        )))
      (read_packet-fillin_packet sparc pc somewhere reply_filesearch 3 513 message _ (omega arith)
        (omega arith) refl)

read_packet-handle_echo_example :
    (returned.packet.request_handle ≡ 258) × (returned.payload ≡ message)
read_packet-handle_echo_example =
    read_packet-handle_echo pc sparc buffer buffer somewhere somewhere request_filesearch 3 258
      message reply_filesearch message (omega arith) refl (omega arith) (omega arith) there_sent
      there_read back_sent back_read

read_packet_stale_example :
    read_packet ⦃h = sparc⦄
      (recvfrom buffer (
        packet_bytes ⦃h = pc⦄ (record (fillin_packet ⦃h = pc⦄ request_filesearch 6 258) {
          packet_length = hton little 6;
        })))
      somewhere
    ≡ ok (record {
      packet = fillin_packet ⦃h = sparc⦄ request_filesearch 6 (cross little big 258);
      payload = take 6 (drop 10 buffer);
      addr = somewhere;
    })
read_packet_stale_example =
    read_packet_stale pc sparc buffer somewhere request_filesearch 6 258 (omega arith) (omega arith)
      (omega arith)

abbrev messages : List Message
messages =
    record { host = pc; sender = somewhere; operation = 1; request = 258; bytes = 1 ∷ 2 ∷ 3 ∷ [] }
    ∷ record { host = sparc; sender = somewhere; operation = 0; request = 0; bytes = [] }
    ∷ []

incoming-arrival_example :
    incoming ⦃h = sparc⦄ buffer
      (map (λ m. some (on_wire m, m.sender)) messages ++ none ∷ some (message, somewhere) ∷ [])
    ≡ ok (map (arrival sparc) messages)
incoming-arrival_example = incoming-arrival sparc buffer messages (some (message, somewhere) ∷ []) (
  record { fits = omega arith; request = omega arith },
  (record { fits = omega arith; request = omega arith }, tt),
)

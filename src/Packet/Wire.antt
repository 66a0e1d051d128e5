-- ===== src/Packet/Wire.antt =====
-- The bytes of a packet as another host, or the same, loads them: pingu/socket.c.
use misc_uni_stuff.Base.{
  ℕ, ◌+◌, ◌<◌, ◌≤◌, ◌^◌, ◌≡◌, refl, ap, ◌∙◌, arith, List, ◌++◌, drop, length, ok,
  take-length-append, drop-length-append, length-append, take_all, append_assoc,
}
use misc_uni_stuff.Host.{
  Host, Endian, little, big, u8, u16, swap16, hton, store16, load16, hton-hton, hton-lt,
}
use misc_uni_stuff.Packet.{
  Packet, SockaddrIn, fillin_packet, packet_bytes, send_packet, load_packet, load8_pair,
  read_packet, recvfrom, protocol_magic, protocol_version, max_packet,
}

-- Every field fits its C type.
pub record IsPacket (p : Packet) : Type 0 where
  pub magic : p.magic < 2 ^ 16
  pub version : p.version < 2 ^ 16
  pub request_handle : p.request_handle < 2 ^ 16
  pub packet_length : p.packet_length < 2 ^ 16

pub fillin_packet-IsPacket :
    ⦃h : Host⦄ (operation datalen request : ℕ) → IsPacket (fillin_packet operation datalen request)
unfolding fillin_packet
fillin_packet-IsPacket ⦃h⦄ operation datalen request = record {
  magic = hton-lt h.order protocol_magic;
  version = hton-lt h.order protocol_version;
  request_handle = omega arith;
  packet_length = omega arith;
}

-- A word that one host stores and another loads, with no htons between.
unfoldable pub cross : Endian → Endian → ℕ → ℕ
cross little little x = x
cross little big x = swap16 x
cross big little x = swap16 x
cross big big x = x

pub cross-cross : (e f : Endian) (x : ℕ) → x < 2 ^ 16 → cross f e (cross e f x) ≡ x
unfolding cross
cross-cross little little x h = refl
cross-cross little big x h = omega arith
cross-cross big little x h = omega arith
cross-cross big big x h = refl

pub cross_same : (e : Endian) (x : ℕ) → cross e e x ≡ x
unfolding cross
cross_same little x = refl
cross_same big x = refl

cross-hton : (e f : Endian) (x : ℕ) → cross e f (hton e x) ≡ hton f x
unfolding cross hton
cross-hton little little x = refl
cross-hton little big x = omega arith
cross-hton big little x = omega arith
cross-hton big big x = refl

pub cross-lt : (e f : Endian) (x : ℕ) → x < 2 ^ 16 → cross e f x < 2 ^ 16
unfolding cross
cross-lt little little x h = h
cross-lt little big x h = omega arith
cross-lt big little x h = omega arith
cross-lt big big x h = h

load16-store16-cross :
    (e f : Endian) (x : ℕ) (rest : List ℕ)
    → x < 2 ^ 16
    → load16 f (store16 e x ++ rest) ≡ ok (cross e f x)
unfolding load16 store16 cross
load16-store16-cross little little x rest h = ground arith
load16-store16-cross little big x rest h = ground arith
load16-store16-cross big little x rest h = ground arith
load16-store16-cross big big x rest h = ground arith

module _ (s r : Host) where
  -- The packet that `r` loads where `s` stored `p`.
  unfoldable pub seen : Packet → Packet
  seen p = record p {
    magic = cross s.order r.order p.magic;
    version = cross s.order r.order p.version;
    request_handle = cross s.order r.order p.request_handle;
    packet_length = cross s.order r.order p.packet_length;
  }

  load_packet-packet_bytes :
      (p : Packet) (rest : List ℕ)
      → IsPacket p
      → load_packet ⦃h = r⦄ (packet_bytes ⦃h = s⦄ p ++ rest) ≡ ok (seen p)
  unfolding load_packet packet_bytes load8_pair load16 store16 seen cross
  load_packet-packet_bytes p rest v = ground arith

pub length-packet_bytes : (h : Host) (p : Packet) → length (packet_bytes ⦃h = h⦄ p) ≡ 10
unfolding packet_bytes store16
length-packet_bytes h p = ground arith

-- The fields that fillin_packet fills in.
pub fillin_packet-fields :
    (h : Host) (operation datalen request : ℕ)
    → ((fillin_packet ⦃h = h⦄ operation datalen request).magic ≡ hton h.order protocol_magic)
      × ((fillin_packet ⦃h = h⦄ operation datalen request).version ≡ hton h.order protocol_version)
      × ((fillin_packet ⦃h = h⦄ operation datalen request).request_handle ≡ u16 request)
      × ((fillin_packet ⦃h = h⦄ operation datalen request).operation ≡ u8 operation)
unfolding fillin_packet
fillin_packet-fields h operation datalen request = (refl, refl, refl, refl)

-- The datagram of a packet that fillin_packet made, with the length already in network order.
unfoldable pub datagram_of : Host → Packet → List ℕ → List ℕ
datagram_of s p d =
    packet_bytes ⦃h = s⦄ (record p { packet_length = hton s.order p.packet_length }) ++ d

pub send_packet-datagram_of :
    (s : Host) (p : Packet) (d : List ℕ)
    → length d ≡ p.packet_length
    → send_packet ⦃h = s⦄ p d ≡ ok (datagram_of s p d)
unfolding send_packet datagram_of
send_packet-datagram_of s p d e = ground (arith, take_all p.packet_length d (omega arith))

pub recvfrom-append :
    (buffer datagram : List ℕ)
    → length datagram ≤ max_packet
    → recvfrom buffer datagram ≡ datagram ++ drop (length datagram) buffer
unfolding recvfrom
recvfrom-append buffer datagram h = rw (take_all max_packet datagram h)

pub fillin_length :
    (h : Host) (operation datalen request : ℕ) (d : List ℕ)
    → datalen < 2 ^ 16
    → length d ≡ datalen
    → length d ≡ (fillin_packet ⦃h = h⦄ operation datalen request).packet_length
unfolding fillin_packet
fillin_length h operation datalen request d fits e = omega arith

pub length-datagram_of :
    (s : Host) (p : Packet) (d : List ℕ) → length (datagram_of s p d) ≡ 10 + length d
unfolding datagram_of
length-datagram_of s p d =
    let sent : Packet = record p { packet_length = hton s.order p.packet_length } in
    omega (arith, length-append (packet_bytes ⦃h = s⦄ sent) d, length-packet_bytes s sent)

module _ (s r : Host) (ad : SockaddrIn) where
  pub read_packet-datagram_of :
      (p : Packet) (d rest : List ℕ)
      → IsPacket p
      → length d ≡ p.packet_length
      → read_packet ⦃h = r⦄ (datagram_of s p d ++ rest) ad
        ≡ ok (record {
          packet = record (seen s r p) { packet_length = p.packet_length };
          payload = d;
          addr = ad;
        })
  unfolding datagram_of read_packet seen
  read_packet-datagram_of p d rest v e = rw (append_assoc (packet_bytes ⦃h = s⦄ sent) d rest) (
      ground (
        arith,
        load_packet-packet_bytes s r sent (d ++ rest) sent-IsPacket,
        cross-hton s.order r.order p.packet_length,
        hton-hton r.order p.packet_length,
        v.packet_length,
        drop-length-append 10 (packet_bytes ⦃h = s⦄ sent) (d ++ rest) (length-packet_bytes s sent),
        take-length-append p.packet_length d rest e,
        length-append d rest,
      ))
    where
      sent : Packet
      sent = record p { packet_length = hton s.order p.packet_length }

      sent-IsPacket : IsPacket sent
      sent-IsPacket = record {
        magic = v.magic;
        version = v.version;
        request_handle = v.request_handle;
        packet_length = hton-lt s.order p.packet_length;
      }

  seen-fillin_packet :
      (operation datalen request : ℕ)
      → datalen < 2 ^ 16
      → request < 2 ^ 16
      → ◌≡◌ {A = Packet}
          (record (seen s r (fillin_packet ⦃h = s⦄ operation datalen request)) {
            packet_length = (fillin_packet ⦃h = s⦄ operation datalen request).packet_length;
          })
          (fillin_packet ⦃h = r⦄ operation datalen (cross s.order r.order request))
  unfolding seen fillin_packet
  seen-fillin_packet operation datalen request fits handle = ground (
    arith,
    cross-hton s.order r.order protocol_magic,
    cross-hton s.order r.order protocol_version,
    cross-lt s.order r.order request,
  )

  pub read_packet-fillin_packet :
      (operation datalen request : ℕ) (d rest : List ℕ)
      → datalen < 2 ^ 16
      → request < 2 ^ 16
      → length d ≡ datalen
      → read_packet ⦃h = r⦄
          (datagram_of s (fillin_packet ⦃h = s⦄ operation datalen request) d ++ rest)
          ad
        ≡ ok (record {
          packet = fillin_packet ⦃h = r⦄ operation datalen (cross s.order r.order request);
          payload = d;
          addr = ad;
        })
  read_packet-fillin_packet operation datalen request d rest fits handle e =
      read_packet-datagram_of _ d rest (fillin_packet-IsPacket ⦃h = s⦄ operation datalen request)
        (fillin_length s operation datalen request d fits e)
      ∙ ap (λ q. ok (record { packet = q; payload = d; addr = ad }))
          (seen-fillin_packet operation datalen request fits handle)

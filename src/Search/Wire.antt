-- ===== src/Search/Wire.antt =====
-- What send_packet and read_packet, pingu/socket.c, keep of a query between hosts of any two byte
-- orders.
use misc_uni_stuff.Base.{
  ℕ, ◌+◌, ◌^◌, ◌<◌, ◌≤◌, ◌≡◌, arith, refl, sym, ap, ◌∙◌, List, ◌++◌, drop, length, ok, ok-injective,
  subst,
}
use misc_uni_stuff.Host.{Host, Endian, little, big, load32, store32}
use misc_uni_stuff.Packet.{SockaddrIn, FullPacket, send_packet, read_packet, recvfrom, max_packet}
use misc_uni_stuff.Packet.Wire.{
  IsPacket, seen, cross-lt, datagram_of, send_packet-datagram_of, length-datagram_of,
  recvfrom-append, read_packet-datagram_of,
}

pub length-store32 : (e : Endian) (x : ℕ) → length (store32 e x) ≡ 4
unfolding store32
length-store32 little x = refl
length-store32 big x = refl

-- The word that a host loads where another one stored `x`: its bytes are the same.
pub load32-cross :
    (e f : Endian) (x : ℕ) (rest : List ℕ)
    → x < 2 ^ 32
    → (y : ℕ) × (load32 f (store32 e x ++ rest) ≡ ok y) × (store32 f y ≡ store32 e x) × (y < 2 ^ 32)
unfolding load32 store32
load32-cross little little x rest h = (x, ground arith, refl, h)
load32-cross big big x rest h = (x, ground arith, refl, h)
load32-cross little big x rest h = (_, refl, ground arith, omega arith)
load32-cross big little x rest h = (_, refl, ground arith, omega arith)

pub store32-nonzero :
    (e f : Endian) (x y : ℕ) → x < 2 ^ 32 → store32 f y ≡ store32 e x → ¬ (x ≡ 0) → ¬ (y ≡ 0)
unfolding store32
store32-nonzero little little x y h e n z = ground (arith, h, e, n, z)
store32-nonzero little big x y h e n z = ground (arith, h, e, n, z)
store32-nonzero big little x y h e n z = ground (arith, h, e, n, z)
store32-nonzero big big x y h e n z = ground (arith, h, e, n, z)

-- A packet whose fields fit their C types, whose length is that of its block, and that fits into
-- the receive buffer.
pub record Fits (p : FullPacket) : Type 0 where
  pub fields : IsPacket p.packet
  pub filled : length p.payload ≡ p.packet.packet_length
  pub room : p.packet.packet_length + 10 ≤ max_packet

-- What one host sends and the next reads.
abbrev pub Arrives : Host → Host → FullPacket → List ℕ → List ℕ → SockaddrIn → FullPacket → Type 0
Arrives e f q bytes buffer from p =
    (send_packet ⦃h = e⦄ q.packet q.payload ≡ ok bytes)
    × (read_packet ⦃h = f⦄ (recvfrom buffer bytes) from ≡ ok p)

abbrev crossed : Host → Host → FullPacket → SockaddrIn → FullPacket
crossed e f q from = record {
  packet = record (seen e f q.packet) { packet_length = q.packet.packet_length };
  payload = q.payload;
  addr = from;
}

Arrives-crossed :
    (e f : Host) (q p : FullPacket) (bytes buffer : List ℕ) (from : SockaddrIn)
    → Fits q
    → Arrives e f q bytes buffer from p
    → crossed e f q from ≡ p
Arrives-crossed e f q p bytes buffer from v (sent, arrived) =
    let room : q.packet.packet_length + 10 ≤ max_packet = v.room in
    let filled = v.filled in
    let size = length-datagram_of e q.packet q.payload in
    let bounded : length (datagram_of e q.packet q.payload) ≤ max_packet = omega arith in
    let datagram =
      ok-injective (sym (send_packet-datagram_of e q.packet q.payload v.filled) ∙ sent) in
    ok-injective (
      sym (
        read_packet-datagram_of e f from q.packet q.payload
          (drop (length (datagram_of e q.packet q.payload)) buffer) v.fields v.filled)
      ∙ ap (λ x. read_packet ⦃h = f⦄ x from)
          (sym (recvfrom-append buffer (datagram_of e q.packet q.payload) bounded)
            ∙ ap (recvfrom buffer) datagram)
      ∙ arrived)

crossed-Fits :
    (e f : Host) (q : FullPacket) (from : SockaddrIn) → Fits q → Fits (crossed e f q from)
unfolding seen
crossed-Fits e f q from v = record {
  fields = record {
    magic = cross-lt e.order f.order q.packet.magic v.fields.magic;
    version = cross-lt e.order f.order q.packet.version v.fields.version;
    request_handle = cross-lt e.order f.order q.packet.request_handle v.fields.request_handle;
    packet_length = v.fields.packet_length;
  };
  filled = v.filled;
  room = v.room;
}

-- A packet that fits arrives with its block and its length, and fits again.
pub Arrives-payload :
    (e f : Host) (q p : FullPacket) (bytes buffer : List ℕ) (from : SockaddrIn)
    → Fits q
    → Arrives e f q bytes buffer from p
    → (p.payload ≡ q.payload) × (p.packet.packet_length ≡ q.packet.packet_length) × Fits p
Arrives-payload e f q p bytes buffer from v a =
    let same = Arrives-crossed e f q p bytes buffer from v a in
    (
      sym (ap (λ (p : FullPacket). p.payload) same),
      sym (ap (λ (p : FullPacket). p.packet.packet_length) same),
      subst Fits same (crossed-Fits e f q from v),
    )

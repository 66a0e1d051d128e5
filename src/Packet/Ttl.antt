-- ===== src/Packet/Ttl.antt =====
-- send_packet and read_packet, pingu/socket.c: the ttl of a packet, whatever else is in it.
use misc_uni_stuff.Base.{
  ℕ, ◌-◌, ◌≤◌, ◌≡◌, arith, refl, sym, ap, ◌∙◌, List, [], ◌∷◌, ◌++◌, take, drop, length, ok,
  append_assoc, suc, zero, bind-ok,
}
use misc_uni_stuff.Host.{Host, load16, store16, hton}
use misc_uni_stuff.Packet.{
  Packet, SockaddrIn, FullPacket, packet_bytes, send_packet, load_packet, read_packet, recvfrom,
  max_packet, load8_pair,
}
use misc_uni_stuff.Packet.Wire.{length-packet_bytes}

-- A prefix of the list that is not longer than what is taken.
take-prefix : (n : ℕ) (l d : List ℕ) → length l ≤ n → take n (l ++ d) ≡ l ++ take (n - length l) d
take-prefix zero [] d e = refl
take-prefix (suc n) [] d e = let same : suc n - 0 ≡ suc n = omega arith in rw same refl
take-prefix zero (x ∷ l) d e = absurd (omega arith)
take-prefix (suc n) (x ∷ l) d e =
    let less : suc n - suc (length l) ≡ n - length l = omega arith in
    rw less (ap (◌∷◌ x) (take-prefix n l d (omega arith)))

load_packet-ttl :
    (e f : Host) (p r : Packet) (rest : List ℕ)
    → load_packet ⦃h = f⦄ (packet_bytes ⦃h = e⦄ p ++ rest) ≡ ok r
    → r.ttl ≡ p.ttl
unfolding load_packet packet_bytes load8_pair load16 store16
load_packet-ttl e f p r rest eq = ground (arith, eq)

read_packet-ttl :
    (f : Host) (bytes : List ℕ) (from : SockaddrIn) (r : FullPacket)
    → read_packet ⦃h = f⦄ bytes from ≡ ok r
    → (p : Packet) × (load_packet ⦃h = f⦄ bytes ≡ ok p) × (r.packet.ttl ≡ p.ttl)
unfolding read_packet
read_packet-ttl f bytes from r eq =
    let (p, loaded, rest) = bind-ok (load_packet ⦃h = f⦄ bytes) _ r eq in
    (p, loaded, ground (arith, rest))

send_packet-front :
    (e : Host) (p : Packet) (d bytes : List ℕ)
    → send_packet ⦃h = e⦄ p d ≡ ok bytes
    → packet_bytes ⦃h = e⦄ (record p { packet_length = hton e.order p.packet_length })
        ++ take p.packet_length d
      ≡ bytes
unfolding send_packet
send_packet-front e p d bytes eq = ground (arith, eq)

-- What one host sends and another one of any byte order receives, over any buffer, has the ttl that
-- it was sent with.
pub read_packet-send_packet_ttl :
    (e f : Host) (p : Packet) (d bytes buffer : List ℕ) (from : SockaddrIn) (r : FullPacket)
    → send_packet ⦃h = e⦄ p d ≡ ok bytes
    → read_packet ⦃h = f⦄ (recvfrom buffer bytes) from ≡ ok r
    → r.packet.ttl ≡ p.ttl
unfolding recvfrom
read_packet-send_packet_ttl e f p d bytes buffer from r sent read =
    let q : Packet = record p { packet_length = hton e.order p.packet_length } in
    let front = packet_bytes ⦃h = e⦄ q in
    let body = take p.packet_length d in
    let whole = send_packet-front e p d bytes sent in
    let (w, loaded, same) = read_packet-ttl f (recvfrom buffer bytes) from r read in
    let short : length front ≤ max_packet = (let n = length-packet_bytes e q in omega (arith, n)) in
    let tail = drop (length (take max_packet bytes)) buffer in
    let first : recvfrom buffer bytes ≡ front ++ (take (max_packet - length front) body ++ tail) =
      ap (λ l. take max_packet l ++ tail) (sym whole)
      ∙ ap (λ l. l ++ tail) (take-prefix max_packet front body short)
      ∙ append_assoc front (take (max_packet - length front) body) tail in
    same
    ∙ load_packet-ttl e f q w (take (max_packet - length front) body ++ tail)
        (ap (load_packet ⦃h = f⦄) (sym first) ∙ loaded)

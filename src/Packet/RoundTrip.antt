-- ===== src/Packet/RoundTrip.antt =====
-- What send_packet puts on the wire and what read_packet makes of it, pingu/socket.c.
use misc_uni_stuff.Base.{
  ℕ, ◌+◌, ◌<◌, ◌≤◌, ◌^◌, ◌≡◌, refl, sym, ap, ◌∙◌, arith, List, ◌++◌, take, drop, length, ok,
  append_assoc, take-append-drop, length-take, length-drop,
}
use misc_uni_stuff.Host.{Host, u16, hton}
use misc_uni_stuff.Packet.{
  SockaddrIn, FullPacket, fillin_packet, packet_bytes, send_packet, read_packet, recvfrom,
  max_packet,
}
use misc_uni_stuff.Packet.Wire.{
  cross, cross-cross, cross-lt, datagram_of, length-datagram_of, send_packet-datagram_of,
  recvfrom-append, fillin_length, length-packet_bytes, read_packet-fillin_packet,
}

module _ (s r : Host) (buffer : List ℕ) (ad : SockaddrIn) where
  -- A packet that fillin_packet fills in on `s` goes out with all of its data, and `r` reads it
  -- back over whatever its buffer held: the same header as if `r` had filled it in, the handle in
  -- the byte order of `s`, and the same data.
  pub read_packet-send_packet :
      (operation datalen request : ℕ) (d : List ℕ)
      → datalen + 10 ≤ max_packet
      → request < 2 ^ 16
      → length d ≡ datalen
      → (datagram : List ℕ) × (send_packet ⦃h = s⦄
            (fillin_packet ⦃h = s⦄ operation datalen request)
            d
          ≡ ok datagram)
        × (read_packet ⦃h = r⦄ (recvfrom buffer datagram) ad
            ≡ ok (record {
              packet = fillin_packet ⦃h = r⦄ operation datalen (cross s.order r.order request);
              payload = d;
              addr = ad;
            }))
  read_packet-send_packet operation datalen request d fits handle e = (
    datagram_of s (fillin_packet ⦃h = s⦄ operation datalen request) d,
    send_packet-datagram_of s _ d (fillin_length s operation datalen request d (omega arith) e),
    rw
        (recvfrom-append buffer (datagram_of s (fillin_packet ⦃h = s⦄ operation datalen request) d)
          (omega (arith, length-datagram_of s (fillin_packet ⦃h = s⦄ operation datalen request) d)))
        (read_packet-fillin_packet s r ad operation datalen request d _ (omega arith) handle e),
  )

  received_eq :
      (operation datalen request : ℕ) (d : List ℕ) {datagram : List ℕ} {p : FullPacket}
      → datalen + 10 ≤ max_packet
      → request < 2 ^ 16
      → length d ≡ datalen
      → send_packet ⦃h = s⦄ (fillin_packet ⦃h = s⦄ operation datalen request) d ≡ ok datagram
      → read_packet ⦃h = r⦄ (recvfrom buffer datagram) ad ≡ ok p
      → p ≡ record {
        packet = fillin_packet ⦃h = r⦄ operation datalen (cross s.order r.order request);
        payload = d;
        addr = ad;
      }
  received_eq operation datalen request d fits handle e sent got =
      let t = read_packet-send_packet operation datalen request d fits handle e in cc (t.1, t.2)

fillin_handle :
    (h : Host) (operation datalen request : ℕ)
    → request < 2 ^ 16
    → (fillin_packet ⦃h = h⦄ operation datalen request).request_handle ≡ request
unfolding fillin_packet
fillin_handle h operation datalen request small = omega arith

-- The handle that `r` copies from a request into its reply is, back on `s`, the handle that `s`
-- chose, whatever the byte orders of the two hosts and whatever else the two packets carry.
pub read_packet-handle_echo :
    (s r : Host) (buffer buffer' : List ℕ) (ad ad' : SockaddrIn) (operation datalen request : ℕ)
    (d : List ℕ) (operation' : ℕ) (d' : List ℕ) {datagram datagram' : List ℕ} {p p' : FullPacket}
    → request < 2 ^ 16
    → length d ≡ datalen
    → datalen + 10 ≤ max_packet
    → length d' + 10 ≤ max_packet
    → send_packet ⦃h = s⦄ (fillin_packet ⦃h = s⦄ operation datalen request) d ≡ ok datagram
    → read_packet ⦃h = r⦄ (recvfrom buffer datagram) ad ≡ ok p
    → send_packet ⦃h = r⦄ (fillin_packet ⦃h = r⦄ operation' (length d') p.packet.request_handle) d'
      ≡ ok datagram'
    → read_packet ⦃h = s⦄ (recvfrom buffer' datagram') ad' ≡ ok p'
    → (p'.packet.request_handle ≡ request) × (p'.payload ≡ d')
read_packet-handle_echo s r buffer buffer' ad ad' operation datalen request d operation' d'
      {datagram} {datagram'} {p} {p'} small e fits fits' sent got sent' got' =
    (
      ap (λ (q : FullPacket). q.packet.request_handle) back ∙ handle_back,
      ap (λ (q : FullPacket). q.payload) back,
    )
  where
    there : p ≡ record {
      packet = fillin_packet ⦃h = r⦄ operation datalen (cross s.order r.order request);
      payload = d;
      addr = ad;
    }
    there = received_eq s r buffer ad operation datalen request d fits small e sent got

    handle_eq : p.packet.request_handle ≡ cross s.order r.order request
    handle_eq =
        ap (λ (q : FullPacket). q.packet.request_handle) there
        ∙ fillin_handle r operation datalen _ (cross-lt s.order r.order request small)

    bounded : p.packet.request_handle < 2 ^ 16
    bounded = rw handle_eq (cross-lt s.order r.order request small)

    handle_back :
        (fillin_packet ⦃h = s⦄ operation'
          (length d')
          (cross r.order s.order p.packet.request_handle)).request_handle
        ≡ request
    handle_back =
        fillin_handle s operation' (length d') _
          (cross-lt r.order s.order p.packet.request_handle bounded)
        ∙ rw handle_eq (cross-cross s.order r.order request small)

    back : p' ≡ record {
      packet =
          fillin_packet ⦃h = s⦄ operation'
            (length d')
            (cross r.order s.order p.packet.request_handle);
      payload = d';
      addr = ad';
    }
    back =
        received_eq r s buffer' ad' operation' (length d') p.packet.request_handle d' fits' bounded
          refl sent' got'

-- Nobody compares the length in a header with the bytes that arrived: a datagram of the ten header
-- bytes alone, claiming `n` more, is read as if the `n` bytes that the buffer held there had been
-- sent.
pub read_packet_stale :
    (s r : Host) (buffer : List ℕ) (ad : SockaddrIn) (operation n request : ℕ)
    → n < 2 ^ 16
    → n + 10 ≤ length buffer
    → request < 2 ^ 16
    → read_packet ⦃h = r⦄
        (recvfrom buffer (
          packet_bytes ⦃h = s⦄ (record (fillin_packet ⦃h = s⦄ operation n request) {
            packet_length = hton s.order n;
          })))
        ad
      ≡ ok (record {
        packet = fillin_packet ⦃h = r⦄ operation n (cross s.order r.order request);
        payload = take n (drop 10 buffer);
        addr = ad;
      })
unfolding datagram_of fillin_packet
read_packet_stale s r buffer ad operation n request small long handle =
    ap (λ b. read_packet ⦃h = r⦄ b ad) regrouped
    ∙ read_packet-fillin_packet s r ad operation n request held (drop n (drop 10 buffer)) small
        handle (omega (arith, length-take n (drop 10 buffer), length-drop 10 buffer))
  where
    header : List ℕ
    header =
        packet_bytes ⦃h = s⦄
          (record (fillin_packet ⦃h = s⦄ operation n request) { packet_length = hton s.order n })

    headed : length header ≡ 10
    headed = length-packet_bytes s _

    short : length header ≤ max_packet
    short = omega (arith, headed)

    whole : n ≡ u16 n
    whole = omega arith

    held : List ℕ
    held = take n (drop 10 buffer)

    regrouped :
        recvfrom buffer header
        ≡ datagram_of s (fillin_packet ⦃h = s⦄ operation n request) held ++ drop n (drop 10 buffer)
    regrouped =
        recvfrom-append buffer header short
        ∙ ap (λ k. header ++ drop k buffer) headed
        ∙ ap (λ l. header ++ l) (sym (take-append-drop n (drop 10 buffer)))
        ∙ sym (append_assoc header held (drop n (drop 10 buffer)))
        ∙ ap
            (λ k.
              packet_bytes ⦃h = s⦄ (record (fillin_packet ⦃h = s⦄ operation n request) {
                packet_length = hton s.order k;
              })
              ++ held
              ++ drop n (drop 10 buffer))
            whole

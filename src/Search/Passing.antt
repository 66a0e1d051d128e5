-- ===== src/Search/Passing.antt =====
-- passed_on of pingu/filesearch.c and set_destination_ip of pingu/socket.c, at one host.
use misc_uni_stuff.Base.{
  ℕ, ◌+◌, ◌-◌, ◌<◌, ◌≤◌, ◌≡◌, ◌^◌, arith, List, drop, ◌++◌, Bool-cases, inl, inr, subst, refl, ap,
  ◌∙◌, ltb, ltb→lt, ◌==◌, if◌then◌else◌, some, ok, Result-cases, drop-length-append, length,
  length-append,
}
use misc_uni_stuff.Host.{Host, Endian, little, big, load32, store32, load32-store32}
use misc_uni_stuff.Packet.{FullPacket}
use misc_uni_stuff.Search.Wire.{Fits, length-store32}
use misc_uni_stuff.Search.{passed_on, set_destination_ip}

pub destination_known :
    (local current : ℕ) → ¬ (current ≡ 0) → ¬ (set_destination_ip local current ≡ 0)
unfolding set_destination_ip
destination_known local current known = ground arith

pub destination_word :
    (local current : ℕ)
    → local < 2 ^ 32
    → current < 2 ^ 32
    → set_destination_ip local current < 2 ^ 32
unfolding set_destination_ip
destination_word local current small word = ground arith

pub destination_kept :
    (local current : ℕ) → ¬ (local ≡ 0) → set_destination_ip local current ≡ local
unfolding set_destination_ip
destination_kept local current known = ground arith

pub drop-store32 : (e : Endian) (x : ℕ) (rest : List ℕ) → drop 4 (store32 e x ++ rest) ≡ rest
unfolding store32
drop-store32 little x rest = drop-length-append 4 (store32 little x) rest (ground arith)
drop-store32 big x rest = drop-length-append 4 (store32 big x) rest (ground arith)

module _ ⦃h : Host⦄ where
  -- A query that is passed on has hops left, and is this one.
  passed : FullPacket → ℕ → FullPacket
  passed p local = record p {
    packet = record p.packet { ttl = (if ltb 2 p.packet.ttl then 2 else p.packet.ttl) - 1 };
    payload = if local == 0 then store32 h.order p.addr.s_addr ++ drop 4 p.payload else p.payload;
  }

  passed_on-inversion :
      (p q : FullPacket) (local : ℕ)
      → load32 h.order p.payload ≡ ok local
      → passed_on p ≡ ok (some q)
      → (0 < p.packet.ttl) × (passed p local ≡ q)
  unfolding passed_on passed
  passed_on-inversion p q local loaded eq = elim (Bool-cases (ltb 2 p.packet.ttl)) [
    | inl e ↦
        (let less : 2 < p.packet.ttl = ltb→lt 2 p.packet.ttl e in
          ground (arith, loaded, eq, less, e))
    | inr e ↦ elim (Bool-cases (ltb 0 p.packet.ttl)) [
      | inl e' ↦
          (let less : 0 < p.packet.ttl = ltb→lt 0 p.packet.ttl e' in
            ground (arith, loaded, eq, less, e, e'))
      | inr e' ↦ ground (arith, loaded, eq, e, e')
    ]
  ]

  one_less :
      (n : ℕ)
      → 0 < n
      → ((if ltb 2 n then 2 else n) - 1 + 1 ≤ n) × ((if ltb 2 n then 2 else n) - 1 ≤ 1)
  one_less n h = ground arith

  -- Where no address is carried yet, the address of the sender is put in.
  passed_payload :
      (p : FullPacket) (local : ℕ) (rest : List ℕ)
      → p.payload ≡ store32 h.order local ++ rest
      → (passed p local).payload ≡ store32 h.order (set_destination_ip local p.addr.s_addr) ++ rest
  unfolding passed set_destination_ip
  passed_payload p local rest e = elim (Bool-cases (local == 0)) [
    | inl zero ↦
        (rw zero (
          ap (λ l. store32 h.order p.addr.s_addr ++ drop 4 l) e
          ∙ ap (λ l. store32 h.order p.addr.s_addr ++ l) (drop-store32 h.order local rest)))
    | inr other ↦ (rw other e)
  ]

  passed_on-load :
      (p q : FullPacket)
      → passed_on p ≡ ok (some q)
      → (local : ℕ) × (load32 h.order p.payload ≡ ok local)
  unfolding passed_on
  passed_on-load p q eq = elim (Result-cases (load32 h.order p.payload)) [
    | inl loaded ↦ loaded
    | inr e ↦ ground (arith, eq, e.1)
  ]

  pub passed_on-ttl :
      (p q : FullPacket)
      → passed_on p ≡ ok (some q)
      → (q.packet.ttl + 1 ≤ p.packet.ttl) × (q.packet.ttl ≤ 1)
  unfolding passed
  passed_on-ttl p q eq =
      let l = passed_on-load p q eq in
      let i = passed_on-inversion p q l.0 l.1 eq in
      subst (λ q. (q.packet.ttl + 1 ≤ p.packet.ttl) × (q.packet.ttl ≤ 1)) i.1
        (one_less p.packet.ttl i.0)

  -- What is passed on fits as the packet did.
  pub passed_on-Fits :
      (p q : FullPacket) (local : ℕ) (rest : List ℕ)
      → p.payload ≡ store32 h.order local ++ rest
      → local < 2 ^ 32
      → Fits p
      → passed_on p ≡ ok (some q)
      → (q.payload ≡ store32 h.order (set_destination_ip local p.addr.s_addr) ++ rest)
        × (q.packet.packet_length ≡ p.packet.packet_length)
        × Fits q
  unfolding passed
  passed_on-Fits p q local rest carried small v eq =
      let loaded : load32 h.order p.payload ≡ ok local =
        ap (load32 h.order) carried ∙ load32-store32 h.order local rest small in
      let i = (passed_on-inversion p q local loaded eq).1 in
      let payload = passed_payload p local rest carried in
      let v' = set_destination_ip local p.addr.s_addr in
      let size = ap length payload ∙ length-append (store32 h.order v') rest in
      let size' = ap length carried ∙ length-append (store32 h.order local) rest in
      let four = length-store32 h.order v' in
      let four' = length-store32 h.order local in
      let filled = v.filled in
      let fits : Fits (passed p local) = record {
        fields = record {
          magic = v.fields.magic;
          version = v.fields.version;
          request_handle = v.fields.request_handle;
          packet_length = v.fields.packet_length;
        };
        filled = omega arith;
        room = v.room;
      } in
      subst
        (λ q.
          (q.payload ≡ store32 h.order v' ++ rest)
          × (q.packet.packet_length ≡ p.packet.packet_length)
          × Fits q)
        i (payload, refl, fits)

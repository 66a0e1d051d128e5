-- ===== src/Search/Query.antt =====
-- A query as it is sent and as it is read: searchfile's payload and query_pattern, of
-- pingu/filesearch.c.
use misc_uni_stuff.Base.{
  ℕ, ◌+◌, ◌^◌, ◌<◌, ◌≤◌, ◌≡◌, arith, refl, ap, ◌∙◌, List, [], ◌∷◌, All, drop, take, length, ◌-◌,
  ◌++◌, le→leb, ok, length-append, ok-injective, length-drop, take_all, sym, ◌/◌, ◌%◌,
}
use misc_uni_stuff.Host.{
  Host, Endian, little, big, hton, load16, load32, store32, store16-hton, load16-store16, hton-lt,
  load32-store32,
}
use misc_uni_stuff.Net.{servlet_port}
use misc_uni_stuff.Packet.{FullPacket, max_packet}
use misc_uni_stuff.Packet.Wire.{IsPacket}
use misc_uni_stuff.Search.Wire.{Fits, length-store32}
use misc_uni_stuff.Search.Passing.{drop-store32}
use misc_uni_stuff.Search.Hops.{Passed, Passed-carried}
use misc_uni_stuff.Search.{set_destination_ip, c_string, copy_out, query_pattern, query_payload}

-- No byte of a C string is NUL.
unfoldable pub IsText : List ℕ → Type 0
IsText l = All (λ b. 0 < b) l

pub c_string_text : (l : List ℕ) → IsText l → c_string l ≡ l
unfolding c_string IsText
c_string_text [] t = refl
c_string_text (b ∷ l) t = let more = c_string_text l t.1 in ground (arith, more)

pub load32-length : (e : Endian) (l : List ℕ) (v : ℕ) → load32 e l ≡ ok v → 4 ≤ length l
unfolding load32
load32-length e l v eq = ground (arith, eq)

drop-drop4 : (l : List ℕ) → drop 4 (drop 4 l) ≡ drop 8 l
drop-drop4 l = ground arith

query_pattern-text :
    ⦃h : Host⦄ (p : FullPacket) (text : List ℕ)
    → IsText text
    → drop 8 p.payload ≡ text
    → 8 ≤ length p.payload
    → p.packet.packet_length ≡ 8 + length text
    → query_pattern p ≡ ok text
unfolding query_pattern copy_out
query_pattern-text p text t e long len =
    let size : length p.payload ≡ 8 + length text =
      (let d = length-drop 8 p.payload in let d' = ap length e in omega arith) in
    let whole : take (length text) (drop 8 p.payload) ≡ text =
      ap (take (length text)) e ∙ take_all (length text) text (omega arith) in
    let read = ap c_string whole ∙ c_string_text text t in
    let amount : 8 + length text - 8 ≡ length text = omega arith in
    rw
      (
        len,
        le→leb 8 (8 + length text) (omega arith),
        le→leb (8 + length text) (length p.payload) (omega arith),
        amount,
        read,
      )
      refl

load16-network :
    (e : Endian) (x : ℕ) (rest : List ℕ)
    → load16 e ((x / 256 % 256) ∷ (x % 256) ∷ rest) ≡ ok (hton e x)
load16-network e x rest =
    ap (λ l. load16 e (l ++ rest)) (sym (store16-hton e x))
    ∙ load16-store16 e (hton e x) rest (hton-lt e x)

store32-zero : (e f : Endian) → store32 e 0 ≡ store32 f 0
unfolding store32
store32-zero little little = refl
store32-zero little big = refl
store32-zero big little = refl
store32-zero big big = refl

-- A query whose text has no NUL, as its first receiver has it: it carries no address.
query_payload-carried :
    (s e : Host) (text : List ℕ) (junk junk' : ℕ)
    → query_payload ⦃h = s⦄ text junk junk'
      ≡ store32 e.order 0 ++ ((3773 / 256 % 256) ∷ (3773 % 256) ∷ junk ∷ junk' ∷ text)
unfolding query_payload
query_payload-carried s e text junk junk' =
    let rest = (3773 / 256 % 256) ∷ (3773 % 256) ∷ junk ∷ junk' ∷ text in
    ap (λ l. store32 s.order 0 ++ (l ++ (junk ∷ junk' ∷ text))) (store16-hton s.order servlet_port)
    ∙ ap (λ l. l ++ rest) (store32-zero s.order e.order)

-- The first receiver answers to the address that it has the query from.
pub query_payload-answered :
    (s e : Host) (text : List ℕ) (junk junk' local current : ℕ)
    → load32 e.order (query_payload ⦃h = s⦄ text junk junk') ≡ ok local
    → set_destination_ip local current ≡ current
unfolding set_destination_ip
query_payload-answered s e text junk junk' local current loaded =
    let rest = (3773 / 256 % 256) ∷ (3773 % 256) ∷ junk ∷ junk' ∷ text in
    let carried = query_payload-carried s e text junk junk' in
    let zero : local ≡ 0 =
      ok-injective
        (sym loaded ∙ ap (load32 e.order) carried ∙ load32-store32 e.order 0 rest (omega arith)) in
    rw zero refl

-- A query from a host `s`, whose text has no NUL and fits into a packet, at its first receiver `e`,
-- which has it from an address other than 0, in a packet whose fields fit their C types: every host
-- `r` that it comes to reads it, however often it is passed on and whatever the byte orders of all
-- these hosts. The text is the sender's, the address to answer to has the bytes of the address that
-- `e` had it from, and the port is 3773 in network order.
pub query_pattern-query_payload :
    (s e r : Host) (text : List ℕ) (junk junk' : ℕ) (p q : FullPacket) (n : ℕ)
    → IsText text
    → length text + 18 ≤ max_packet
    → IsPacket p.packet
    → p.payload ≡ query_payload ⦃h = s⦄ text junk junk'
    → p.packet.packet_length ≡ 8 + length text
    → p.addr.s_addr < 2 ^ 32
    → ¬ (p.addr.s_addr ≡ 0)
    → Passed e p n r q
    → (query_pattern ⦃h = r⦄ q ≡ ok text)
      × (((local : ℕ) × (load32 r.order q.payload ≡ ok local)
            × (store32 r.order (set_destination_ip local q.addr.s_addr)
                ≡ store32 e.order p.addr.s_addr))
          × (load16 r.order (drop 4 q.payload) ≡ ok (hton r.order servlet_port)))
unfolding set_destination_ip
query_pattern-query_payload s e r text junk junk' p q n t room fields payload len small known way =
    let rest = (3773 / 256 % 256) ∷ (3773 % 256) ∷ junk ∷ junk' ∷ text in
    let carried : p.payload ≡ store32 e.order 0 ++ rest =
      payload ∙ query_payload-carried s e text junk junk' in
    let size = ap length carried ∙ length-append (store32 e.order 0) rest in
    let four = length-store32 e.order 0 in
    let fits : Fits p = record { fields = fields; filled = omega arith; room = omega arith } in
    let (y, there, same, small', fits') =
      Passed-carried e r p q n 0 rest fits carried (omega arith) small known way in
    let after : drop 4 q.payload ≡ rest = ap (drop 4) there ∙ drop-store32 r.order y rest in
    let whole : drop 8 q.payload ≡ text = sym (drop-drop4 q.payload) ∙ ap (drop 4) after in
    let size' = ap length there ∙ length-append (store32 r.order y) rest in
    let four' = length-store32 r.order y in
    let filled = fits'.filled in
    (
      query_pattern-text ⦃h = r⦄ q text t whole (omega arith) (omega arith),
      (
        (y, ap (load32 r.order) there ∙ load32-store32 r.order y rest small', same),
        ap (load16 r.order) after ∙ load16-network r.order 3773 (junk ∷ junk' ∷ text),
      ),
    )

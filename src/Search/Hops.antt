-- ===== src/Search/Hops.antt =====
-- How far a query travels, and where the answers to it go: passed_on and set_destination_ip of
-- pingu/filesearch.c and pingu/socket.c.
use misc_uni_stuff.Base.{
  ℕ, ◌+◌, ◌<◌, ◌≤◌, ◌≡◌, ◌^◌, suc, arith, List, drop, ◌++◌, refl, sym, ap, ◌∙◌, some, ok,
}
use misc_uni_stuff.Host.{Host, load32, store32, load32-store32}
use misc_uni_stuff.Packet.{FullPacket, SockaddrIn, send_packet, read_packet, recvfrom}
use misc_uni_stuff.Packet.Ttl.{read_packet-send_packet_ttl}
use misc_uni_stuff.Search.Wire.{Fits, Arrives, Arrives-payload, load32-cross, store32-nonzero}
use misc_uni_stuff.Search.{passed_on, set_destination_ip}
use misc_uni_stuff.Search.Passing.{
  destination_known, destination_word, destination_kept, drop-store32, passed_on-ttl,
  passed_on-Fits,
}

-- A query that hosts pass on one after the other: `Passed e p n g q` when `e` has `p`, and after `n`
-- hosts passed it on, `g` has `q`. What passed_on gives is sent, received by the next host, of any
-- byte order, from some address and over any buffer, and read there.
pub data Passed : Host → FullPacket → ℕ → Host → FullPacket → Type 0 where
  here : (e : Host) (p : FullPacket) → Passed e p 0 e p
  next :
      {e f g : Host} {p q p' r : FullPacket} {n : ℕ} (from : SockaddrIn) (bytes buffer : List ℕ)
      → passed_on ⦃h = e⦄ p ≡ ok (some q)
      → send_packet ⦃h = e⦄ q.packet q.payload ≡ ok bytes
      → read_packet ⦃h = f⦄ (recvfrom buffer bytes) from ≡ ok p'
      → Passed f p' n g r
      → Passed e p (suc n) g r

Passed-ttl :
    {e g : Host} {p r : FullPacket} {n : ℕ} → Passed e p n g r → n + r.packet.ttl ≤ p.packet.ttl
Passed-ttl (here e p) = omega arith
Passed-ttl (next {e} {f} {g} {p} {q} {p'} {r} {n} from bytes buffer eq sent read rest) =
    let less = passed_on-ttl ⦃h = e⦄ p q eq in
    let kept = read_packet-send_packet_ttl e f q.packet q.payload bytes buffer from p' sent read in
    let more = Passed-ttl rest in omega (arith, less.0, kept, more)

-- A query is passed on at most twice, and never more often than its ttl says.
pub Passed-hops :
    (e g : Host) (p r : FullPacket) (n : ℕ)
    → Passed e p n g r
    → (n ≤ 2) × (n + r.packet.ttl ≤ p.packet.ttl)
Passed-hops e g p r n (here _ _) = (omega arith, omega arith)
Passed-hops e g p r n (next {f} {q} {p'} from bytes buffer eq sent read rest) =
    let less = passed_on-ttl ⦃h = e⦄ p q eq in
    let kept = read_packet-send_packet_ttl e f q.packet q.payload bytes buffer from p' sent read in
    let more = Passed-ttl rest in
    (omega (arith, less.1, kept, more), omega (arith, less.0, kept, more))

-- A query that carries an address, at the next host: it carries the same one, and fits.
module _ (e f : Host) (p q p' : FullPacket) (from : SockaddrIn) (bytes buffer rest : List ℕ) where
  passed_on-arrived :
      (local : ℕ)
      → Fits p
      → p.payload ≡ store32 e.order local ++ rest
      → local < 2 ^ 32
      → set_destination_ip local p.addr.s_addr < 2 ^ 32
      → passed_on ⦃h = e⦄ p ≡ ok (some q)
      → Arrives e f q bytes buffer from p'
      → (y : ℕ) × (p'.payload ≡ store32 f.order y ++ rest)
        × (store32 f.order y ≡ store32 e.order (set_destination_ip local p.addr.s_addr))
        × (y < 2 ^ 32)
        × Fits p'
  passed_on-arrived local v carried small word eq a =
      let (payload, len, fits) = passed_on-Fits ⦃h = e⦄ p q local rest carried small v eq in
      let (payload', len', fits') = Arrives-payload e f q p' bytes buffer from fits a in
      let (y, loaded, same, small') =
        load32-cross e.order f.order (set_destination_ip local p.addr.s_addr) rest word in
      (y, payload' ∙ payload ∙ ap (λ l. l ++ rest) (sym same), same, small', fits')

Passed-kept :
    {e g : Host} {p r : FullPacket} {n : ℕ} (local : ℕ) (rest : List ℕ)
    → Fits p
    → p.payload ≡ store32 e.order local ++ rest
    → local < 2 ^ 32
    → ¬ (local ≡ 0)
    → Passed e p n g r
    → (y : ℕ) × (r.payload ≡ store32 g.order y ++ rest)
      × (store32 g.order y ≡ store32 e.order local)
      × (y < 2 ^ 32)
      × (¬ (y ≡ 0))
      × Fits r
Passed-kept local rest v carried small known (here e p) = (local, carried, refl, small, known, v)
Passed-kept local rest v carried small known
      (next {e} {f} {g} {p} {q} {p'} {r} {n} from bytes buffer eq sent read way) =
    let kept = destination_kept local p.addr.s_addr known in
    let (y, carried', same, small', v') =
      passed_on-arrived e f p q p' from bytes buffer rest local v carried small (rw kept small) eq
        (sent, read) in
    let same' = same ∙ ap (store32 e.order) kept in
    let known' = store32-nonzero e.order f.order local y small same' known in
    let (z, carried'', same'', small'', known'', v'') =
      Passed-kept y rest v' carried' small' known' way in
    (z, carried'', same'' ∙ same', small'', known'', v'')

-- The query at the last host.
pub Passed-carried :
    (e g : Host) (p r : FullPacket) (n local : ℕ) (rest : List ℕ)
    → Fits p
    → p.payload ≡ store32 e.order local ++ rest
    → local < 2 ^ 32
    → p.addr.s_addr < 2 ^ 32
    → ¬ (p.addr.s_addr ≡ 0)
    → Passed e p n g r
    → (y : ℕ) × (r.payload ≡ store32 g.order y ++ rest)
      × (store32 g.order (set_destination_ip y r.addr.s_addr)
          ≡ store32 e.order (set_destination_ip local p.addr.s_addr))
      × (y < 2 ^ 32)
      × Fits r
Passed-carried e g p r n local rest v carried small word known (here _ _) =
    (local, carried, refl, small, v)
Passed-carried e g p r n local rest v carried small word known
      (next {f} {q} {p'} from bytes buffer eq sent read way) =
    let (y, carried', same, small', v') =
      passed_on-arrived e f p q p' from bytes buffer rest local v carried small
        (destination_word local p.addr.s_addr small word) eq (sent, read) in
    let other = destination_known local p.addr.s_addr known in
    let nonzero =
      store32-nonzero e.order f.order (set_destination_ip local p.addr.s_addr) y
        (destination_word local p.addr.s_addr small word) same other in
    let (z, carried'', same'', small'', known'', v'') =
      Passed-kept y rest v' carried' small' nonzero way in
    (
      z,
      carried'',
      ap (store32 g.order) (destination_kept z r.addr.s_addr known'') ∙ same'' ∙ same,
      small'',
      v'',
    )

-- A query whose fields fit their C types, whose length is that of its block, that fits into the
-- receive buffer and whose sender is not at address 0: the address that a host answers to has the
-- same bytes at every host that the query comes to, however often it was passed on and whatever
-- the byte orders of the hosts: those that it carries, or those of its first sender's address; and
-- all the bytes after the address are the first sender's.
pub Passed-set_destination_ip :
    (e g : Host) (p r : FullPacket) (n local : ℕ) (rest : List ℕ)
    → Fits p
    → p.payload ≡ store32 e.order local ++ rest
    → local < 2 ^ 32
    → p.addr.s_addr < 2 ^ 32
    → ¬ (p.addr.s_addr ≡ 0)
    → Passed e p n g r
    → ((local' : ℕ) × (load32 g.order r.payload ≡ ok local')
        × (store32 g.order (set_destination_ip local' r.addr.s_addr)
            ≡ store32 e.order (set_destination_ip local p.addr.s_addr)))
      × (drop 4 r.payload ≡ rest)
Passed-set_destination_ip e g p r n local rest v carried small word known way =
    let (y, carried', same, small', v') =
      Passed-carried e g p r n local rest v carried small word known way in
    (
      (y, ap (load32 g.order) carried' ∙ load32-store32 g.order y rest small', same),
      ap (drop 4) carried' ∙ drop-store32 g.order y rest,
    )

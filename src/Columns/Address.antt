-- ===== src/Columns/Address.antt =====
-- An address as inet_ntop writes it, and as it is read back.
use misc_uni_stuff.Base.{
  ℕ, zero, suc, ◌+◌, ◌*◌, ◌≡◌, ◌<◌, ◌≤◌, refl, ◌∙◌, ap, subst, arith, List, [], ◌∷◌, ◌++◌, All,
  length, lt→ltb, length-append, append_assoc,
}
use misc_uni_stuff.Host.{Host, Endian, little, big, store32}
use misc_uni_stuff.Columns.{dotted, inet_ntop}
use misc_uni_stuff.Columns.Decimal.{decimal, numbers, numbers-decimal, numbers_last, length-decimal}

numbers-dotted :
    (n b k : ℕ) (bytes rest : List ℕ)
    → n ≡ length bytes + k
    → All (λ x. x < 256) (b ∷ bytes)
    → numbers (suc n) (dotted (b ∷ bytes) ++ 58 ∷ rest) ≡ b ∷ bytes ++ numbers k rest
unfolding dotted
numbers-dotted n b k [] rest h v =
    let same : n ≡ k = omega arith in
    rw same (numbers-decimal k b 58 rest (omega (arith, v.0)) refl)
numbers-dotted zero b k (c ∷ bytes) rest h v = absurd (omega arith)
numbers-dotted (suc n) b k (c ∷ bytes) rest h v =
    ap (numbers (suc (suc n))) (append_assoc (decimal b) (46 ∷ dotted (c ∷ bytes)) (58 ∷ rest))
    ∙ numbers-decimal (suc n) b 46 _ (omega (arith, v.0)) refl
    ∙ ap (λ l. b ∷ l) (numbers-dotted n c k bytes rest (omega arith) v.1)

numbers-dotted_last :
    (b : ℕ) (bytes : List ℕ)
    → All (λ x. x < 256) (b ∷ bytes)
    → numbers (suc (length bytes)) (dotted (b ∷ bytes)) ≡ b ∷ bytes
unfolding dotted
numbers-dotted_last b [] v = numbers_last b (omega (arith, v.0))
numbers-dotted_last b (c ∷ bytes) v =
    numbers-decimal (suc (length bytes)) b 46 _ (omega (arith, v.0)) refl
    ∙ ap (λ l. b ∷ l) (numbers-dotted_last c bytes v.1)

length-dotted :
    (b : ℕ) (bytes : List ℕ)
    → All (λ x. x < 256) (b ∷ bytes)
    → length (dotted (b ∷ bytes)) ≤ 3 + 4 * length bytes
unfolding dotted
length-dotted b [] v = omega (arith, length-decimal b v.0)
length-dotted b (c ∷ bytes) v =
    let first = length-decimal b v.0 in
    let others = length-dotted c bytes v.1 in
    let both = length-append (decimal b) (46 ∷ dotted (c ∷ bytes)) in
    omega (arith, first, others, both)

-- The bytes of an address: four of them.
record IsAddress (l : List ℕ) : Type 0 where
  first : ℕ
  others : List ℕ
  same : l ≡ first ∷ others
  three : length others ≡ 3
  bytes : All (λ x. x < 256) (first ∷ others)

store32-IsAddress : (e : Endian) (a : ℕ) → IsAddress (store32 e a)
unfolding store32
store32-IsAddress little a = record {
  first = _;
  others = _;
  same = refl;
  three = refl;
  bytes = (omega arith, (omega arith, (omega arith, (omega arith, tt))));
}
store32-IsAddress big a = record {
  first = _;
  others = _;
  same = refl;
  three = refl;
  bytes = (omega arith, (omega arith, (omega arith, (omega arith, tt))));
}

module _ ⦃h : Host⦄ where
  -- A block of sixteen bytes is enough for any address.
  pub inet_ntop_fits :
      (s_addr : ℕ) (dst : List ℕ) (size : ℕ)
      → 16 ≤ size
      → inet_ntop s_addr dst size ≡ dotted (store32 h.order s_addr)
  unfolding inet_ntop
  inet_ntop_fits s_addr dst size room =
      let is = store32-IsAddress h.order s_addr in
      let long = length-dotted is.first is.others is.bytes in
      let few = is.three in
      let short : length (dotted (store32 h.order s_addr)) < size = rw is.same (omega arith) in
      rw (lt→ltb _ size short) refl

  -- The numbers in the text are the bytes of the address in the order in which they stand in
  -- memory.
  pub numbers-address :
      (s_addr : ℕ) → numbers 4 (dotted (store32 h.order s_addr)) ≡ store32 h.order s_addr
  numbers-address s_addr =
      let is = store32-IsAddress h.order s_addr in
      let digits = numbers-dotted_last is.first is.others is.bytes in
      rw is.same (
        subst (λ n. numbers (suc n) (dotted (is.first ∷ is.others)) ≡ is.first ∷ is.others) is.three
          digits)

  pub numbers-host :
      (s_addr : ℕ) (rest : List ℕ)
      → numbers 5 (dotted (store32 h.order s_addr) ++ 58 ∷ rest)
        ≡ store32 h.order s_addr ++ numbers 1 rest
  numbers-host s_addr rest =
      let is = store32-IsAddress h.order s_addr in
      let few = is.three in
      rw is.same (numbers-dotted 4 is.first 1 is.others rest (omega arith) is.bytes)

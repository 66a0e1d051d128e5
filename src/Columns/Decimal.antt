-- ===== src/Columns/Decimal.antt =====
-- What printf writes for %i, and inet_ntop for an address of the Internet; and how both are read.
use misc_uni_stuff.Base.{
  ℕ, zero, suc, ◌+◌, ◌-◌, ◌*◌, ◌/◌, ◌%◌, ◌^◌, ◌≡◌, ◌<◌, ◌≤◌, refl, sym, arith, List, [], ◌∷◌, ◌++◌,
  true, ◌||◌, ◌==◌, ltb, if◌then◌else◌, ℤ, pos, negsuc, length, drop, append-nil,
}

-- The digits of `n` before `out`, at most `fuel` of them.
unfoldable pub digits : ℕ → ℕ → List ℕ → List ℕ
digits zero n out = out
digits (suc fuel) n out =
    let rest = digits fuel (n / 10) ((48 + n % 10) ∷ out) in if n == 0 then out else rest

-- Ten digits are enough for 32 bits.
unfoldable pub decimal : ℕ → List ℕ
decimal n = if n == 0 then 48 ∷ [] else digits 10 n []

unfoldable pub signed_decimal : ℤ → List ℕ
signed_decimal (pos n) = decimal n
signed_decimal (negsuc n) = 45 ∷ decimal (suc n)

-- The number that stands at the front of a text, after the digits that made `n`, and what is left.
abbrev pub take_number : ℕ → List ℕ → ℕ × List ℕ
take_number n [] = (n, [])
take_number n (c ∷ text) =
    let rest = take_number (n * 10 + (c - 48)) text in
    if ltb c 48 || ltb 57 c then (n, c ∷ text) else rest

-- So many numbers, with one character between two of them.
abbrev pub numbers : ℕ → List ℕ → List ℕ
numbers zero text = []
numbers (suc k) text = let (n, rest) = take_number 0 text in n ∷ numbers k (drop 1 rest)

last_digit : (n : ℕ) (out : List ℕ) → take_number (n / 10) ((48 + n % 10) ∷ out) ≡ take_number n out
last_digit n out = ground arith

power_step : (n fuel : ℕ) → n < 10 ^ suc fuel → n / 10 < 10 ^ fuel
power_step n fuel h = omega arith

take_number-digits :
    (fuel n : ℕ) (out : List ℕ)
    → n < 10 ^ fuel
    → take_number 0 (digits fuel n out) ≡ take_number n out
unfolding digits
take_number-digits zero n out h = ground arith
take_number-digits (suc fuel) n out h =
    let rest = take_number-digits fuel (n / 10) ((48 + n % 10) ∷ out) (power_step n fuel h) in
    ground (arith, rest, last_digit n out)

digits-append :
    (fuel n : ℕ) (out rest : List ℕ) → digits fuel n out ++ rest ≡ digits fuel n (out ++ rest)
unfolding digits
digits-append zero n out rest = refl
digits-append (suc fuel) n out rest =
    ground (arith, digits-append fuel (n / 10) ((48 + n % 10) ∷ out) rest)

-- A number is read back, with what follows it.
pub take_number-decimal :
    (n : ℕ) (rest : List ℕ) → n < 2 ^ 32 → take_number 0 (decimal n ++ rest) ≡ take_number n rest
unfolding decimal
take_number-decimal n rest h =
    let front = digits-append 10 n [] rest in
    let back = take_number-digits 10 n rest (omega arith) in ground (arith, front, back)

pub numbers-decimal :
    (k n c : ℕ) (rest : List ℕ)
    → n < 2 ^ 32
    → (ltb c 48 || ltb 57 c) ≡ true
    → numbers (suc k) (decimal n ++ c ∷ rest) ≡ n ∷ numbers k rest
numbers-decimal k n c rest h stop = rw (take_number-decimal n (c ∷ rest) h, stop) refl

pub numbers_last : (n : ℕ) → n < 2 ^ 32 → numbers 1 (decimal n) ≡ n ∷ []
numbers_last n h = rw (sym (append-nil (decimal n)), take_number-decimal n [] h) refl

length-digits :
    (fuel k n : ℕ) (out : List ℕ) → n < 10 ^ k → length (digits fuel n out) ≤ k + length out
unfolding digits
length-digits zero k n out h = omega arith
length-digits (suc fuel) zero n out h = ground arith
length-digits (suc fuel) (suc k) n out h =
    let shorter = length-digits fuel k (n / 10) ((48 + n % 10) ∷ out) (power_step n k h) in
    ground (arith, shorter)

pub length-decimal : (b : ℕ) → b < 256 → length (decimal b) ≤ 3
unfolding decimal
length-decimal b h = let short = length-digits 10 3 b [] (omega arith) in ground (arith, short)

-- ===== src/FileDb/Text.antt =====
-- get_md5sum_text of pingu/file_db.c: a sum of sixteen bytes in hexadecimal digits.
use misc_uni_stuff.Base.{
  ℕ, zero, suc, ◌+◌, ◌-◌, ◌*◌, ◌/◌, ◌%◌, ◌≡◌, ◌<◌, ◌≤◌, refl, arith, List, [], ◌∷◌, All, ltb,
  if◌then◌else◌, length, take, ok,
}
use misc_uni_stuff.FileDb.{hex_digit, hex_loop, get_md5sum_text}

-- The number that a digit stands for, and the bytes that pairs of digits stand for.
abbrev pub digit_value : ℕ → ℕ
digit_value c = if ltb c 58 then c - 48 else c - 87

abbrev pub read_hex : List ℕ → List ℕ
read_hex [] = []
read_hex (c ∷ []) = []
read_hex (c ∷ d ∷ rest) = (digit_value c * 16 + digit_value d) ∷ read_hex rest

digit_value-hex_digit : (d : ℕ) → d < 16 → digit_value (hex_digit d) ≡ d
digit_value-hex_digit d h = ground arith

byte-read_hex :
    (b : ℕ) → b < 256 → digit_value (hex_digit (b / 16)) * 16 + digit_value (hex_digit (b % 16)) ≡ b
byte-read_hex b h =
    let high = digit_value-hex_digit (b / 16) (omega arith) in
    let low = digit_value-hex_digit (b % 16) (omega arith) in omega (arith, high, low)

-- What the loop makes of a long enough block: its digits, and that they read back.
record IsText (md5sum : List ℕ) (n : ℕ) (text : List ℕ) : Type 0 where
  runs : hex_loop n md5sum ≡ ok text
  size : length text ≡ 2 * n
  back : read_hex text ≡ take n md5sum

hex_loop-IsText :
    (n : ℕ) (md5sum : List ℕ)
    → n ≤ length md5sum
    → All (λ b. b < 256) md5sum
    → (text : List ℕ) × IsText md5sum n text
unfolding hex_loop
hex_loop-IsText zero md5sum h v = ([], record { runs = refl; size = refl; back = refl })
hex_loop-IsText (suc n) [] h v = absurd (omega arith)
hex_loop-IsText (suc n) (b ∷ md5sum) h v =
    let (text, is) = hex_loop-IsText n md5sum (omega arith) v.1 in
    (
      hex_digit (b / 16) ∷ hex_digit (b % 16) ∷ text,
      record {
        runs = rw is.runs refl;
        size = omega (arith, is.size);
        back = rw (byte-read_hex b v.0, is.back) refl;
      },
    )

-- The text of a sum is 32 digits, which read back as the sum: different sums have different texts.
pub read_hex-get_md5sum_text :
    (md5sum : List ℕ)
    → 16 ≤ length md5sum
    → All (λ b. b < 256) md5sum
    → (text : List ℕ) × (get_md5sum_text md5sum ≡ ok text)
      × (length text ≡ 32)
      × (read_hex text ≡ take 16 md5sum)
unfolding get_md5sum_text
read_hex-get_md5sum_text md5sum h v =
    let (text, is) = hex_loop-IsText 16 md5sum h v in (text, is.runs, is.size, is.back)

-- ===== src/Host.antt =====
-- The machine that the program runs on: the order of the bytes of a word in memory, the loads and
-- stores through a cast pointer, and htons and ntohs.
use misc_uni_stuff.Base.{
  ℕ, ◌+◌, ◌*◌, ◌/◌, ◌%◌, ◌^◌, ◌<◌, ◌≡◌, List, [], ◌∷◌, ◌++◌, arith, Result, ok, fault,
  out_of_bounds,
}

pub data Endian : Type 0 where
  little big : Endian

pub record Host : Type 0 where
  pub order : Endian

abbrev pub u8 : ℕ → ℕ
u8 n = n % 2 ^ 8

abbrev pub u16 : ℕ → ℕ
u16 n = n % 2 ^ 16

abbrev pub u32 : ℕ → ℕ
u32 n = n % 2 ^ 32

abbrev pub swap16 : ℕ → ℕ
swap16 x = x % 256 * 256 + x / 256 % 256

-- `htons` and `ntohs` are one function.
unfoldable pub hton : Endian → ℕ → ℕ
hton little x = swap16 (u16 x)
hton big x = u16 x

unfoldable pub store16 : Endian → ℕ → List ℕ
store16 little x = x % 256 ∷ x / 256 % 256 ∷ []
store16 big x = x / 256 % 256 ∷ x % 256 ∷ []

unfoldable pub store32 : Endian → ℕ → List ℕ
store32 little x = x % 256 ∷ x / 256 % 256 ∷ x / 65536 % 256 ∷ x / 16777216 % 256 ∷ []
store32 big x = x / 16777216 % 256 ∷ x / 65536 % 256 ∷ x / 256 % 256 ∷ x % 256 ∷ []

join16 : Endian → ℕ → ℕ → ℕ
join16 little a b = a + b * 256
join16 big a b = a * 256 + b

join32 : Endian → ℕ → ℕ → ℕ → ℕ → ℕ
join32 little a b c d = a + b * 256 + c * 65536 + d * 16777216
join32 big a b c d = a * 16777216 + b * 65536 + c * 256 + d

-- A load past the end of the block is a fault.
unfoldable pub load16 : Endian → List ℕ → Result ℕ
unfolding join16
load16 e (a ∷ b ∷ rest) = ok (join16 e a b)
load16 e bytes = fault out_of_bounds

unfoldable pub load32 : Endian → List ℕ → Result ℕ
unfolding join32
load32 e (a ∷ b ∷ c ∷ d ∷ rest) = ok (join32 e a b c d)
load32 e bytes = fault out_of_bounds

pub load16-store16 :
    (e : Endian) (x : ℕ) (rest : List ℕ) → x < 2 ^ 16 → load16 e (store16 e x ++ rest) ≡ ok x
unfolding load16 store16
load16-store16 little x rest h = ground arith
load16-store16 big x rest h = ground arith

pub load32-store32 :
    (e : Endian) (x : ℕ) (rest : List ℕ) → x < 2 ^ 32 → load32 e (store32 e x ++ rest) ≡ ok x
unfolding load32 store32
load32-store32 little x rest h = ground arith
load32-store32 big x rest h = ground arith

-- What is stored after `htons` has the high byte first, whatever the host.
pub store16-hton : (e : Endian) (x : ℕ) → store16 e (hton e x) ≡ x / 256 % 256 ∷ x % 256 ∷ []
unfolding store16 hton
store16-hton little x = ground arith
store16-hton big x = ground arith

pub hton-hton : (e : Endian) (x : ℕ) → x < 2 ^ 16 → hton e (hton e x) ≡ x
unfolding hton
hton-hton little x h = omega arith
hton-hton big x h = omega arith

pub hton-lt : (e : Endian) (x : ℕ) → hton e x < 2 ^ 16
unfolding hton
hton-lt little x = omega arith
hton-lt big x = omega arith

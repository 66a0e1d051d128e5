-- ===== src/Columns/Files.antt =====
-- The rows in the window of a search: get_reply_column, get_reply_no_columns and
-- get_reply_column_type of pingu/filesearch.c.
use misc_uni_stuff.Base.{
  ℕ, suc, ◌-◌, ◌^◌, ◌≡◌, ◌<◌, ◌≤◌, refl, ap, ◌∙◌, arith, List, [], ◌∷◌, ◌++◌, All, ltb, ◌==◌,
  if◌then◌else◌, ℤ, pos, negsuc, length, drop, drop-length-append, take_all, Bool-cases, inl, inr,
  sym, out_of_bounds, fault, Result, ok, ◌>>=◌,
}
use misc_uni_stuff.Host.{Host, store32, load32, load32-store32}
use misc_uni_stuff.Packet.{SockaddrIn}
use misc_uni_stuff.Net.{af_inet}
use misc_uni_stuff.Search.{FiledataResponse}
use misc_uni_stuff.Search.Wire.{length-store32}
use misc_uni_stuff.FileDb.{get_md5sum_text}
use misc_uni_stuff.FileDb.Text.{read_hex, read_hex-get_md5sum_text}
use misc_uni_stuff.ListModel.{GType, g_type_string}
use misc_uni_stuff.Columns.{bar, inet_ntop}
use misc_uni_stuff.Columns.Decimal.{
  decimal, signed_decimal, take_number, take_number-decimal, numbers, numbers_last,
}
use misc_uni_stuff.Columns.Address.{inet_ntop_fits, numbers-host}

-- A uint32_t that is stored in an int.
unfoldable pub to_int : ℕ → ℤ
to_int n = if ltb n (2 ^ 31) then pos n else negsuc (2 ^ 32 - 1 - n)

-- " bytes"
abbrev pub in_bytes : List ℕ
in_bytes = 32 ∷ 98 ∷ 121 ∷ 116 ∷ 101 ∷ 115 ∷ []

abbrev pub inet_addrstrlen : ℕ
inet_addrstrlen = 16

pub get_reply_no_columns : ℕ
get_reply_no_columns = 4

pub get_reply_column_type : ℤ → GType
get_reply_column_type column = g_type_string

-- The number of bytes that a size's text gives, as a word of 32 bits: where no number stands in
-- front, 45 is a minus.
abbrev pub sized : ℕ × List ℕ → ℕ
sized (n, []) = n
sized (n, c ∷ rest) = if c == 45 then 2 ^ 32 - (take_number 0 rest).0 else n

abbrev pub read_size : List ℕ → ℕ
read_size text = sized (take_number 0 text)

signed_decimal-read_size :
    (n : ℕ) → n < 2 ^ 32 → read_size (signed_decimal (to_int n) ++ in_bytes) ≡ n
unfolding to_int signed_decimal
signed_decimal-read_size n h = elim (Bool-cases (ltb n (2 ^ 31))) [
  | inl small ↦
      ap
        (λ b. read_size (signed_decimal (if b then pos n else negsuc (2 ^ 32 - 1 - n)) ++ in_bytes))
        small
      ∙ ap sized (take_number-decimal n in_bytes h)
  | inr large ↦
      let high : 2 ^ 31 ≤ n = ground (arith, large) in
      let back = take_number-decimal (suc (2 ^ 32 - 1 - n)) in_bytes (omega arith) in
      ap
        (λ b. read_size (signed_decimal (if b then pos n else negsuc (2 ^ 32 - 1 - n)) ++ in_bytes))
        large
      ∙ ap (λ (p : ℕ × List ℕ). 2 ^ 32 - p.0) back
      ∙ omega arith
]

abbrev load_last : List ℕ → Result ℕ
load_last [] = fault out_of_bounds
load_last (n ∷ rest) = ok n

module _ ⦃h : Host⦄ where
  -- The field `hostname`: get_reply_search fills it in from the address that it stores in `addr`.
  -- `junk` is what malloc's block holds.
  unfoldable pub hostname : List ℕ → FiledataResponse → List ℕ
  hostname junk k = inet_ntop k.addr.s_addr junk inet_addrstrlen

  unfoldable pub get_reply_column : List ℕ → ℤ → FiledataResponse → Result (List ℕ)
  unfolding hostname
  get_reply_column junk (negsuc n) k = ok bar
  get_reply_column junk (pos n) k =
      if n == 0
      then ok k.filename
      else if n == 1
      then get_md5sum_text k.md5sum
      else if n == 2
      then ok (signed_decimal (to_int k.size) ++ in_bytes)
      else if n == 3
      then ok (hostname junk k ++ 58 ∷ decimal k.addr.sin_port)
      else ok bar

  -- The host and the row that the texts tell of.
  abbrev pub host_of : List ℕ → Result SockaddrIn
  host_of bytes = do
    s_addr ← load32 h.order bytes
    sin_port ← load_last (drop 4 bytes)
    ok (record { sin_family = af_inet; sin_port = sin_port; s_addr = s_addr })

  abbrev pub read_host : List ℕ → Result SockaddrIn
  read_host text = host_of (numbers 5 text)

  abbrev pub read_row : List ℕ → List ℕ → List ℕ → List ℕ → Result FiledataResponse
  read_row name sum size host = do
    addr ← read_host host
    ok (record { filename = name; md5sum = read_hex sum; size = read_size size; addr = addr })

  abbrev host_text : List ℕ → FiledataResponse → List ℕ
  unfolding hostname
  host_text junk k = hostname junk k ++ 58 ∷ decimal k.addr.sin_port

  read_host-host_text :
      (junk : List ℕ) (k : FiledataResponse)
      → k.addr.sin_family ≡ af_inet
      → k.addr.sin_port < 2 ^ 16
      → k.addr.s_addr < 2 ^ 32
      → read_host (host_text junk k) ≡ ok k.addr
  unfolding hostname
  read_host-host_text junk k family port addr =
      let text = decimal k.addr.sin_port in
      let shown = inet_ntop_fits k.addr.s_addr junk inet_addrstrlen (omega arith) in
      let last = numbers_last k.addr.sin_port (omega arith) in
      ap (λ t. read_host (t ++ 58 ∷ text)) shown
      ∙ ap host_of
          (numbers-host k.addr.s_addr text ∙ ap (λ l. store32 h.order k.addr.s_addr ++ l) last)
      ∙ rw
          (
            load32-store32 h.order k.addr.s_addr (k.addr.sin_port ∷ []) addr,
            drop-length-append 4 (store32 h.order k.addr.s_addr) (k.addr.sin_port ∷ [])
                (length-store32 h.order k.addr.s_addr),
            ◌>>=◌,
            sym family,
          )
          refl

  -- The window of a search shows all that an answer told: for a row with a sum of sixteen bytes, a
  -- size of 32 bits, and an address of the Internet, of 32 bits with a port of 16, the texts of the
  -- four columns are made, and read back as the row: the size as a word of 32 bits, and the port in
  -- the order in which the address stores it.
  pub read_row-get_reply_column :
      (junk : List ℕ) (k : FiledataResponse)
      → length k.md5sum ≡ 16
      → All (λ b. b < 256) k.md5sum
      → k.size < 2 ^ 32
      → k.addr.sin_family ≡ af_inet
      → k.addr.sin_port < 2 ^ 16
      → k.addr.s_addr < 2 ^ 32
      → (do
        name ← get_reply_column junk (pos 0) k
        sum ← get_reply_column junk (pos 1) k
        size ← get_reply_column junk (pos 2) k
        host ← get_reply_column junk (pos 3) k
        read_row name sum size host)
        ≡ ok k
  unfolding get_reply_column
  read_row-get_reply_column junk k long bytes size family port addr =
      let (text, made, digits, back) = read_hex-get_md5sum_text k.md5sum (omega arith) bytes in
      let whole = take_all 16 k.md5sum (omega arith) in
      let host = read_host-host_text junk k family port addr in
      rw (made, ◌>>=◌, host, back, whole, signed_decimal-read_size k.size size) refl

-- ===== src/Columns.antt =====
-- The texts in the windows. Here: fillin_host_string of pingu/socket.c and inet_ntop, which it
-- calls; Files is the window of a search, of pingu/filesearch.c, and Servers that of the known
-- servers, of pingu/gui.c.
pub mod Decimal
pub mod Address
pub mod Files
pub mod Servers
mod Examples
use misc_uni_stuff.Base.{
  ℕ, ◌+◌, ◌-◌, ◌^◌, List, [], ◌∷◌, ◌++◌, Bool, ltb, leb, if◌then◌else◌, ℤ, pos, negsuc, length,
  Result, ok, ◌>>=◌,
}
use misc_uni_stuff.Host.{Host, store32}
use misc_uni_stuff.Net.{Servlet}
use misc_uni_stuff.Columns.Decimal.{decimal, signed_decimal}

-- "Bar"
abbrev pub bar : List ℕ
bar = 66 ∷ 97 ∷ 114 ∷ []

unfoldable pub dotted : List ℕ → List ℕ
dotted [] = []
dotted (b ∷ []) = decimal b
dotted (b ∷ c ∷ bytes) = decimal b ++ 46 ∷ dotted (c ∷ bytes)

module _ ⦃h : Host⦄ where
  -- `dst` is what the block held, and holds still where the text and its NUL do not fit.
  pub inet_ntop : ℕ → List ℕ → ℕ → List ℕ
  inet_ntop s_addr dst size =
      let text : List ℕ = dotted (store32 h.order s_addr) in
      if ltb (length text) size then text else dst

  pub fillin_host_string : List ℕ → ℕ → Servlet → List ℕ
  unfolding inet_ntop
  fillin_host_string src srclen j = inet_ntop j.client.s_addr src srclen

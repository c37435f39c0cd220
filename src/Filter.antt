-- ===== src/Filter.antt =====
-- internal/filter/filter.go: the display filter. What it takes from `strings` and `strconv` beyond
-- plain bytes is a parameter: the foldings of Unicode, and numbers of type float64.
pub mod Compare
pub mod Match
pub mod Split
use flux_tap.Prelude.Words.{Bytes}
use flux_tap.Prelude.{Bool, Option, ◌≡◌, All, ◌<◌}
use flux_tap.Text.{to_lower}

-- `strings.ToLower`, `strings.ToUpper` and `strings.EqualFold`.
pub record Folding : Type 0 where
  pub lower : Bytes → Bytes
  pub upper : Bytes → Bytes
  pub equal_fold : Bytes → Bytes → Bool

-- `strconv.ParseFloat(s, 64)`, `none` for an error, and the comparisons of float64.
pub record Numbers (R : Type 0) : Type 0 where
  pub parse : Bytes → Option R
  pub greater : R → R → Bool
  pub at_least : R → R → Bool
  pub less : R → R → Bool
  pub at_most : R → R → Bool

abbrev pub IsAscii : Bytes → Type 0
IsAscii = All (λ c. c < 128)

-- What is documented of `strings.ToLower` and used here: it lowers the letters of ASCII text.
abbrev pub LowersAscii : Folding → Type 0
LowersAscii fold = (s : Bytes) → IsAscii s → fold.lower s ≡ to_lower s

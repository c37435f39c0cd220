-- ===== src/Tests/Filters.antt =====
-- The display filter on a frame, where lowering is that of ASCII.
use flux_tap.Filter.Match.Total.{match_frame-IsTotal}
use flux_tap.Filter.Match.{match_frame}
use flux_tap.Filter.{Folding, Numbers, IsAscii, LowersAscii}
use flux_tap.Prelude.Words.{Bytes}
use flux_tap.Prelude.{ℕ, ◌≡◌, refl, Bool, none, some, arith, ltb, leb}
use flux_tap.Tests.Counters.{from}
use flux_tap.Text.{text, text_eq, to_lower}

abbrev pub ascii : Folding
ascii = record {
  lower = to_lower;
  upper = λ s. s;
  equal_fold = λ a b. text_eq (to_lower a) (to_lower b);
}

abbrev pub no_numbers : Numbers ℕ
no_numbers = record {
  parse = λ s. none;
  greater = λ a b. ltb b a;
  at_least = λ a b. leb b a;
  less = ltb;
  at_most = leb;
}

pub ascii-LowersAscii : LowersAscii ascii
ascii-LowersAscii s h = refl

abbrev pub expression : Bytes
expression = text "dns or (udp and !tcp)"

pub expression-IsAscii : IsAscii expression
unfolding text
expression-IsAscii = ground arith

match_frame-IsTotal_example :
    (b : Bool) × (match_frame ascii no_numbers (from 1 (text "a")) expression ≡ some b)
match_frame-IsTotal_example =
    match_frame-IsTotal ascii ascii-LowersAscii no_numbers (from 1 (text "a")) expression
      expression-IsAscii

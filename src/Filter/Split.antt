-- ===== src/Filter/Split.antt =====
-- `splitTop` of internal/filter/filter.go.
pub mod Parts
use flux_tap.Filter.{Folding}
use flux_tap.Prelude.Panics.{◌>>=◌}
use flux_tap.Prelude.Words.{Bytes, index, slice}
use flux_tap.Prelude.{
  ℕ, zero, suc, ◌+◌, Bool, true, false, ◌&&◌, Option, none, some, List, [], ◌∷◌, ◌++◌, leb, ltb,
  ◌==◌, if◌then◌else◌, length,
}
use flux_tap.Text.{text_eq}

-- The variable `depth`: a number, or n + 1 below 0.
pub data Depth : Type 0 where
  inside behind : ℕ → Depth

unfoldable pub deeper : Depth → Depth
deeper (inside n) = inside (suc n)
deeper (behind zero) = inside 0
deeper (behind (suc n)) = behind n

unfoldable pub shallower : Depth → Depth
shallower (inside zero) = behind 0
shallower (inside (suc n)) = inside n
shallower (behind n) = behind (suc n)

unfoldable pub is_top : Depth → Bool
is_top (inside zero) = true
is_top _ = false

pub record Splitting : Type 0 where
  pub depth : Depth
  pub start : ℕ
  pub i : ℕ
  pub parts : List Bytes

-- `depth == 0 && i+len(sep) <= len(s) && lower[i:i+len(sep)] == sep`, where the slice may panic.
unfoldable pub is_separator : Bytes → Bytes → Bytes → Splitting → Option Bool
unfolding is_top
is_separator s low sep st =
    if is_top st.depth && leb (st.i + length sep) (length s)
    then (do piece ← slice low st.i (st.i + length sep); some (text_eq piece sep))
    else some false

-- `parts = append(parts, s[start:i])`, and on behind the separator.
unfoldable pub next_part : Bytes → Bytes → Splitting → Bool → Option Splitting
next_part s sep st false = some (record st { i = st.i + 1 })
next_part s sep st true = do
  part ← slice s st.start st.i
  some (record st {
    start = st.i + length sep;
    i = st.i + length sep;
    parts = st.parts ++ part ∷ [];
  })

-- A round of the loop.
unfoldable pub split_step : Bytes → Bytes → Bytes → Splitting → Option Splitting
unfolding deeper shallower is_separator next_part
split_step s low sep st = do
  c ← index s st.i
  if c == b'('
      then some (record st { depth = deeper st.depth; i = st.i + 1 })
      else if c == b')'
      then some (record st { depth = shallower st.depth; i = st.i + 1 })
      else (do found ← is_separator s low sep st; next_part s sep st found)

-- The loop; `none` is a panic, or that the fuel is used up.
unfoldable pub split_loop : ℕ → Bytes → Bytes → Bytes → Splitting → Option Splitting
split_loop zero s low sep st = none
split_loop (suc fuel) s low sep st =
    if ltb st.i (length s)
    then (do st' ← split_step s low sep st; split_loop fuel s low sep st')
    else some st

abbrev pub first_split : Splitting
first_split = record { depth = inside 0; start = 0; i = 0; parts = [] }

unfoldable pub split_top : Folding → Bytes → Bytes → Option (List Bytes)
unfolding split_loop
split_top fold s sep = do
  st ← split_loop (suc (length s)) s (fold.lower s) (fold.lower sep) first_split
  last ← slice s st.start (length s)
  some (st.parts ++ last ∷ [])

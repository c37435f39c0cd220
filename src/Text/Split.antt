-- ===== src/Text/Split.antt =====
-- `strings.Index`, `strings.Split` and `strings.SplitN`, by the first place of a separator.
use flux_tap.Prelude.Words.{Bytes}
use flux_tap.Prelude.{ℕ, zero, suc, Option, none, some, List, [], ◌∷◌, if◌then◌else◌, length, drop}
use flux_tap.Text.{has_prefix}

abbrev pub after_byte : ℕ → Option (Bytes × Bytes) → Option (Bytes × Bytes)
after_byte c none = none
after_byte c (some (before, after)) = some (c ∷ before, after)

-- What stands before the first `sep` and what behind it; `sep` is not empty.
unfoldable pub cut : Bytes → Bytes → Option (Bytes × Bytes)
cut sep [] = none
cut sep (c ∷ s) =
    let later = cut sep s in
    if has_prefix (c ∷ s) sep then some ([], drop (length sep) (c ∷ s)) else after_byte c later

-- `strings.SplitN(s, sep, n + 1)`.
unfoldable pub split_n : ℕ → Bytes → Bytes → List Bytes
split_n zero sep s = s ∷ []
split_n (suc n) sep s = elim (cut sep s) [
  | none ↦ s ∷ []
  | some (before, after) ↦ before ∷ split_n n sep after
]

-- `strings.Split`: no text holds more separators than bytes.
abbrev pub split : Bytes → Bytes → List Bytes
split sep s = split_n (length s) sep s

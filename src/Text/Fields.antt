-- ===== src/Text/Fields.antt =====
-- The first of `strings.Fields`.
use flux_tap.Prelude.Words.{Bytes}
use flux_tap.Prelude.{Option, none, some, [], ◌∷◌, ◌==◌, if◌then◌else◌, length}
use flux_tap.Text.{strip, spaces, prefix_len}

-- A text up to its first white space.
until_space : Bytes → Bytes
unfolding prefix_len spaces
until_space [] = []
until_space (c ∷ s) =
    let rest = until_space s in if prefix_len spaces (c ∷ s) == 0 then c ∷ rest else []

abbrev whole_field : Bytes → Option Bytes
whole_field [] = none
whole_field (c ∷ s) = some (until_space (c ∷ s))

unfoldable pub first_field : Bytes → Option Bytes
unfolding strip spaces until_space
first_field s = whole_field (strip (length s) spaces s)

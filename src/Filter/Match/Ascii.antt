-- ===== src/Filter/Match/Ascii.antt =====
-- Texts in ASCII that internal/filter/filter.go cuts up, and its words.
use flux_tap.Filter.Match.{operators, has_suffix}
use flux_tap.Filter.Split.Parts.{slice-eq-some}
use flux_tap.Filter.{IsAscii}
use flux_tap.Prelude.Words.{Bytes, slice}
use flux_tap.Prelude.{
  All-take, ℕ, ◌-◌, ◌≤◌, ◌<◌, ◌≡◌, refl, subst, Bool, true, ◌&&◌, some, List, [], ◌∷◌, arith,
  length, drop, length-drop, length-take-le, All, All-drop, ltb,
}
use flux_tap.Text.Pieces.{IsPiece, trim_space-IsPiece}
use flux_tap.Text.{text, has_prefix, trim_space}

-- ASCII of at most so many bytes.
abbrev pub IsPart : ℕ → Bytes → Type 0
IsPart n = IsPiece {0} (λ c. c < 128) n

pub trim_space-IsPart : (n : ℕ) (s : Bytes) → IsPart n s → IsPart n (trim_space s)
trim_space-IsPart n = trim_space-IsPiece {0} (λ c. c < 128) n

pub slice-IsAscii :
    (s : Bytes) (lo hi : ℕ) {p : Bytes} → slice s lo hi ≡ some p → IsAscii s → IsAscii p
slice-IsAscii s lo hi e h =
    let (ordered, fits, here) = slice-eq-some s lo hi e in
    subst IsAscii here
      (All-take (λ c. c < 128) (hi - lo) (drop lo s) (All-drop (λ c. c < 128) lo s h))

pub slice-IsPart :
    (n : ℕ) (s : Bytes) (lo hi : ℕ) {p : Bytes} → slice s lo hi ≡ some p → IsPart n s → IsPart n p
slice-IsPart n s lo hi e h =
    let (ordered, fits, here) = slice-eq-some s lo hi e in
    record {
      all = slice-IsAscii s lo hi e h.all;
      few =
          subst (λ p. length p ≤ n) here
            (omega (arith, h.few, length-take-le (hi - lo) (drop lo s), length-drop lo s));
    }

pub is_ascii : Bytes → Bool
is_ascii [] = true
is_ascii (c ∷ s) = ltb c 128 && is_ascii s

pub is_ascii-IsAscii : (s : Bytes) → is_ascii s ≡ true → IsAscii s
unfolding is_ascii
is_ascii-IsAscii [] h = tt
is_ascii-IsAscii (c ∷ s) h = (ground arith, is_ascii-IsAscii s (ground arith))

pub are_ascii : List Bytes → Bool
unfolding is_ascii
are_ascii [] = true
are_ascii (s ∷ ss) = is_ascii s && are_ascii ss

pub are_ascii-All : (ss : List Bytes) → are_ascii ss ≡ true → All IsAscii ss
unfolding are_ascii
are_ascii-All [] h = tt
are_ascii-All (s ∷ ss) h = (is_ascii-IsAscii s (ground arith), are_ascii-All ss (ground arith))

pub operators-IsAscii : All IsAscii operators
unfolding text are_ascii
operators-IsAscii = are_ascii-All operators refl

-- The separators: in ASCII, and not empty.
abbrev pub IsWord : Bytes → Type 0
IsWord s = IsAscii s × (0 < length s)

pub words :
    IsWord (text " and ") × IsWord (text " && ") × IsWord (text " or ") × IsWord (text " || ")
unfolding text is_ascii
words = (
  (is_ascii-IsAscii (text " and ") refl, omega arith),
  (is_ascii-IsAscii (text " && ") refl, omega arith),
  (is_ascii-IsAscii (text " or ") refl, omega arith),
  (is_ascii-IsAscii (text " || ") refl, omega arith),
)

pub prefix_lengths : (length (text "not ") ≡ 4) × (length (text "!") ≡ 1)
unfolding text
prefix_lengths = (refl, refl)

-- An expression in parentheses has two of them.
pub enclosed-long :
    (s : Bytes) → (has_prefix s (text "(") && has_suffix s (text ")")) ≡ true → 2 ≤ length s
unfolding has_prefix has_suffix text
enclosed-long [] h = absurd (ground arith)
enclosed-long (c ∷ []) h = absurd (ground arith)
enclosed-long (c ∷ d ∷ s) h = omega arith

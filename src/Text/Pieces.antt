-- ===== src/Text/Pieces.antt =====
-- What the functions of Text keep of a text: its bytes, and bounds on their number.
use flux_tap.Prelude.Words.{Bytes}
use flux_tap.Prelude.{
  ℕ, zero, suc, ◌+◌, ap, inl, inr, map, if-cases, Option-cases, some, some-eq, ◌≤◌, ◌≡◌, refl, true,
  List, [], ◌∷◌, arith, length, drop, length-drop, All, All-drop, ◌==◌, if-both, reverse,
}
use mathlib.Core.List.{reverse_aux}
use flux_tap.Text.Split.{cut}
use flux_tap.Text.{to_lower, has_prefix, trim_space, strip, prefix_len, spaces}

module _ {ℓ κ} {A : Type ℓ} (P : A → Type κ) where
  All-reverse_aux : (xs ys : List A) → All P xs → All P ys → All P (reverse_aux xs ys)
  All-reverse_aux [] ys h k = k
  All-reverse_aux (x ∷ xs) ys (h, hs) k = All-reverse_aux xs (x ∷ ys) hs (h, k)

  pub All-reverse : (xs : List A) → All P xs → All P (reverse xs)
  All-reverse xs h = All-reverse_aux xs [] h tt

length-reverse_aux : (xs ys : Bytes) → length (reverse_aux xs ys) ≡ length xs + length ys
length-reverse_aux [] ys = omega arith
length-reverse_aux (x ∷ xs) ys = omega (arith, length-reverse_aux xs (x ∷ ys))

pub length-reverse : (xs : Bytes) → length (reverse xs) ≡ length xs
length-reverse xs = omega (arith, length-reverse_aux xs [])

-- A text with fewer bytes, which all were in the other.
pub record IsPiece {κ} (P : ℕ → Type κ) (n : ℕ) (s : Bytes) : Type κ where
  pub all : All P s
  pub few : length s ≤ n

module _ {κ} (P : ℕ → Type κ) (n : ℕ) where
  strip-IsPiece :
      (fuel : ℕ) (ps : List Bytes) (s : Bytes) → IsPiece P n s → IsPiece P n (strip fuel ps s)
  unfolding strip
  strip-IsPiece zero ps s h = h
  strip-IsPiece (suc fuel) ps s h = if-both (IsPiece P n) (prefix_len ps s == 0) _ _ h (
      strip-IsPiece fuel ps (drop (prefix_len ps s) s) (record {
        all = All-drop P (prefix_len ps s) s h.all;
        few = omega (arith, h.few, length-drop (prefix_len ps s) s);
      }))

  reverse-IsPiece : (s : Bytes) → IsPiece P n s → IsPiece P n (reverse s)
  reverse-IsPiece s h = record {
    all = All-reverse P s h.all;
    few = omega (arith, h.few, length-reverse s);
  }

  pub trim_space-IsPiece : (s : Bytes) → IsPiece P n s → IsPiece P n (trim_space s)
  unfolding trim_space
  trim_space-IsPiece s h =
      let left = strip (length s) spaces s in
      reverse-IsPiece _ (
        strip-IsPiece (length left) (map reverse spaces) (reverse left)
          (reverse-IsPiece left (strip-IsPiece (length s) spaces s h)))

pub length-to_lower : (s : Bytes) → length (to_lower s) ≡ length s
unfolding to_lower
length-to_lower [] = refl
length-to_lower (c ∷ s) = ap suc (length-to_lower s)

pub has_prefix-length : (s p : Bytes) → has_prefix s p ≡ true → length p ≤ length s
unfolding has_prefix
has_prefix-length s [] h = omega arith
has_prefix-length [] (c ∷ p) h = absurd (ground arith)
has_prefix-length (x ∷ s) (c ∷ p) h = ground (arith, has_prefix-length s p)

-- A separator that was found ends in the text.
pub cut-length :
    (sep s : Bytes) {b a : Bytes} → cut sep s ≡ some (b, a) → length b + length sep ≤ length s
unfolding cut
cut-length sep [] e = absurd (ground arith)
cut-length sep (c ∷ s) {b} {a} e = elim (if-cases (has_prefix (c ∷ s) sep) _ _ e) [
  | inl (here, found) ↦
      let none_before = ap length (ap (λ p. p.0) (some-eq found)) in
      omega (arith, none_before, has_prefix-length (c ∷ s) sep here)
  | inr (later, found) ↦ elim (Option-cases (cut sep s)) [
    | inl none_found ↦ absurd (ground arith)
    | inr ((front, rest), there) ↦
        let same = ap length (ap (λ p. p.0) (some-eq (rw there at found))) in
        omega (arith, same, cut-length sep s there)
  ]
]

-- ===== src/Text.antt =====
-- Go strings as their bytes: literals, the numbers that `fmt` prints, and the functions of
-- `strings` that the program calls.
pub mod Address
pub mod Dict
pub mod Digits
pub mod Fields
pub mod Joined
pub mod Pieces
pub mod Split
pub mod Table
use Prim.Native.Char.{code}
use Prim.Native.String.{String}
use flux_tap.Prelude.Words.{Bytes}
use flux_tap.Prelude.{
  ℕ, zero, suc, ◌+◌, ◌-◌, ◌/◌, ◌%◌, ◌≤◌, ◌≡◌, ◌↔◌, refl, Bool, true, false, ◌&&◌, ◌||◌, List, [],
  ◌∷◌, ◌++◌, arith, ltb, leb, ◌==◌, if◌then◌else◌, length, drop, map, reverse, length-append,
}

-- The UTF-8 bytes of a code point.
utf8 : ℕ → Bytes
utf8 c =
    if ltb c 128
    then c ∷ []
    else if ltb c 2048
    then (192 + c / 64) ∷ (128 + c % 64) ∷ []
    else if ltb c 65536
    then (224 + c / 4096) ∷ (128 + c / 64 % 64) ∷ (128 + c % 64) ∷ []
    else (240 + c / 262144) ∷ (128 + c / 4096 % 64) ∷ (128 + c / 64 % 64) ∷ (128 + c % 64) ∷ []

-- A literal.
unfoldable pub text : String → Bytes
unfolding utf8
text String.[] = []
text (String.◌∷◌ c s) = utf8 (code c) ++ text s

-- `==` on strings.
unfoldable pub text_eq : Bytes → Bytes → Bool
text_eq [] [] = true
text_eq (x ∷ xs) (y ∷ ys) = x == y && text_eq xs ys
text_eq _ _ = false

pub text_eq_iff : (a b : Bytes) → (text_eq a b ≡ true) ↔ (a ≡ b)
unfolding text_eq
text_eq_iff (x ∷ a) (y ∷ b) = ground (arith, text_eq_iff a b)
text_eq_iff _ _ = ground arith

-- `s == ""`.
abbrev pub is_empty : Bytes → Bool
is_empty [] = true
is_empty (c ∷ s) = false

-- `>` on strings: the order of the bytes.
unfoldable pub text_gt : Bytes → Bytes → Bool
text_gt [] b = false
text_gt (x ∷ a) [] = true
text_gt (x ∷ a) (y ∷ b) = ltb y x || x == y && text_gt a b

digit : ℕ → ℕ
digit d = if ltb d 10 then 48 + d else 87 + d

-- The digits of a number in a base, before those already printed. A number needs no more digits
-- than itself and one.
digits_onto : ℕ → ℕ → ℕ → Bytes → Bytes
unfolding digit
digits_onto zero base n acc = acc
digits_onto (suc fuel) base n acc =
    let more = digits_onto fuel base (n / base) (digit (n % base) ∷ acc) in
    if ltb n base then digit n ∷ acc else more

-- `%d` and `%x`.
unfoldable pub decimal : ℕ → Bytes
unfolding digits_onto
decimal n = digits_onto (suc n) 10 n []

unfoldable pub hex : ℕ → Bytes
unfolding digits_onto
hex n = digits_onto (suc n) 16 n []

zeros : ℕ → Bytes
zeros zero = []
zeros (suc n) = 48 ∷ zeros n

-- `%0wx`.
unfoldable pub hex_padded : ℕ → ℕ → Bytes
unfolding hex zeros
hex_padded w n = let h = hex n in zeros (w - length h) ++ h

length-zeros : (n : ℕ) → length (zeros n) ≡ n
unfolding zeros
length-zeros zero = refl
length-zeros (suc n) = omega (arith, length-zeros n)

pub length-hex_padded : (w n : ℕ) → w ≤ length (hex_padded w n)
unfolding hex_padded
length-hex_padded w n =
    omega
      (arith, length-append (zeros (w - length (hex n))) (hex n), length-zeros (w - length (hex n)))

-- `strings.Join`.
unfoldable pub join : List Bytes → Bytes → Bytes
join [] sep = []
join (s ∷ []) sep = s
join (s ∷ t ∷ ts) sep = s ++ (sep ++ join (t ∷ ts) sep)

-- `strings.HasPrefix(s, p)`.
unfoldable pub has_prefix : Bytes → Bytes → Bool
has_prefix s [] = true
has_prefix [] (c ∷ p) = false
has_prefix (x ∷ s) (c ∷ p) = x == c && has_prefix s p

-- `strings.Contains(s, p)`: `p` begins at some place of `s`.
unfoldable pub contains : Bytes → Bytes → Bool
unfolding has_prefix
contains [] p = has_prefix [] p
contains (c ∷ s) p = has_prefix (c ∷ s) p || contains s p

-- Text up to a separator byte, and the rest behind it.
unfoldable pub before_byte : ℕ → Bytes → Bytes
before_byte sep [] = []
before_byte sep (c ∷ s) = let rest = before_byte sep s in if c == sep then [] else c ∷ rest

-- `strings.ToLower` on ASCII.
unfoldable pub to_lower : Bytes → Bytes
to_lower [] = []
to_lower (c ∷ s) = (if leb b'A' c && leb c b'Z' then c + 32 else c) ∷ to_lower s

-- The UTF-8 bytes of the white space of `unicode.IsSpace`.
spaces : List Bytes
spaces =
    (9 ∷ [])
    ∷ (10 ∷ [])
    ∷ (11 ∷ [])
    ∷ (12 ∷ [])
    ∷ (13 ∷ [])
    ∷ (32 ∷ [])
    ∷ (0xc2 ∷ 0x85 ∷ [])
    ∷ (0xc2 ∷ 0xa0 ∷ [])
    ∷ (0xe1 ∷ 0x9a ∷ 0x80 ∷ [])
    ∷ (0xe2 ∷ 0x80 ∷ 0xa8 ∷ [])
    ∷ (0xe2 ∷ 0x80 ∷ 0xa9 ∷ [])
    ∷ (0xe2 ∷ 0x80 ∷ 0xaf ∷ [])
    ∷ (0xe2 ∷ 0x81 ∷ 0x9f ∷ [])
    ∷ (0xe3 ∷ 0x80 ∷ 0x80 ∷ [])
    ∷ map (λ k. 0xe2 ∷ 0x80 ∷ (0x80 + k) ∷ []) (0 ∷ 1 ∷ 2 ∷ 3 ∷ 4 ∷ 5 ∷ 6 ∷ 7 ∷ 8 ∷ 9 ∷ 10 ∷ [])

-- The length of the first of some prefixes that a text has, 0 if it has none.
prefix_len : List Bytes → Bytes → ℕ
unfolding has_prefix
prefix_len [] s = 0
prefix_len (p ∷ ps) s = if has_prefix s p then length p else prefix_len ps s

-- Drops such prefixes as long as there are any; each has a byte at least.
strip : ℕ → List Bytes → Bytes → Bytes
unfolding prefix_len
strip zero ps s = s
strip (suc fuel) ps s =
    let n = prefix_len ps s in let rest = strip fuel ps (drop n s) in if n == 0 then s else rest

-- `strings.TrimSpace`.
unfoldable pub trim_space : Bytes → Bytes
unfolding strip spaces
trim_space s =
    let left = strip (length s) spaces s in
    reverse (strip (length left) (map reverse spaces) (reverse left))

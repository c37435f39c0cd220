-- ===== src/Notify/Telegram/Escaped.antt =====
-- What `escapeMD` of internal/notify/telegram.go does to a text, for a reader of the parse mode
-- "Markdown" that the message asks for.
use flux_tap.Notify.Telegram.{is_special, escape_md}
use flux_tap.Prelude.Words.{Bytes}
use flux_tap.Prelude.{
  ℕ, ◌≡◌, refl, ◌∙◌, Bool, true, false, ◌&&◌, ◌||◌, Option, none, some, [], ◌∷◌, arith, ◌==◌,
  if◌then◌else◌, Bool-cases, inl, inr,
}
use mathlib.Core.Option

-- Where an entity begins or ends: bold text, italic text, code, and the text of a link.
abbrev pub is_mark : ℕ → Bool
is_mark c = c == 42 || c == 95 || c == 96 || c == 91

-- What Telegram documents of that mode: a backslash in front of a mark gives the mark itself, and any
-- other mark begins or ends an entity. `none` if there is one; else the characters that are shown.
unfoldable pub plain : Bytes → Option Bytes
plain [] = some []
plain (b ∷ []) = if is_mark b then none else some (b ∷ [])
plain (b ∷ c ∷ s) =
    let escaped = Option.map (λ t. c ∷ t) (plain s) in
    let other = Option.map (λ t. b ∷ t) (plain (c ∷ s)) in
    if b == b'\\' && is_mark c then escaped else if is_mark b then none else other

-- A text in which a mark never comes first.
abbrev Begins : Bytes → Type 0
Begins [] = Unit
Begins (c ∷ s) = is_mark c ≡ false

special_mark : (c : ℕ) → is_mark c ≡ is_special c
special_mark c = ground arith

escape_md-Begins : (s : Bytes) → Begins (escape_md s)
unfolding escape_md
escape_md-Begins [] = tt
escape_md-Begins (c ∷ s) = elim (Bool-cases (is_special c)) [
  | inl special ↦ rw special refl
  | inr other ↦ rw other (special_mark c ∙ other)
]

plain-cons :
    (c : ℕ) (s t : Bytes)
    → is_mark c ≡ false
    → Begins s
    → plain s ≡ some t
    → plain (c ∷ s) ≡ some (c ∷ t)
unfolding plain
plain-cons c [] t no_mark h e = ground arith
plain-cons c (d ∷ s) t no_mark h e = rw h (rw no_mark (rw e (ground arith)))

plain-nil : plain [] ≡ some []
unfolding plain
plain-nil = refl

plain-escaped :
    (c : ℕ) (s t : Bytes)
    → is_mark c ≡ true
    → plain s ≡ some t
    → plain (b'\\' ∷ c ∷ s) ≡ some (c ∷ t)
unfolding plain
plain-escaped c s t mark e = rw mark (rw e refl)

-- A reader of Markdown shows the text that was escaped, whatever it holds: no character of it begins
-- or ends an entity, and none is lost. Such a reader takes a backslash in front of `*`, `_`, the
-- back quote and `[` for an escape, and any other of these four for a mark.
pub plain-escape_md : (s : Bytes) → plain (escape_md s) ≡ some s
unfolding escape_md
plain-escape_md [] = plain-nil
plain-escape_md (c ∷ s) = elim (Bool-cases (is_special c)) [
  | inl special ↦
      rw special (plain-escaped c (escape_md s) s (special_mark c ∙ special) (plain-escape_md s))
  | inr other ↦ rw other (
      plain-cons c (escape_md s) s (special_mark c ∙ other) (escape_md-Begins s)
        (plain-escape_md s))
]

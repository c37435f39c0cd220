-- ===== src/Text/Joined.antt =====
-- `strings.Join` of what `strings.Split` gives, and the text around a separator that was found.
use flux_tap.Prelude.Words.{Bytes}
use flux_tap.Prelude.{
  ◌≤◌, ◌&&◌, ◌==◌, drop-append, append_assoc, length-append, ℕ, zero, suc, ◌≡◌, refl, sym, ap, ap₂,
  subst, ◌∙◌, true, Option, none, some, List, [], ◌∷◌, ◌++◌, arith, length, drop, if-cases, some-eq,
  Option-cases, inl, inr, ==→≡,
}
use flux_tap.Text.Split.{cut, split_n}
use flux_tap.Text.{join, has_prefix}

-- What is in front of a separator that was found, the separator, and what is behind it.
prefix-drop : (s p : Bytes) → has_prefix s p ≡ true → p ++ drop (length p) s ≡ s
unfolding has_prefix
prefix-drop s [] h = refl
prefix-drop [] (c ∷ p) h = absurd (ground arith)
prefix-drop (x ∷ s) (c ∷ p) h = ap₂ ◌∷◌ (==→≡ c x (ground arith)) (prefix-drop s p (ground arith))

pub cut-eq-some : (sep s : Bytes) {b a : Bytes} → cut sep s ≡ some (b, a) → b ++ (sep ++ a) ≡ s
unfolding cut
cut-eq-some sep [] e = absurd (ground arith)
cut-eq-some sep (c ∷ s) {b} {a} e = elim (if-cases (has_prefix (c ∷ s) sep) _ _ e) [
  | inl (here, found) ↦
      let parts = some-eq found in
      ap₂ (λ x y. x ++ (sep ++ y)) (sym (ap (λ r. r.0) parts)) (sym (ap (λ r. r.1) parts))
      ∙ prefix-drop (c ∷ s) sep here
  | inr (later, found) ↦ elim (Option-cases (cut sep s)) [
    | inl nothing ↦ absurd (ground arith)
    | inr ((front, behind), there) ↦
        let parts = some-eq (rw there at found) in
        ap₂ (λ x y. x ++ (sep ++ y)) (sym (ap (λ r. r.0) parts)) (sym (ap (λ r. r.1) parts))
        ∙ ap (◌∷◌ c) (cut-eq-some sep s there)
  ]
]

pub split_n-nothing : (n : ℕ) (sep s : Bytes) → cut sep s ≡ none → split_n (suc n) sep s ≡ s ∷ []
unfolding split_n
split_n-nothing n sep s nothing =
    ap
      (λ (o : Option (Bytes × Bytes)). elim o as (λ _. List Bytes) [
        | none ↦ s ∷ []
        | some (before, after) ↦ before ∷ split_n n sep after
      ])
      nothing

pub split_n-there :
    (n : ℕ) (sep s : Bytes) {b a : Bytes}
    → cut sep s ≡ some (b, a)
    → split_n (suc n) sep s ≡ b ∷ split_n n sep a
unfolding split_n
split_n-there n sep s there =
    ap
      (λ (o : Option (Bytes × Bytes)). elim o as (λ _. List Bytes) [
        | none ↦ s ∷ []
        | some (before, after) ↦ before ∷ split_n n sep after
      ])
      there

pub split_n-zero : (sep s : Bytes) → split_n zero sep s ≡ s ∷ []
unfolding split_n
split_n-zero sep s = refl

-- Pieces behind a first one stand behind a separator.
join-split_n-behind :
    (n : ℕ) (sep b a : Bytes)
    → join (b ∷ split_n n sep a) sep ≡ b ++ (sep ++ join (split_n n sep a) sep)
unfolding join
join-split_n-behind zero sep b a =
    subst (λ t. join (b ∷ t) sep ≡ b ++ (sep ++ join t sep)) (sym (split_n-zero sep a)) refl
join-split_n-behind (suc n) sep b a = elim (Option-cases (cut sep a)) [
  | inl nothing ↦
      subst (λ t. join (b ∷ t) sep ≡ b ++ (sep ++ join t sep))
        (sym (split_n-nothing n sep a nothing)) refl
  | inr (_, there) ↦
      subst (λ t. join (b ∷ t) sep ≡ b ++ (sep ++ join t sep)) (sym (split_n-there n sep a there))
        refl
]

-- Splitting loses nothing.
pub join-split_n : (n : ℕ) (sep s : Bytes) → join (split_n n sep s) sep ≡ s
unfolding split_n join
join-split_n zero sep s = refl
join-split_n (suc n) sep s = elim (Option-cases (cut sep s)) [
  | inl nothing ↦ ap (λ t. join t sep) (split_n-nothing n sep s nothing)
  | inr ((b, a), there) ↦
      ap (λ t. join t sep) (split_n-there n sep s there)
      ∙ join-split_n-behind n sep b a
      ∙ ap (λ t. b ++ (sep ++ t)) (join-split_n n sep a)
      ∙ cut-eq-some sep s there
]

-- Whether a text begins with another depends on as many bytes only.
has_prefix-append :
    (u x y p : Bytes) → length p ≤ length u → has_prefix (u ++ x) p ≡ has_prefix (u ++ y) p
unfolding has_prefix
has_prefix-append u x y [] h = refl
has_prefix-append [] x y (c ∷ p) h = absurd (omega arith)
has_prefix-append (b ∷ u) x y (c ∷ p) h =
    ap (λ t. b == c && t) (has_prefix-append u x y p (omega arith))

has_prefix-append_self : (p x : Bytes) → has_prefix (p ++ x) p ≡ true
unfolding has_prefix
has_prefix-append_self [] x = refl
has_prefix-append_self (c ∷ p) x = ground (arith, has_prefix-append_self p x)

-- The same in front of a separator.
has_prefix-behind :
    (sep b x y : Bytes) → has_prefix (b ++ (sep ++ x)) sep ≡ has_prefix (b ++ (sep ++ y)) sep
has_prefix-behind sep b x y =
    ap (λ t. has_prefix t sep) (sym (append_assoc b sep x))
    ∙ has_prefix-append (b ++ sep) x y sep (omega (arith, length-append b sep))
    ∙ ap (λ t. has_prefix t sep) (append_assoc b sep y)

cut-here : (c₀ : ℕ) (sep x : Bytes) → cut (c₀ ∷ sep) (c₀ ∷ (sep ++ x)) ≡ some ([], x)
unfolding cut
cut-here c₀ sep x = rw (has_prefix-append_self (c₀ ∷ sep) x, drop-append sep x) refl

-- The first place of a separator is the same whatever stands behind it.
pub cut-first :
    (c₀ : ℕ) (sep s b a x : Bytes)
    → cut (c₀ ∷ sep) s ≡ some (b, a)
    → cut (c₀ ∷ sep) (b ++ (c₀ ∷ (sep ++ x))) ≡ some (b, x)
unfolding cut
cut-first c₀ sep [] b a x e = absurd (ground arith)
cut-first c₀ sep (c ∷ s) b a x e = elim (if-cases (has_prefix (c ∷ s) (c₀ ∷ sep)) _ _ e) [
  | inl (here, found) ↦
      subst (λ f. cut (c₀ ∷ sep) (f ++ (c₀ ∷ (sep ++ x))) ≡ some (f, x))
        (ap (λ r. r.0) (some-eq found)) (cut-here c₀ sep x)
  | inr (later, found) ↦ elim (Option-cases (cut (c₀ ∷ sep) s)) [
    | inl nothing ↦ absurd (ground arith)
    | inr ((front, behind), there) ↦
        let parts = some-eq (rw there at found) in
        let first =
          has_prefix-behind (c₀ ∷ sep) (c ∷ front) x behind
          ∙ ap (λ t. has_prefix (c ∷ t) (c₀ ∷ sep)) (cut-eq-some (c₀ ∷ sep) s there)
          ∙ later in
        subst (λ f. cut (c₀ ∷ sep) (f ++ (c₀ ∷ (sep ++ x))) ≡ some (f, x)) (ap (λ r. r.0) parts)
          (rw (first, cut-first c₀ sep s front behind x there) refl)
  ]
]

-- ===== src/Text/Dict.antt =====
-- Go maps with string keys, as association lists with one entry for a key.
use flux_tap.Prelude.Words.{Bytes}
use flux_tap.Prelude.{
  ℕ, suc, ◌+◌, ap, ◌∙◌, ◌≡◌, refl, true, false, Option, none, some, List, [], ◌∷◌, ◌++◌, arith, map,
  if◌then◌else◌, length,
}
use flux_tap.Text.{text_eq, text_eq_iff}

abbrev pub Dict {ℓ} : Type ℓ → Type ℓ
Dict V = List (Bytes × V)

module _ {ℓ} {V : Type ℓ} where
  -- `v, ok := m[k]`.
  unfoldable pub lookup : Bytes → Dict V → Option V
  lookup k [] = none
  lookup k ((j, v) ∷ m) = if text_eq j k then some v else lookup k m

  -- `m[k] = v`.
  unfoldable pub insert : Bytes → V → Dict V → Dict V
  insert k v [] = (k, v) ∷ []
  insert k v ((j, w) ∷ m) = if text_eq j k then (j, v) ∷ m else (j, w) ∷ insert k v m

  -- `delete(m, k)`.
  unfoldable pub delete : Bytes → Dict V → Dict V
  delete k [] = []
  delete k ((j, w) ∷ m) = if text_eq j k then m else (j, w) ∷ delete k m

  abbrev pub keys : Dict V → List Bytes
  keys = map (λ e. e.0)

  pub lookup-insert :
      (k j : Bytes) (v : V) (m : Dict V)
      → lookup j (insert k v m) ≡ (if text_eq k j then some v else lookup j m)
  unfolding lookup insert
  lookup-insert k j v [] = refl
  lookup-insert k j v ((i, w) ∷ m) =
      ground (arith, text_eq_iff k j, text_eq_iff i k, text_eq_iff i j, lookup-insert k j v m)

  -- A new key goes behind the others, and an old one keeps its place.
  pub keys-insert :
      (k : Bytes) (v : V) (m : Dict V)
      → keys (insert k v m) ≡ (
          if (elim (lookup k m) [ none ↦ true | some _ ↦ false ]) then keys m ++ k ∷ [] else keys m)
  unfolding insert lookup
  keys-insert k v [] = refl
  keys-insert k v ((j, w) ∷ m) = ground (arith, keys-insert k v m)

  pub length-insert :
      (k : Bytes) (v : V) (m : Dict V)
      → length (insert k v m) ≡ (elim (lookup k m) [ none ↦ suc (length m) | some _ ↦ length m ])
  unfolding insert lookup
  length-insert k v [] = refl
  length-insert k v ((j, w) ∷ m) = ground (arith, length-insert k v m)

-- The zero value for a missing key of a map to strings.
unfoldable pub get : Dict Bytes → Bytes → Bytes
unfolding lookup
get m k = elim (lookup k m) [ none ↦ [] | some v ↦ v ]

-- The zero value of a map to numbers.
unfoldable pub tally : Dict ℕ → Bytes → ℕ
tally m k = elim (lookup k m) [ none ↦ 0 | some n ↦ n ]

-- The sum of the values of such a map.
unfoldable pub sum_counts : Dict ℕ → ℕ
sum_counts [] = 0
sum_counts ((k, n) ∷ m) = n + sum_counts m

pub sum_counts-insert :
    (k : Bytes) (n : ℕ) (m : Dict ℕ) → sum_counts (insert k n m) + tally m k ≡ sum_counts m + n
unfolding sum_counts insert tally lookup
sum_counts-insert k n [] = omega arith
sum_counts-insert k n ((j, i) ∷ m) = ground (arith, sum_counts-insert k n m)

-- A text is read by what `lookup` gives.
pub get-congr :
    (k : Bytes) (m : Dict Bytes) {o : Option Bytes}
    → lookup k m ≡ o
    → get m k ≡ (elim o as (λ _. Bytes) [ none ↦ [] | some v ↦ v ])
unfolding get
get-congr k m e = ap (λ (o : Option Bytes). elim o as (λ _. Bytes) [ none ↦ [] | some v ↦ v ]) e

pub get-insert_self : (k v : Bytes) (m : Dict Bytes) → get (insert k v m) k ≡ v
get-insert_self k v m =
    get-congr k (insert k v m) {o = some v}
      (lookup-insert k k v m ∙ rw ((text_eq_iff k k).1 refl) refl)

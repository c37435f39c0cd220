-- ===== src/Ranking.antt =====
-- The loop that internal/flow/tracker.go (Top), internal/stats/engine.go (Snapshot) and
-- internal/session/player.go (List) each write out: a selection sort by a number, the largest
-- first, and the cut behind it.
pub mod Sorted
use flux_tap.Prelude.{ℕ, zero, suc, ◌+◌, List, [], ◌∷◌, ltb, if◌then◌else◌, length, take}

module _ {A : Type 0} (size : A → ℕ) where
  -- The inner loop from the index `j`, with the index and the element of the largest so far.
  unfoldable pub max_from : ℕ → A → ℕ → List A → ℕ
  max_from max m j [] = max
  max_from max m j (y ∷ ys) =
      let larger = ltb (size m) (size y) in
      max_from (if larger then j else max) (if larger then y else m) (j + 1) ys

-- `all[i], all[max] = all[max], all[i]`: what `x` before the list is exchanged for, and the list
-- with `x` at that place.
unfoldable pub exchange : {A : Type 0} → ℕ → A → List A → A × List A
exchange zero x ys = (x, ys)
exchange (suc i) x [] = (x, [])
exchange (suc zero) x (y ∷ ys) = (y, x ∷ ys)
exchange (suc (suc i)) x (y ∷ ys) = let (m, zs) = exchange (suc i) x ys in (m, y ∷ zs)

module _ {A : Type 0} (size : A → ℕ) where
  -- The outer loop, a round for each element.
  unfoldable pub select : ℕ → List A → List A
  unfolding max_from exchange
  select zero xs = xs
  select (suc rounds) [] = []
  select (suc rounds) (x ∷ xs) =
      let (m, rest) = exchange (max_from size 0 x 1 xs) x xs in m ∷ select rounds rest

  abbrev pub rank : List A → List A
  rank xs = select (length xs) xs

-- `if n > 0 && len(all) > n { all = all[:n] }`.
abbrev pub cut_to : {A : Type 0} → ℕ → List A → List A
cut_to zero xs = xs
cut_to (suc n) xs = if ltb (suc n) (length xs) then take (suc n) xs else xs

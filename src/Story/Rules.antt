-- ===== src/Story/Rules.antt =====
-- `uniqueRules` of internal/story/story.go.
use flux_tap.Prelude.Words.{Bytes}
use flux_tap.Prelude.{◌≡◌, refl, false, not, ◌&&◌, List, [], ◌∷◌, arith, map, inl, inr, Bool-cases}
use flux_tap.Security.{Finding}
use flux_tap.Story.{is_seen, unique_after, unique_rules}
use flux_tap.Text.{text_eq_iff}

-- No rule is listed twice.
abbrev pub AreDistinct : List Bytes → Type 0
AreDistinct [] = Unit
AreDistinct (r ∷ rs) = (is_seen r rs ≡ false) × AreDistinct rs

unique_after-seen :
    (seen : List Bytes) (fs : List Finding) (r : Bytes)
    → is_seen r (unique_after seen fs) ≡ (is_seen r (map (λ f. f.rule) fs) && not (is_seen r seen))
unfolding unique_after
unique_after-seen seen [] r = refl
unique_after-seen seen (f ∷ fs) r = ground (
  arith,
  unique_after-seen seen fs r,
  unique_after-seen (f.rule ∷ seen) fs r,
  text_eq_iff f.rule r,
)

unique_after-AreDistinct :
    (seen : List Bytes) (fs : List Finding) → AreDistinct (unique_after seen fs)
unfolding unique_after
unique_after-AreDistinct seen [] = tt
unique_after-AreDistinct seen (f ∷ fs) = elim (Bool-cases (is_seen f.rule seen)) [
  | inl again ↦ rw again (unique_after-AreDistinct seen fs)
  | inr new ↦ rw new (
    ground (arith, unique_after-seen (f.rule ∷ seen) fs f.rule, text_eq_iff f.rule f.rule),
    unique_after-AreDistinct (f.rule ∷ seen) fs,
  )
]

-- The rules of a summary are exactly those of the findings, and none is listed twice.
pub unique_rules-AreDistinct :
    (fs : List Finding)
    → AreDistinct (unique_rules fs)
      × ((r : Bytes) → is_seen r (unique_rules fs) ≡ is_seen r (map (λ f. f.rule) fs))
unfolding unique_rules
unique_rules-AreDistinct fs =
    (unique_after-AreDistinct [] fs, λ r. ground (arith, unique_after-seen [] fs r))

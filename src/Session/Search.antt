-- ===== src/Session/Search.antt =====
-- `contains` of internal/session/player.go, which searches by hand, against the search of Text.
use flux_tap.Prelude.Words.{Bytes}
use flux_tap.Prelude.{
  ℕ, ◌+◌, ◌≡◌, refl, subst, true, false, ◌&&◌, [], ◌∷◌, arith, leb, length, take,
}
use flux_tap.Session.Beats.{index_from, is_found, contains}
use flux_tap.Text.{text_eq, text_eq_iff, has_prefix}

has_prefix-take :
    (s sub : Bytes)
    → has_prefix s sub ≡ (leb (length sub) (length s) && text_eq (take (length sub) s) sub)
unfolding has_prefix text_eq
has_prefix-take s [] = ground arith
has_prefix-take [] (c ∷ sub) = ground arith
has_prefix-take (x ∷ s) (c ∷ sub) = ground (arith, has_prefix-take s sub)

too_short :
    (s sub : Bytes) → leb (length sub) (length s) ≡ false → flux_tap.Text.contains s sub ≡ false
unfolding flux_tap.Text.contains has_prefix
too_short [] sub h = ground (arith, has_prefix-take [] sub)
too_short (c ∷ s) sub h = ground (arith, has_prefix-take (c ∷ s) sub, too_short s sub)

index_from-found :
    (i : ℕ) (sub s : Bytes) → is_found (index_from i sub s) ≡ flux_tap.Text.contains s sub
unfolding index_from flux_tap.Text.contains has_prefix
index_from-found i [] [] = refl
index_from-found i (d ∷ sub) [] = ground arith
index_from-found i sub (c ∷ s) =
    ground (arith, has_prefix-take (c ∷ s) sub, index_from-found (i + 1) sub s, too_short s sub)

has_prefix_self : (s : Bytes) → has_prefix s s ≡ true
unfolding has_prefix
has_prefix_self [] = refl
has_prefix_self (x ∷ s) = ground (arith, has_prefix_self s)

contains_self : (s : Bytes) → flux_tap.Text.contains s s ≡ true
unfolding flux_tap.Text.contains
contains_self [] = has_prefix_self []
contains_self (x ∷ s) = ground (arith, has_prefix_self (x ∷ s))

contains-whole : (s sub : Bytes) → text_eq s sub ≡ true → flux_tap.Text.contains s sub ≡ true
contains-whole s sub h =
    subst (λ t. flux_tap.Text.contains s t ≡ true) ((text_eq_iff s sub).0 h) (contains_self s)

-- `contains` of the player holds exactly where the second text begins at some place of the first.
pub contains_eq : (s sub : Bytes) → contains s sub ≡ flux_tap.Text.contains s sub
unfolding contains
contains_eq [] [] = unfold flux_tap.Text.contains has_prefix in ground arith
contains_eq [] (c ∷ sub) = unfold flux_tap.Text.contains has_prefix in ground arith
contains_eq (x ∷ s) [] = unfold flux_tap.Text.contains has_prefix in ground arith
contains_eq (x ∷ s) (c ∷ sub) = ground (
  arith,
  too_short (x ∷ s) (c ∷ sub),
  index_from-found 0 (c ∷ sub) (x ∷ s),
  contains-whole (x ∷ s) (c ∷ sub),
)

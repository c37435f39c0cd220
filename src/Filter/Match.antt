-- ===== src/Filter/Match.antt =====
-- `Match` of internal/filter/filter.go: the evaluation of an expression. What is in parentheses is
-- evaluated by the function `inner`, with less fuel.
pub mod Ascii
pub mod Total
use flux_tap.Decode.Frame.{Frame}
use flux_tap.Filter.Compare.{has_protocol, compare}
use flux_tap.Filter.Split.{split_top}
use flux_tap.Filter.{Folding, Numbers}
use flux_tap.Prelude.Panics.{◌>>=◌}
use flux_tap.Prelude.Words.{Bytes, slice}
use flux_tap.Prelude.{
  ℕ, zero, suc, ◌+◌, ◌-◌, Bool, true, false, ◌&&◌, ◌||◌, not, Option, none, some, List, [], ◌∷◌,
  ◌==◌, if◌then◌else◌, length, reverse,
}
use flux_tap.Text.Dict.{lookup}
use flux_tap.Text.Split.{cut}
use flux_tap.Text.{text, is_empty, contains, has_prefix, trim_space}

abbrev is_some {ℓ} : {A : Type ℓ} → Option A → Bool
is_some none = false
is_some (some a) = true

abbrev before : Option (Bytes × Bytes) → Option ℕ
before none = none
before (some (front, rest)) = some (length front)

-- `strings.Index`.
unfoldable pub index_of : Bytes → Bytes → Option ℕ
index_of s sep = before (cut sep s)

-- `strings.ContainsAny(s, "=<>")`.
unfoldable pub has_operator : Bytes → Bool
has_operator [] = false
has_operator (c ∷ s) = c == b'=' || c == b'<' || c == b'>' || has_operator s

unfoldable pub has_suffix : Bytes → Bytes → Bool
has_suffix s p = has_prefix (reverse s) (reverse p)

-- `strings.Trim(s, "\"'")`.
unfoldable pub drop_quotes : Bytes → Bytes
drop_quotes [] = []
drop_quotes (c ∷ s) = let rest = drop_quotes s in if c == 34 || c == 39 then rest else c ∷ s

unfoldable pub trim_quotes : Bytes → Bytes
unfolding drop_quotes
trim_quotes s = reverse (drop_quotes (reverse (drop_quotes s)))

abbrev pub operators : List Bytes
operators =
    text " contains "
    ∷ text " == "
    ∷ text "!="
    ∷ text ">="
    ∷ text "<="
    ∷ text ">"
    ∷ text "<"
    ∷ text "="
    ∷ []

abbrev pub match_meta_key : Frame → Bytes → Bool
match_meta_key f key = is_some (lookup key f.meta)

abbrev is_single : List Bytes → Bool
is_single (p ∷ []) = true
is_single _ = false

module _ (fold : Folding) where
  -- The parts at a separator, or at its other spelling if there is only one.
  unfoldable pub split_either : Bytes → Bytes → Bytes → Option (List Bytes)
  split_either expr sep other = do
    parts ← split_top fold expr sep
    if is_single parts then split_top fold expr other else some parts

module _ (fold : Folding) {R : Type 0} (real : Numbers R) (f : Frame) where
  unfoldable pub index_fold : Bytes → Bytes → Option ℕ
  unfolding index_of
  index_fold s sep = index_of (fold.lower s) (fold.lower sep)

  -- The comparison at the operator that was found at an index.
  unfoldable pub compare_at : Bytes → Bytes → ℕ → Option Bool
  compare_at expr op i = do
    left ← slice expr 0 i
    right ← slice expr (i + length op) (length expr)
    some (compare fold real f (trim_space left) op (trim_quotes (trim_space right)))

  -- `if i >= 0`, or on to the next operator.
  abbrev at_operator : Option ℕ → Option Bool → (ℕ → Option Bool) → Option Bool
  at_operator none next here = next
  at_operator (some i) next here = here i

  -- The loop over the operators.
  unfoldable pub try_operators : Bytes → List Bytes → Option Bool
  unfolding index_fold index_of compare_at
  try_operators expr [] = some (has_protocol fold f (fold.lower expr))
  try_operators expr (op ∷ ops) =
      let name = trim_space op in
      let rest = try_operators expr ops in
      at_operator (index_of (fold.lower expr) name) rest
        λ found. at_operator (index_fold expr name) rest (compare_at expr name)

  module _ (inner : Bytes → Option Bool) where
    unfoldable pub eval_atom : Bytes → Option Bool
    unfolding has_suffix has_operator try_operators
    eval_atom given =
        let expr = trim_space given in
        if has_prefix expr (text "(") && has_suffix expr (text ")")
        then (do enclosed ← slice expr 1 (length expr - 1); inner enclosed)
        else if not (has_operator expr) && not (contains (fold.lower expr) (text " contains "))
        then some (has_protocol fold f (fold.lower expr) || match_meta_key f (fold.lower expr))
        else try_operators expr operators

    -- `!evalAtom(f, strings.TrimSpace(expr[n:]))`.
    unfoldable pub eval_negated : Bytes → ℕ → Option Bool
    unfolding eval_atom
    eval_negated expr n = do
      rest ← slice expr n (length expr)
      b ← eval_atom (trim_space rest)
      some (not b)

    unfoldable pub eval_not : Bytes → Option Bool
    unfolding eval_negated
    eval_not expr =
        if has_prefix (fold.lower expr) (text "not ")
        then eval_negated expr 4
        else if has_prefix expr (text "!")
        then eval_negated expr 1
        else eval_atom expr

    -- The loop of `evalAnd`.
    unfoldable pub all_parts : List Bytes → Option Bool
    unfolding eval_not
    all_parts [] = some true
    all_parts (p ∷ ps) = do b ← eval_not (trim_space p); if b then all_parts ps else some false

    unfoldable pub eval_and : Bytes → Option Bool
    unfolding all_parts split_either
    eval_and expr = do parts ← split_either fold expr (text " and ") (text " && "); all_parts parts

    -- The loop of `evalOr`.
    unfoldable pub any_part : List Bytes → Option Bool
    unfolding eval_and
    any_part [] = some false
    any_part (p ∷ ps) = do b ← eval_and (trim_space p); if b then some true else any_part ps

  -- `evalOr`; `none` is a panic, or that the fuel is used up.
  unfoldable pub eval_or : ℕ → Bytes → Option Bool
  unfolding any_part split_either
  eval_or zero expr = none
  eval_or (suc fuel) expr = do
    parts ← split_either fold expr (text " or ") (text " || ")
    any_part (eval_or fuel) parts

  -- `Match`: an expression has no more parentheses than bytes.
  unfoldable pub match_frame : Bytes → Option Bool
  unfolding eval_or
  match_frame given =
      let expr = trim_space given in
      if is_empty expr then some true else eval_or (suc (length expr)) expr

-- ===== src/Filter/Match/Total.antt =====
-- The evaluation of internal/filter/filter.go on an expression in ASCII.
use flux_tap.Decode.Frame.{Frame}
use flux_tap.Filter.Match.{
  at_operator, index_of, index_fold, operators, compare_at, try_operators, eval_atom, eval_negated,
  eval_not, all_parts, split_either, eval_and, any_part, eval_or, match_frame, has_suffix,
  has_operator, is_single,
}
use flux_tap.Filter.Split.Parts.{IsSlice, split_top-Runs}
use flux_tap.Filter.Split.{split_top}
use flux_tap.Filter.{Folding, Numbers, IsAscii, LowersAscii}
use flux_tap.Prelude.Panics.{Runs, returns, Runs-bind, Runs-if, Runs-slice, Runs-map, Runs-value}
use flux_tap.Prelude.Words.{Bytes, slice_in_range}
use flux_tap.Prelude.{
  some-eq, ℕ, zero, suc, ◌+◌, ◌-◌, ◌≤◌, ◌<◌, ◌≡◌, refl, ◌∙◌, ap, Bool, ◌&&◌, not, Option, none,
  some, List, [], ◌∷◌, arith, length, All, inl, inr, Option-cases,
}
use flux_tap.Text.Split.{cut}
use flux_tap.Text.Pieces.{length-to_lower, has_prefix-length, cut-length}
use flux_tap.Text.{text, is_empty, has_prefix, contains, trim_space}
use flux_tap.Filter.Match.Ascii.{
  IsPart, trim_space-IsPart, slice-IsAscii, slice-IsPart, operators-IsAscii, words, prefix_lengths,
  enclosed-long,
}

module _ (fold : Folding) (ascii : LowersAscii fold) where
  length-lower : (s : Bytes) → IsAscii s → length (fold.lower s) ≡ length s
  length-lower s h = ap length (ascii s h) ∙ length-to_lower s

  -- The parts of a text in ASCII are such texts, and no longer.
  split_top-IsPart :
      (n : ℕ) (s sep : Bytes)
      → IsPart n s
      → IsAscii sep
      → 0 < length sep
      → Runs ⊥ (All (IsPart n)) (split_top fold s sep)
  split_top-IsPart n s sep h a wide =
      Runs-map (λ b. b) (λ parts p. all_slices parts p.slices)
        (split_top-Runs fold s sep (omega (arith, length-lower s h.all))
          (omega (arith, length-lower sep a, wide)))
    where
      all_slices : (parts : List Bytes) → All (IsSlice s) parts → All (IsPart n) parts
      all_slices [] k = tt
      all_slices (p ∷ ps) ((lo, hi, e), ks) = (slice-IsPart n s lo hi e h, all_slices ps ks)

  split_either-IsPart :
      (n : ℕ) (s sep other : Bytes)
      → IsPart n s
      → IsAscii sep
      → IsAscii other
      → 0 < length sep
      → 0 < length other
      → Runs ⊥ (All (IsPart n)) (split_either fold s sep other)
  unfolding split_either
  split_either-IsPart n s sep other h a b wide wide' =
      Runs-bind _ (split_top-IsPart n s sep h a wide) λ parts k.
        Runs-if (is_single parts) (λ one. split_top-IsPart n s other h b wide')
          (λ more. returns parts k)

  -- `inner` ends on what is shorter than `n`.
  abbrev Ends : ℕ → (Bytes → Option Bool) → Type 0
  Ends n inner = (s : Bytes) → IsAscii s → length s < n → Runs ⊥ (λ (b : Bool). Unit {0}) (inner s)

  abbrev Finishes : Option Bool → Type 0
  Finishes = Runs ⊥ (λ (b : Bool). Unit {0})

  module _ {R : Type 0} (real : Numbers R) (f : Frame) where
    compare_at-Runs :
        (expr op : Bytes) (i : ℕ)
        → i + length op ≤ length expr
        → Finishes (compare_at fold real f expr op i)
    unfolding compare_at
    compare_at-Runs expr op i fits =
        Runs-bind _ (Runs-slice expr 0 i (omega arith) (omega (arith, fits))) λ left l.
          Runs-bind _ (Runs-slice expr (i + length op) (length expr) fits (omega arith))
            λ right r. returns _ tt

    index_fold-le :
        (expr op : Bytes) (i : ℕ)
        → IsAscii expr
        → IsAscii op
        → index_fold fold real f expr op ≡ some i
        → i + length op ≤ length expr
    unfolding index_fold index_of
    index_fold-le expr op i h k e = elim (Option-cases (cut (fold.lower op) (fold.lower expr))) [
      | inl nothing ↦ absurd (ground arith)
      | inr ((front, rest), found) ↦
          let here = some-eq (rw found at e) in
          omega (
            arith,
            here,
            cut-length (fold.lower op) (fold.lower expr) found,
            length-lower expr h,
            length-lower op k,
          )
    ]

    at_operator-Runs :
        (o : Option ℕ) {next : Option Bool} {here : ℕ → Option Bool}
        → Finishes next
        → ((i : ℕ) → o ≡ some i → Finishes (here i))
        → Finishes (at_operator fold real f o next here)
    at_operator-Runs none h k = h
    at_operator-Runs (some i) h k = k i refl

    try_operators-Runs :
        (expr : Bytes) (ops : List Bytes)
        → IsAscii expr
        → All IsAscii ops
        → Finishes (try_operators fold real f expr ops)
    unfolding try_operators
    try_operators-Runs expr [] h k = returns _ tt
    try_operators-Runs expr (op ∷ ops) h (k, ks) =
        let name = trim_space op in
        let k' = (trim_space-IsPart (length op) op (record { all = k; few = omega arith })).all in
        let next = try_operators-Runs expr ops h ks in
        at_operator-Runs (index_of (fold.lower expr) name) next λ j found.
          at_operator-Runs (index_fold fold real f expr name) next
            λ i there. compare_at-Runs expr name i (index_fold-le expr name i h k' there)

    module _ (n : ℕ) (inner : Bytes → Option Bool) (ends : Ends n inner) where
      eval_atom-Runs : (s : Bytes) → IsPart n s → Finishes (eval_atom fold real f inner s)
      unfolding eval_atom
      eval_atom-Runs s h =
          let expr = trim_space s in
          let v = trim_space-IsPart n s h in
          Runs-if (has_prefix expr (text "(") && has_suffix expr (text ")"))
            (λ enclosed.
              let long = enclosed-long expr enclosed in
              let (p, e, l) = slice_in_range expr 1 (length expr - 1) (omega arith) (omega arith) in
              rw e (
                ends p (slice-IsAscii expr 1 (length expr - 1) e v.all)
                  (omega (arith, l, v.few, long))))
            λ bare.
              Runs-if
                (not (has_operator expr) && not (contains (fold.lower expr) (text " contains ")))
                (λ name. returns _ tt)
                (λ comparison. try_operators-Runs expr operators v.all operators-IsAscii)

      eval_negated-Runs :
          (s : Bytes) (k : ℕ)
          → k ≤ length s
          → IsPart n s
          → Finishes (eval_negated fold real f inner s k)
      unfolding eval_negated
      eval_negated-Runs s k fits h =
          let (p, e, l) = slice_in_range s k (length s) fits (omega arith) in
          rw e (
            Runs-bind _
              (eval_atom-Runs (trim_space p)
                (trim_space-IsPart n p (slice-IsPart n s k (length s) e h)))
              λ b u. returns _ tt)

      eval_not-Runs : (s : Bytes) → IsPart n s → Finishes (eval_not fold real f inner s)
      unfolding eval_not
      eval_not-Runs s h =
          Runs-if (has_prefix (fold.lower s) (text "not "))
            (λ word.
              eval_negated-Runs s 4
                (omega (
                  arith,
                  length-lower s h.all,
                  has_prefix-length (fold.lower s) (text "not ") word,
                  prefix_lengths.0,
                ))
                h)
            λ other.
              Runs-if (has_prefix s (text "!"))
                (λ mark.
                  eval_negated-Runs s 1
                    (omega (arith, has_prefix-length s (text "!") mark, prefix_lengths.1)) h)
                (λ plain. eval_atom-Runs s h)

      all_parts-Runs :
          (ps : List Bytes) → All (IsPart n) ps → Finishes (all_parts fold real f inner ps)
      unfolding all_parts
      all_parts-Runs [] h = returns _ tt
      all_parts-Runs (p ∷ ps) (h, hs) =
          Runs-bind _ (eval_not-Runs (trim_space p) (trim_space-IsPart n p h))
            λ b u. Runs-if b (λ yes. all_parts-Runs ps hs) (λ no. returns _ tt)

      eval_and-Runs : (s : Bytes) → IsPart n s → Finishes (eval_and fold real f inner s)
      unfolding eval_and
      eval_and-Runs s h =
          Runs-bind _
            (split_either-IsPart n s (text " and ") (text " && ") h words.0.0 words.1.0 words.0.1
              words.1.1)
            λ parts k. all_parts-Runs parts k

      any_part-Runs :
          (ps : List Bytes) → All (IsPart n) ps → Finishes (any_part fold real f inner ps)
      unfolding any_part
      any_part-Runs [] h = returns _ tt
      any_part-Runs (p ∷ ps) (h, hs) =
          Runs-bind _ (eval_and-Runs (trim_space p) (trim_space-IsPart n p h))
            λ b u. Runs-if b (λ yes. returns _ tt) (λ no. any_part-Runs ps hs)

    eval_or-Ends : (fuel : ℕ) → Ends fuel (eval_or fold real f fuel)
    unfolding eval_or
    eval_or-Ends zero s h short = absurd (omega (arith, short))
    eval_or-Ends (suc fuel) s h short =
        let part : IsPart fuel s = record { all = h; few = omega (arith, short) } in
        Runs-bind _
          (split_either-IsPart fuel s (text " or ") (text " || ") part words.2.0 words.3.0 words.2.1
            words.3.1)
          λ parts k. any_part-Runs fuel (eval_or fold real f fuel) (eval_or-Ends fuel) parts k

    -- Where lowering is that of ASCII on texts in ASCII: `Match` gives an answer on every frame for
    -- every expression in ASCII; no slice of it panics, and the fuel is enough for its parentheses.
    pub match_frame-IsTotal :
        (s : Bytes) → IsAscii s → (b : Bool) × (match_frame fold real f s ≡ some b)
    unfolding match_frame
    match_frame-IsTotal s h =
        let v = trim_space-IsPart (length s) s (record { all = h; few = omega arith }) in
        let (b, e, u) = Runs-value (
          Runs-if (is_empty (trim_space s)) (λ nothing. returns _ tt)
            λ something.
              eval_or-Ends (suc (length (trim_space s))) (trim_space s) v.all (omega arith)) in
        (b, e)

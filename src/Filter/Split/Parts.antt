-- ===== src/Filter/Split/Parts.antt =====
-- The parts that `splitTop` of internal/filter/filter.go returns.
use flux_tap.Filter.Split.{
  Depth, Splitting, is_separator, next_part, split_step, split_loop, first_split, split_top, is_top,
}
use flux_tap.Filter.{Folding}
use flux_tap.Prelude.Panics.{Runs, returns, Runs-bind, Runs-if, Runs-index}
use flux_tap.Prelude.Words.{Bytes, slice, slice_in_range}
use flux_tap.Prelude.{
  ℕ, zero, suc, ◌+◌, ◌-◌, ◌≤◌, ◌<◌, ◌≡◌, refl, sym, ◌∙◌, ap, subst, some-eq, Bool, true, false,
  ◌&&◌, none, some, List, [], ◌∷◌, ◌++◌, append-nil, append_assoc, arith, leb, ltb, ◌==◌, leb→le,
  ltb→lt, if-cases, inl, inr, length, take, drop, All, All-append,
}
use flux_tap.Text.{text_eq, text_eq_iff, join}

-- A text is cut out of another.
abbrev pub IsSlice : Bytes → Bytes → Type 0
IsSlice s p = (lo : ℕ) × (hi : ℕ) × (slice s lo hi ≡ some p)

-- The parts that stand before a separator, with their separators.
abbrev glue : List Bytes → Bytes → Bytes
glue [] sep = []
glue (p ∷ ps) sep = p ++ (sep ++ glue ps sep)

regroup : (q t p : Bytes) → q ++ (t ++ p) ≡ (q ++ t) ++ p
regroup q t p = sym (append_assoc q t p)

glue-append :
    (ps : List Bytes) (p sep : Bytes) → glue (ps ++ p ∷ []) sep ≡ glue ps sep ++ (p ++ sep)
glue-append [] p sep = ap (λ end. p ++ end) (append-nil sep)
glue-append (q ∷ ps) p sep = rw (glue-append ps p sep) (
    ap (λ t. q ++ t) (sym (append_assoc sep (glue ps sep) (p ++ sep)))
    ∙ sym (append_assoc q (sep ++ glue ps sep) (p ++ sep)))

join-glue : (ps : List Bytes) (p sep : Bytes) → join (ps ++ p ∷ []) sep ≡ glue ps sep ++ p
unfolding join
join-glue [] p sep = refl
join-glue (q ∷ []) p sep =
    ap (λ end. q ++ (end ++ p)) (sym (append-nil sep)) ∙ regroup q (sep ++ []) p
join-glue (q ∷ r ∷ ps) p sep =
    ap (λ end. q ++ (sep ++ end)) (join-glue (r ∷ ps) p sep)
    ∙ ap (λ end. q ++ end) (sym (append_assoc sep (glue (r ∷ ps) sep) p))
    ∙ regroup q (sep ++ glue (r ∷ ps) sep) p

take-nil : (n : ℕ) → take {A = ℕ} n [] ≡ []
take-nil zero = refl
take-nil (suc n) = refl

take-slice : (s : Bytes) (lo n m : ℕ) → m ≡ lo + n → take lo s ++ take n (drop lo s) ≡ take m s
take-slice s zero n m h = ap (λ k. take k s) (omega (arith, h))
take-slice [] (suc lo) n m h = take-nil n ∙ sym (take-nil m)
take-slice (c ∷ s) (suc lo) n zero h = absurd (omega (arith, h))
take-slice (c ∷ s) (suc lo) n (suc m) h = ap (◌∷◌ c) (take-slice s lo n m (omega (arith, h)))

-- What a slice that did not panic is.
pub slice-eq-some :
    (s : Bytes) (lo hi : ℕ) {p : Bytes}
    → slice s lo hi ≡ some p
    → (lo ≤ hi) × (hi ≤ length s) × (take (hi - lo) (drop lo s) ≡ p)
unfolding slice
slice-eq-some s lo hi e = elim (if-cases (leb lo hi) _ none e) [
  | inl (ordered, rest) ↦ elim (if-cases (leb hi (length s)) _ none rest) [
    | inl (fits, here) ↦ (leb→le _ _ ordered, leb→le _ _ fits, some-eq here)
    | inr (over, nothing) ↦ absurd (ground arith)
  ]
  | inr (reversed, nothing) ↦ absurd (ground arith)
]

slice-take :
    (s : Bytes) (lo hi : ℕ) {p : Bytes} → slice s lo hi ≡ some p → take lo s ++ p ≡ take hi s
slice-take s lo hi e =
    let (ordered, fits, here) = slice-eq-some s lo hi e in
    ap (λ p. take lo s ++ p) (sym here) ∙ take-slice s lo (hi - lo) hi (omega arith)

take-all : (s : Bytes) → take (length s) s ≡ s
take-all [] = refl
take-all (c ∷ s) = ap (◌∷◌ c) (take-all s)

-- The state of the loop: what is cut off are slices, and together with their separators they are
-- the text before `start`, if there is nothing to lower in it.
pub record IsSplit (s low sep : Bytes) (st : Splitting) : Type 0 where
  pub ordered : st.start ≤ st.i
  pub fits : st.i ≤ length s
  pub slices : All (IsSlice s) st.parts
  pub glued : low ≡ s → glue st.parts sep ≡ take st.start s

-- A separator that is found.
abbrev IsFound : Bytes → Bytes → Bytes → Splitting → Bool → Type 0
IsFound s low sep st found =
    found ≡ true → (st.i + length sep ≤ length s) × (slice low st.i (st.i + length sep) ≡ some sep)

module _ (s low sep : Bytes) (long : length s ≤ length low) where
  is_separator-Runs : (st : Splitting) → Runs ⊥ (IsFound s low sep st) (is_separator s low sep st)
  unfolding is_separator
  is_separator-Runs st =
      Runs-if (is_top st.depth && leb (st.i + length sep) (length s))
        (λ here.
          let fits = leb→le (st.i + length sep) (length s) (ground (arith, here)) in
          let (piece, e, l) =
            slice_in_range low st.i (st.i + length sep) (omega arith) (omega (arith, fits, long)) in
          rw e (
            returns (text_eq piece sep)
              (λ same. (fits, e ∙ ap some ((text_eq_iff piece sep).0 same)))))
        (λ no. returns false (λ h. absurd (ground arith)))

  -- What a round leaves of a state: one that is further on.
  abbrev IsNext : Splitting → Splitting → Type 0
  IsNext st st' = IsSplit s low sep st' × (st.i < st'.i)

  cut-glued :
      (st : Splitting) (part : Bytes)
      → slice s st.start st.i ≡ some part
      → slice low st.i (st.i + length sep) ≡ some sep
      → IsSplit s low sep st
      → low ≡ s
      → glue (st.parts ++ part ∷ []) sep ≡ take (st.i + length sep) s
  cut-glued st part cut found v same =
      glue-append st.parts part sep
      ∙ ap (λ t. t ++ (part ++ sep)) (v.glued same)
      ∙ regroup (take st.start s) part sep
      ∙ ap (λ t. t ++ sep) (slice-take s st.start st.i cut)
      ∙ slice-take s st.i (st.i + length sep)
          (subst (λ t. slice t st.i (st.i + length sep) ≡ some sep) same found)

  next_part-Runs :
      (st : Splitting) (found : Bool)
      → 0 < length sep
      → st.i < length s
      → IsSplit s low sep st
      → IsFound s low sep st found
      → Runs ⊥ (IsNext st) (next_part s sep st found)
  unfolding next_part
  next_part-Runs st false wide more v h =
      returns (record st { i = st.i + 1 })
        (
          record {
            ordered = omega (arith, v.ordered);
            fits = omega arith;
            slices = v.slices;
            glued = v.glued;
          },
          omega arith,
        )
  next_part-Runs st true wide more v h =
      let (fits, found) = h refl in
      let (part, cut, l) = slice_in_range s st.start st.i v.ordered v.fits in
      rw cut (
        returns _ (
          record {
            ordered = omega arith;
            fits = fits;
            slices =
                All-append (IsSlice s) st.parts (part ∷ []) v.slices ((st.start, st.i, cut), tt);
            glued = cut-glued st part cut found v;
          },
          omega arith,
        ))

  split_step-Runs :
      (st : Splitting)
      → 0 < length sep
      → st.i < length s
      → IsSplit s low sep st
      → Runs ⊥ (IsNext st) (split_step s low sep st)
  unfolding split_step
  split_step-Runs st wide more v = Runs-bind _ (Runs-index s st.i more) λ c read.
      Runs-if (c == b'(') (λ opens. returns _ (step_over, omega arith))
        λ other.
          Runs-if (c == b')') (λ closes. returns _ (step_over, omega arith))
            λ plain.
              Runs-bind _ (is_separator-Runs st) λ found h. next_part-Runs st found wide more v h
    where
      step_over : {d : Depth} → IsSplit s low sep (record st { depth = d; i = st.i + 1 })
      step_over = record {
        ordered = omega (arith, v.ordered);
        fits = omega (arith, more);
        slices = v.slices;
        glued = v.glued;
      }

  split_loop-Runs :
      (fuel : ℕ) (st : Splitting)
      → 0 < length sep
      → length s < fuel + st.i
      → IsSplit s low sep st
      → Runs ⊥ (λ st'. IsSplit s low sep st') (split_loop fuel s low sep st)
  unfolding split_loop
  split_loop-Runs zero st wide enough v = absurd (omega (arith, v.fits))
  split_loop-Runs (suc fuel) st wide enough v =
      Runs-if (ltb st.i (length s))
        (λ more.
          Runs-bind _ (split_step-Runs st wide (ltb→lt _ _ more) v)
            λ st' (v', further). split_loop-Runs fuel st' wide (omega (arith, enough, further)) v')
        (λ end. returns st v)

-- Parts that are slices, which give the text back where there is nothing to lower in it.
pub record AreParts (fold : Folding) (s sep : Bytes) (parts : List Bytes) : Type 0 where
  pub slices : All (IsSlice s) parts
  pub joined : fold.lower s ≡ s → fold.lower sep ≡ sep → join parts sep ≡ s

pub split_top-Runs :
    (fold : Folding) (s sep : Bytes)
    → length s ≤ length (fold.lower s)
    → 0 < length (fold.lower sep)
    → Runs ⊥ (AreParts fold s sep) (split_top fold s sep)
unfolding split_top
split_top-Runs fold s sep long wide =
    Runs-bind _
      (split_loop-Runs s (fold.lower s) (fold.lower sep) long (suc (length s)) first_split wide
        (omega arith)
        (record { ordered = omega arith; fits = omega arith; slices = tt; glued = λ same. refl }))
      λ st v.
        let (last, cut, l) =
          slice_in_range s st.start (length s) (omega (arith, v.ordered, v.fits)) (omega arith) in
        rw cut (
          returns (st.parts ++ last ∷ []) (record {
            slices =
                All-append (IsSlice s) st.parts (last ∷ []) v.slices
                  ((st.start, length s, cut), tt);
            joined = λ same low. joined_back same low st last v cut;
          }))
  where
    joined_back :
        fold.lower s ≡ s
        → fold.lower sep ≡ sep
        → (st : Splitting) (last : Bytes) → IsSplit s (fold.lower s) (fold.lower sep) st
        → slice s st.start (length s) ≡ some last
        → join (st.parts ++ last ∷ []) sep ≡ s
    joined_back same low st last v cut =
        join-glue st.parts last sep
        ∙ ap (λ t. glue st.parts t ++ last) (sym low)
        ∙ ap (λ t. t ++ last) (v.glued same)
        ∙ slice-take s st.start (length s) cut
        ∙ take-all s

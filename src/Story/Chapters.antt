-- ===== src/Story/Chapters.antt =====
-- The chapters that `Build` of internal/story/story.go makes of the findings.
use flux_tap.Pcap.Stream.{Instant, since_epoch, before_epoch}
use flux_tap.Prelude.Words.{Bytes}
use flux_tap.Prelude.{
  ℕ, zero, suc, ◌≡◌, refl, ap, Bool, true, false, ◌<◌, ◌||◌, ◌⊎◌, inl, inr, arith, dec_lt,
  Bool-cases, Option, List, [], ◌∷◌, map, length, All,
}
use flux_tap.Security.{Finding}
use flux_tap.Session.{Session}
use flux_tap.Story.{
  Chapter, Story, same_instant, is_before, is_earlier, chapter, chapters_from, index_sessions,
  build,
}
use flux_tap.Text.Dict.{Dict}
use mathlib.Core.List.{Perm}

-- Nanoseconds before or since the epoch, in order.
pub data Comes : Instant → Instant → Type 0 where
  both_since : {m n : ℕ} → m < n → Comes (since_epoch m) (since_epoch n)
  both_before : {m n : ℕ} → n < m → Comes (before_epoch m) (before_epoch n)
  around : {m n : ℕ} → Comes (before_epoch m) (since_epoch n)

-- One finding is told before another: at an earlier time, or at the same time with a smaller number
-- of the frame.
pub data Precedes (f g : Finding) : Type 0 where
  by_time : Comes f.time g.time → Precedes f g
  by_frame : f.time ≡ g.time → f.frame_no < g.frame_no → Precedes f g

-- Any two findings stand in order, or are at the same time in the same frame.
abbrev pub InOrder : Finding → Finding → Type 0
InOrder f g = Precedes f g ⊎ ((f.time ≡ g.time) × (f.frame_no ≡ g.frame_no))

abbrev pub AllInOrder : List Finding → Type 0
AllInOrder [] = Unit
AllInOrder (f ∷ fs) = All (InOrder f) fs × AllInOrder fs

-- No element is less than one before it.
abbrev pub IsSortedBy : (Finding → Finding → Bool) → List Finding → Type 0
IsSortedBy less [] = Unit
IsSortedBy less (f ∷ fs) = All (λ g. less g f ≡ false) fs × IsSortedBy less fs

-- What is documented of `sort.Slice`, for a comparison on some findings: it gives the same ones, none
-- less than one before it.
abbrev pub Sorts :
    ((Finding → Finding → Bool) → List Finding → List Finding)
    → (Finding → Finding → Bool)
    → List Finding
    → Type 0
Sorts sort less fs = Perm (sort less fs) fs × IsSortedBy less (sort less fs)

-- What `is_earlier` decides.
not_earlier_times : (a b : Instant) → (same_instant b a || is_before b a) ≡ false → Comes a b
unfolding same_instant is_before
not_earlier_times (since_epoch m) (since_epoch n) e = both_since (ground arith)
not_earlier_times (before_epoch m) (before_epoch n) e = both_before (ground arith)
not_earlier_times (before_epoch m) (since_epoch n) e = around
not_earlier_times (since_epoch m) (before_epoch n) e = cc

same_instant-eq : (a b : Instant) → same_instant b a ≡ true → a ≡ b
unfolding same_instant
same_instant-eq (since_epoch m) (since_epoch n) e = ap since_epoch (ground arith)
same_instant-eq (before_epoch m) (before_epoch n) e = ap before_epoch (ground arith)
same_instant-eq (before_epoch m) (since_epoch n) e = cc
same_instant-eq (since_epoch m) (before_epoch n) e = cc

not_earlier-InOrder : (f g : Finding) → is_earlier g f ≡ false → InOrder f g
unfolding is_earlier
not_earlier-InOrder f g e = elim (Bool-cases (same_instant g.time f.time)) [
  | inl same ↦
      let at = same_instant-eq f.time g.time same in
      elim (dec_lt f.frame_no g.frame_no) [
        | yes less ↦ inl (by_frame at less)
        | no not_less ↦ inr (at, ground (arith, e, same, not_less))
      ]
  | inr other ↦ inl (by_time (not_earlier_times f.time g.time (ground (arith, e, other))))
]

IsSortedBy-AllInOrder : (fs : List Finding) → IsSortedBy is_earlier fs → AllInOrder fs
IsSortedBy-AllInOrder [] h = tt
IsSortedBy-AllInOrder (f ∷ fs) (first, rest) = (all_behind fs first, IsSortedBy-AllInOrder fs rest)
  where
    all_behind : (gs : List Finding) → All (λ g. is_earlier g f ≡ false) gs → All (InOrder f) gs
    all_behind [] h = tt
    all_behind (g ∷ gs) (e, more) = (not_earlier-InOrder f g e, all_behind gs more)

-- What a chapter keeps of its finding.
pub record Evidence : Type 0 where
  pub time : Instant
  pub frame_no : ℕ
  pub severity : Bytes
  pub rule : Bytes
  pub src : Bytes
  pub dst : Bytes

abbrev pub evidence : Finding → Evidence
evidence f = record {
  time = f.time;
  frame_no = f.frame_no;
  severity = f.severity;
  rule = f.rule;
  src = f.src;
  dst = f.dst;
}

abbrev pub told : Chapter → Evidence
told c = record {
  time = c.time;
  frame_no = c.frame_no;
  severity = c.severity;
  rule = c.rule;
  src = c.src;
  dst = c.dst;
}

-- The numbers from `n` on.
abbrev pub count_from : ℕ → ℕ → List ℕ
count_from n zero = []
count_from n (suc k) = n ∷ count_from (suc n) k

chapters_from-told :
    (sessions : Dict Bytes) (n : ℕ) (fs : List Finding)
    → map told (chapters_from sessions n fs) ≡ map evidence fs
unfolding chapters_from chapter
chapters_from-told sessions n [] = refl
chapters_from-told sessions n (f ∷ fs) =
    ap (◌∷◌ (evidence f)) (chapters_from-told sessions (suc n) fs)

chapters_from-numbers :
    (sessions : Dict Bytes) (n : ℕ) (fs : List Finding)
    → map (λ c. c.number) (chapters_from sessions n fs) ≡ count_from n (length fs)
unfolding chapters_from chapter
chapters_from-numbers sessions n [] = refl
chapters_from-numbers sessions n (f ∷ fs) = ap (◌∷◌ n) (chapters_from-numbers sessions (suc n) fs)

-- A story of the findings, in the order `sorted`.
pub record IsToldBy (findings sorted : List Finding) (s : Story) : Type 0 where
  pub same : Perm sorted findings
  pub in_order : AllInOrder sorted
  pub told_all : map told s.chapters ≡ map evidence sorted
  pub numbered : map (λ c. c.number) s.chapters ≡ count_from 1 (length sorted)

-- The story has a chapter for each finding, with its time, frame, severity, rule and addresses,
-- numbered from 1. The findings that it tells stand in the order of their times, the earliest first,
-- and at one time in the order of their frames. `sort.Slice` gives the same findings in an order
-- in which none is less, by the comparison that it is given, than one before it.
pub build-IsToldBy :
    (sort : (Finding → Finding → Bool) → List Finding → List Finding) (now : Instant)
    (findings : List Finding) (sessions : List (Option Session))
    → Sorts sort is_earlier findings
    → (sorted : List Finding) × IsToldBy findings sorted (build sort now findings sessions)
unfolding build
build-IsToldBy sort now findings sessions sorts =
    let (p, sorted) = sorts in
    (
      sort is_earlier findings,
      record {
        same = p;
        in_order = IsSortedBy-AllInOrder (sort is_earlier findings) sorted;
        told_all = chapters_from-told (index_sessions sessions) 1 (sort is_earlier findings);
        numbered = chapters_from-numbers (index_sessions sessions) 1 (sort is_earlier findings);
      },
    )

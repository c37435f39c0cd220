-- ===== src/Stats/Timeline.antt =====
-- The timeline of internal/stats/engine.go: its bound, and the bucket that a frame is counted in.
use flux_tap.Prelude.{
  ℕ, zero, suc, ◌+◌, ◌-◌, ◌%◌, ◌^◌, ◌≤◌, ◌≡◌, refl, ap, subst, Bool, true, false, some, List, [],
  ◌∷◌, ◌++◌, arith, length, drop, length-append, length-drop, inl, inr, Bool-cases, dec_le, lt→ltb,
  le→ltb, sym, ◌∙◌, ◌⊎◌, ==_refl,
}
use flux_tap.Decode.Frame.{Frame}
use flux_tap.Pcap.Stream.{Instant}
use flux_tap.Stats.{
  Statistics, count_frame, observe, second_of, Second, since, before, Bucket, same_second,
  newest_buckets, is_last, open_bucket, count_last,
}

abbrev is_first : Second → List Bucket → Bool
is_first sec [] = false
is_first sec (b ∷ bs) = same_second sec b.t

-- Neighbours are of different seconds.
abbrev pub IsAlternating : List Bucket → Type 0
IsAlternating [] = Unit
IsAlternating (b ∷ bs) = (is_first b.t bs ≡ false) × IsAlternating bs

pub record IsKept (bs : List Bucket) : Type 0 where
  pub few : length bs ≤ 600
  pub alternating : IsAlternating bs

abbrev pub counted : ℕ → Bucket → Bucket
counted len b = record b {
  packets = (b.packets + 1) % 2 ^ 64;
  byte_total = (b.byte_total + len) % 2 ^ 64;
}

abbrev pub empty_bucket : Second → Bucket
empty_bucket sec = record { t = sec; packets = 0; byte_total = 0 }

count_last-append :
    (len : ℕ) (bs : List Bucket) (b : Bucket)
    → count_last len (bs ++ b ∷ []) ≡ some (bs ++ counted len b ∷ [])
unfolding count_last
count_last-append len [] b = refl
count_last-append len (c ∷ []) b = refl
count_last-append len (c ∷ d ∷ bs) b = rw (count_last-append len (d ∷ bs) b) refl

is_last-append :
    (sec : Second) (bs : List Bucket) (b : Bucket)
    → is_last sec (bs ++ b ∷ []) ≡ same_second b.t sec
unfolding is_last
is_last-append sec [] b = refl
is_last-append sec (c ∷ []) b = refl
is_last-append sec (c ∷ d ∷ bs) b = is_last-append sec (d ∷ bs) b

IsAlternating-drop : (n : ℕ) (bs : List Bucket) → IsAlternating bs → IsAlternating (drop n bs)
IsAlternating-drop zero bs h = h
IsAlternating-drop (suc n) [] h = h
IsAlternating-drop (suc n) (b ∷ bs) h = IsAlternating-drop n bs h.1

-- A bucket of another second may follow.
IsAlternating-append :
    (sec : Second) (bs : List Bucket)
    → is_last sec bs ≡ false
    → IsAlternating bs
    → IsAlternating (bs ++ empty_bucket sec ∷ [])
unfolding is_last
IsAlternating-append sec [] e h = (refl, tt)
IsAlternating-append sec (b ∷ []) e h = (e, (refl, tt))
IsAlternating-append sec (b ∷ c ∷ bs) e h = (h.0, IsAlternating-append sec (c ∷ bs) e h.1)

snoc-cases :
    (bs : List Bucket) → (bs ≡ []) ⊎ ((front : List Bucket) × (b : Bucket) × (bs ≡ front ++ b ∷ []))
snoc-cases [] = inl refl
snoc-cases (b ∷ bs) = elim (snoc-cases bs) [
  | inl e ↦ inr ([], b, ap (◌∷◌ b) e)
  | inr (front, c, e) ↦ inr (b ∷ front, c, ap (◌∷◌ b) e)
]

drop-append_le : (n : ℕ) (bs cs : List Bucket) → n ≤ length bs → drop n (bs ++ cs) ≡ drop n bs ++ cs
drop-append_le zero bs cs h = refl
drop-append_le (suc n) [] cs h = absurd (omega arith)
drop-append_le (suc n) (b ∷ bs) cs h = drop-append_le n bs cs (omega arith)

-- The buckets before the last one, and the last one, when a second is about to be counted: those
-- there were, if the last one is of that second; else the newest 599 and an empty one.
pub record IsOpened (sec : Second) (bs front : List Bucket) (b : Bucket) : Type 0 where
  pub kept : IsKept (front ++ b ∷ [])
  pub of_second : same_second b.t sec ≡ true
  pub same : is_last sec bs ≡ true → front ++ b ∷ [] ≡ bs
  pub new : is_last sec bs ≡ false → (b ≡ empty_bucket sec) × (front ≡ drop (length bs - 599) bs)

same_second_refl : (sec : Second) → same_second sec sec ≡ true
unfolding same_second
same_second_refl (since n) = ==_refl n
same_second_refl (before n) = ==_refl n

as_left : (m n : ℕ) → m ≡ n + 1 → m - 600 ≡ n - 599
as_left m n h = omega arith

none_left : (n : ℕ) → n ≤ 599 → n - 599 ≡ 0
none_left n h = omega arith

newest_buckets-append :
    (bs : List Bucket) (b : Bucket)
    → length bs ≤ 600
    → newest_buckets (bs ++ b ∷ []) ≡ drop (length bs - 599) bs ++ b ∷ []
unfolding newest_buckets
newest_buckets-append bs b h = elim (dec_le 600 (length bs)) [
  | yes full ↦ rw (lt→ltb 600 (length (bs ++ b ∷ [])) (omega (arith, length-append bs (b ∷ [])))) (
      ap (λ n. drop n (bs ++ b ∷ []))
        (as_left (length (bs ++ b ∷ [])) (length bs) (length-append bs (b ∷ [])))
      ∙ drop-append_le (length bs - 599) bs (b ∷ []) (omega arith))
  | no free ↦
      rw
        (
          le→ltb 600 (length (bs ++ b ∷ [])) (omega (arith, length-append bs (b ∷ []))),
          none_left (length bs) (omega arith),
        )
        refl
]

no_last : (sec : Second) (bs : List Bucket) → bs ≡ [] → is_last sec bs ≡ true → ⊥
unfolding is_last
no_last sec [] e h = cc
no_last sec (b ∷ bs) e h = cc

open_bucket-IsOpened :
    (sec : Second) (bs : List Bucket)
    → IsKept bs
    → (front : List Bucket) × (b : Bucket) × (open_bucket sec bs ≡ front ++ b ∷ [])
      × IsOpened sec bs front b
unfolding open_bucket
open_bucket-IsOpened sec bs v = elim (Bool-cases (is_last sec bs)) [
  | inl there ↦ elim (snoc-cases bs) [
    | inl e ↦ absurd (no_last sec bs e there)
    | inr (front, b, e) ↦ (
      front,
      b,
      rw there e,
      record {
        kept = subst IsKept e v;
        of_second = sym (is_last-append sec front b) ∙ sym (ap (is_last sec) e) ∙ there;
        same = λ h. sym e;
        new = λ h. absurd (ground arith);
      },
    )
  ]
  | inr other ↦ (
    drop (length bs - 599) bs,
    empty_bucket sec,
    rw other (newest_buckets-append bs (empty_bucket sec) v.few),
    record {
      kept = record {
        few = omega (
          arith,
          v.few,
          length-append (drop (length bs - 599) bs) (empty_bucket sec ∷ []),
          length-drop (length bs - 599) bs,
        );
        alternating = subst IsAlternating (drop-append_le (length bs - 599) bs _ (omega arith)) (
            IsAlternating-drop (length bs - 599) (bs ++ empty_bucket sec ∷ [])
              (IsAlternating-append sec bs other v.alternating));
      };
      of_second = same_second_refl sec;
      same = λ h. absurd (ground arith);
      new = λ h. (refl, refl);
    },
  )
]

IsAlternating-counted :
    (len : ℕ) (bs : List Bucket) (b : Bucket)
    → IsAlternating (bs ++ b ∷ [])
    → IsAlternating (bs ++ counted len b ∷ [])
IsAlternating-counted len [] b h = h
IsAlternating-counted len (c ∷ []) b h = h
IsAlternating-counted len (c ∷ d ∷ bs) b h = (h.0, IsAlternating-counted len (d ∷ bs) b h.1)

counted-IsKept :
    (len : ℕ) (bs : List Bucket) (b : Bucket)
    → IsKept (bs ++ b ∷ [])
    → IsKept (bs ++ counted len b ∷ [])
counted-IsKept len bs b v = record {
  few = omega (arith, v.few, length-append bs (b ∷ []), length-append bs (counted len b ∷ []));
  alternating = IsAlternating-counted len bs b v.alternating;
}

-- What is left after `Observe`.
pub record IsCounted (now : Instant) (e : Statistics) (f : Frame) (e' : Statistics) : Type 0 where
  pub front : List Bucket
  pub last : Bucket
  pub opened : IsOpened (second_of now f) e.timeline front last
  pub result : e' ≡ count_frame f e (front ++ counted f.len last ∷ [])
  pub kept : IsKept (front ++ counted f.len last ∷ [])

-- `Observe` never panics on a timeline that is kept, which then has at most 600 buckets, no two
-- neighbours of the same second: the frame is counted in the last bucket if that is of the frame's
-- second, and else in a new one behind the newest 599; all other buckets stay as they are.
pub observe-IsCounted :
    (now : Instant) (e : Statistics) (f : Frame)
    → IsKept e.timeline
    → (e' : Statistics) × (observe now e f ≡ some e') × IsCounted now e f e'
unfolding observe
observe-IsCounted now e f v =
    let (front, b, made, o) = open_bucket-IsOpened (second_of now f) e.timeline v in
    let done = ap (count_last f.len) made ∙ count_last-append f.len front b in
    (
      _,
      rw done refl,
      record {
        front = front;
        last = b;
        opened = o;
        result = refl;
        kept = counted-IsKept f.len front b o.kept;
      },
    )

-- ===== src/Stats/Talkers.antt =====
-- The talkers of internal/stats/engine.go: what a frame counts for them, and the largest.
use flux_tap.Decode.Frame.{Frame}
use flux_tap.Pcap.Stream.{Instant}
use flux_tap.Prelude.Words.{Bytes}
use flux_tap.Prelude.{
  ℕ, ◌+◌, ◌%◌, ◌^◌, ◌≡◌, refl, ap, subst, ◌∙◌, false, Option, none, some, List, [], ◌∷◌, arith,
  if◌then◌else◌, inl, inr, Bool-cases, Option-cases,
}
use flux_tap.Ranking.Sorted.{IsTop, cut_to-IsTop}
use flux_tap.Stats.{
  talker_of, Talker, Bucket, Statistics, talk, second_of, open_bucket, count_last, count_frame,
  observe, top_talkers,
}
use flux_tap.Text.Dict.{Dict, lookup, lookup-insert, insert, get}
use flux_tap.Text.{text, is_empty, text_eq, text_eq_iff}

-- In whatever order the loop over the map gives the talkers, `Snapshot` lists the 15 with the most
-- bytes, or all if there are no more, in descending order.
pub top_talkers-IsTop : (all : List Talker) → IsTop (λ t. t.byte_total) 15 all (top_talkers all)
unfolding top_talkers
top_talkers-IsTop all = cut_to-IsTop (λ t. t.byte_total) 15 all

abbrev packets_of : Option Talker → ℕ
packets_of none = 0
packets_of (some t) = t.packets

-- The packets counted for an address.
abbrev pub talker_packets : Dict Talker → Bytes → ℕ
talker_packets m a = packets_of (lookup a m)

-- One for an address that is meant.
abbrev pub hit : Bytes → Bytes → ℕ
hit addr a = if text_eq addr a then 1 else 0

talker_packets-insert :
    (k a : Bytes) (t : Talker) (m : Dict Talker)
    → talker_packets (insert k t m) a ≡ (if text_eq k a then t.packets else talker_packets m a)
talker_packets-insert k a t m = elim (Bool-cases (text_eq k a)) [
  | inl same ↦ ap packets_of (lookup-insert k a t m) ∙ rw same refl
  | inr other ↦ ap packets_of (lookup-insert k a t m) ∙ rw other refl
]

packets-talker_of : (addr : Bytes) (o : Option Talker) → (talker_of addr o).packets ≡ packets_of o
packets-talker_of addr none = refl
packets-talker_of addr (some t) = refl

talk-packets :
    (len : ℕ) (addr a : Bytes) (m : Dict Talker)
    → is_empty a ≡ false
    → talker_packets (talk len addr m) a % 2 ^ 64 ≡ (talker_packets m a + hit addr a) % 2 ^ 64
unfolding talk
talk-packets len [] a m h = elim (Bool-cases (text_eq [] a)) [
  | inl same ↦ absurd (named a h ((text_eq_iff [] a).0 same))
  | inr other ↦ rw other (omega arith)
]
  where
    named : (a : Bytes) → is_empty a ≡ false → [] ≡ a → ⊥
    named [] h e = cc
    named (c ∷ cs) h e = cc
talk-packets len (c ∷ cs) a m h =
    let t = talker_of (c ∷ cs) (lookup (c ∷ cs) m) in
    let now =
      talker_packets-insert (c ∷ cs) a
        (record t {
          packets = (t.packets + 1) % 2 ^ 64;
          byte_total = (t.byte_total + len) % 2 ^ 64;
        })
        m in
    let old = packets-talker_of (c ∷ cs) (lookup (c ∷ cs) m) in
    elim (Bool-cases (text_eq (c ∷ cs) a)) [
      | inl same ↦
          let here = ap (talker_packets m) ((text_eq_iff (c ∷ cs) a).0 same) in
          rw same (omega (arith, rw same at now, old, here))
      | inr other ↦ rw other (omega (arith, rw other at now))
    ]

observe_counts :
    (now : Instant) (e e' : Statistics) (f : Frame)
    → observe now e f ≡ some e'
    → (timeline : List Bucket) × (count_frame f e timeline ≡ e')
unfolding observe
observe_counts now e e' f done =
    elim (Option-cases (count_last f.len (open_bucket (second_of now f) e.timeline))) [
      | inl stuck ↦ absurd (ground arith)
      | inr (timeline, made) ↦ (timeline, cc)
    ]

-- Observing a frame counts one packet for its source and one for its destination (two where they
-- are the same address), modulo 2 ^ 64, and none for any other address.
pub observe-packets :
    (now : Instant) (e e' : Statistics) (f : Frame) (a : Bytes)
    → is_empty a ≡ false
    → observe now e f ≡ some e'
    → talker_packets e'.talkers a % 2 ^ 64
      ≡ (talker_packets e.talkers a
          + hit (get f.meta (text "ip_src")) a
          + hit (get f.meta (text "ip_dst")) a)
        % 2 ^ 64
unfolding observe
observe-packets now e e' f a given done =
    let src = get f.meta (text "ip_src") in
    let dst = get f.meta (text "ip_dst") in
    let (timeline, same) = observe_counts now e e' f done in
    subst
      (λ s.
        talker_packets s.talkers a % 2 ^ 64
        ≡ (talker_packets e.talkers a + hit src a + hit dst a) % 2 ^ 64)
      same
      (omega (
        arith,
        talk-packets f.len src a e.talkers given,
        talk-packets f.len dst a (talk f.len src e.talkers) given,
      ))

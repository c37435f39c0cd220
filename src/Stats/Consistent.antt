-- ===== src/Stats/Consistent.antt =====
-- What the counters of internal/stats/engine.go have in common.
use flux_tap.Decode.Frame.{Frame}
use flux_tap.Pcap.Stream.{Instant}
use flux_tap.Prelude.Words.{Bytes}
use flux_tap.Prelude.{
  ℕ, ◌+◌, ◌%◌, ◌^◌, ◌≡◌, refl, subst, sym, ◌∙◌, some, List, [], ◌∷◌, arith, All, inl, inr,
  Bool-cases, Option-cases,
}
use flux_tap.Stats.Timeline.{IsKept, observe-IsCounted}
use flux_tap.Stats.{
  Bucket, count_frame, Talker, Statistics, new_statistics, count_one, talk, observe, severity_name,
}
use flux_tap.Text.Dict.{Dict, lookup, insert, get, tally, sum_counts, sum_counts-insert}
use flux_tap.Text.{text, is_empty, text_eq, text_eq_iff}

-- Every talker stands under its own address.
abbrev pub AreNamed : Dict Talker → Type 0
AreNamed = All (λ e. e.1.addr ≡ e.0)

pub record IsConsistent (e : Statistics) : Type 0 where
  pub by_protocol : sum_counts e.protocols % 2 ^ 64 ≡ e.packets
  pub by_severity : sum_counts e.severity % 2 ^ 64 ≡ e.packets
  pub named : AreNamed e.talkers
  pub kept : IsKept e.timeline

pub new_statistics-IsConsistent : (now : Instant) → IsConsistent (new_statistics now)
unfolding new_statistics sum_counts
new_statistics-IsConsistent now = record {
  by_protocol = refl;
  by_severity = refl;
  named = tt;
  kept = record { few = omega arith; alternating = tt };
}

sum_counts-count_one :
    (k : Bytes) (m : Dict ℕ) → sum_counts (count_one k m) % 2 ^ 64 ≡ (sum_counts m + 1) % 2 ^ 64
unfolding count_one
sum_counts-count_one k m = omega (arith, sum_counts-insert k ((tally m k + 1) % 2 ^ 64) m)

insert-AreNamed :
    (k : Bytes) (t : Talker) (m : Dict Talker) → t.addr ≡ k → AreNamed m → AreNamed (insert k t m)
unfolding insert
insert-AreNamed k t [] e h = (e, tt)
insert-AreNamed k t ((j, s) ∷ m) e (h, hs) = elim (Bool-cases (text_eq j k)) [
  | inl same ↦ rw same (e ∙ sym ((text_eq_iff j k).0 same), hs)
  | inr other ↦ rw other (h, insert-AreNamed k t m e hs)
]

lookup-AreNamed :
    (k : Bytes) (t : Talker) (m : Dict Talker) → lookup k m ≡ some t → AreNamed m → t.addr ≡ k
unfolding lookup
lookup-AreNamed k t [] e h = cc
lookup-AreNamed k t ((j, s) ∷ m) e (h, hs) = ground (arith, text_eq_iff j k, lookup-AreNamed k t m)

talk-AreNamed : (len : ℕ) (addr : Bytes) (m : Dict Talker) → AreNamed m → AreNamed (talk len addr m)
unfolding talk
talk-AreNamed len addr m h = elim (Bool-cases (is_empty addr)) [
  | inl none_given ↦ rw none_given h
  | inr given ↦ rw given (elim (Option-cases (lookup addr m)) [
    | inl new ↦ rw new (insert-AreNamed addr _ m refl h)
    | inr (t, old) ↦ rw old (insert-AreNamed addr _ m (lookup-AreNamed addr t m old h) h)
  ])
]

count_frame-IsConsistent :
    (f : Frame) (e : Statistics) (timeline : List Bucket)
    → IsConsistent e
    → IsKept timeline
    → IsConsistent (count_frame f e timeline)
count_frame-IsConsistent f e timeline v kept = record {
  by_protocol = omega (arith, v.by_protocol, sum_counts-count_one f.protocol e.protocols);
  by_severity =
      omega (arith, v.by_severity, sum_counts-count_one (severity_name f.severity) e.severity);
  named =
      talk-AreNamed f.len (get f.meta (text "ip_dst"))
        (talk f.len (get f.meta (text "ip_src")) e.talkers)
        (talk-AreNamed f.len (get f.meta (text "ip_src")) e.talkers v.named);
  kept = kept;
}

-- The counters of a consistent state agree: the packets by protocol and by severity each add up
-- to all packets (modulo 2 ^ 64, where counters wrap), every talker stands under its address, and
-- the timeline is kept. Observing a frame never panics there, and keeps the state consistent.
pub observe-IsConsistent :
    (now : Instant) (e : Statistics) (f : Frame)
    → IsConsistent e
    → (e' : Statistics) × (observe now e f ≡ some e') × IsConsistent e'
unfolding observe
observe-IsConsistent now e f v =
    let (e', done, c) = observe-IsCounted now e f v.kept in
    (e', done, subst IsConsistent (sym c.result) (count_frame-IsConsistent f e _ v c.kept))

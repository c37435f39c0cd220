-- ===== src/Security/Scans.antt =====
-- The alerts of the scan heuristic of internal/security/analyzer.go.
use flux_tap.Decode.Frame.{Frame}
use flux_tap.Prelude.Words.{Bytes}
use flux_tap.Prelude.{
  ℕ, ◌+◌, ◌≡◌, true, ◌&&◌, List, [], ◌∷◌, arith, ltb, leb, ◌==◌, if◌then◌else◌, length, All,
}
use flux_tap.Security.{Analyzer, bump, add, check_scan, is_syn, source}
use flux_tap.Text.Dict.{Dict, lookup, lookup-insert, tally}
use flux_tap.Text.{text_eq_iff}

-- The count of a source goes up by one, also where the map is emptied.
tally-bump : (m : Dict ℕ) (k : Bytes) → tally (bump m k) k ≡ tally m k + 1
unfolding tally bump lookup
tally-bump m k = ground (arith, lookup-insert k k (tally m k + 1) m, text_eq_iff k k)

-- A frame that the scan heuristic counts for `src`.
abbrev pub IsSynOf : Bytes → Frame → Type 0
IsSynOf src f = (is_syn f ≡ true) × (source f ≡ src)

-- The heuristic over a run of frames, each by itself: the analyzer, and the alerts raised.
abbrev pub scan_run : Analyzer → List Frame → Analyzer × ℕ
scan_run a [] = (a, 0)
scan_run a (f ∷ fs) =
    let s = check_scan (record { analyzer = a; frame = f; raised = [] }) in
    let (a', n) = scan_run s.analyzer fs in (a', length s.raised + n)

check_scan-IsSynOf :
    (a : Analyzer) (f : Frame) (src : Bytes)
    → IsSynOf src f
    → let s = check_scan (record { analyzer = a; frame = f; raised = [] }) in
      (tally s.analyzer.syn_count src ≡ tally a.syn_count src + 1)
      × (length s.raised ≡ (if tally a.syn_count src == 29 then 1 else 0))
unfolding check_scan add
check_scan-IsSynOf a f src (syn, from) = rw (← from) (
  ground (arith, tally-bump a.syn_count (source f)),
  ground (arith, tally-bump a.syn_count (source f)),
)

-- A run of SYN frames of one source raises one alert if it takes the count of the source from
-- below 30 to 30 or more, and none otherwise; the count goes up by the length of the run. Between
-- these frames the heuristic sees no others.
pub scan_run-IsSynOf :
    (a : Analyzer) (fs : List Frame) (src : Bytes)
    → All (IsSynOf src) fs
    → (tally (scan_run a fs).0.syn_count src ≡ tally a.syn_count src + length fs)
      × ((scan_run a fs).1 ≡ (
          if ltb (tally a.syn_count src) 30 && leb 30 (tally a.syn_count src + length fs)
          then 1
          else 0))
scan_run-IsSynOf a [] src h = (omega arith, ground arith)
scan_run-IsSynOf a (f ∷ fs) src (h, hs) =
    let s = check_scan (record { analyzer = a; frame = f; raised = [] }) in
    let step = check_scan-IsSynOf a f src h in
    let rest = scan_run-IsSynOf s.analyzer fs src hs in
    (omega (arith, step.0, rest.0), ground (arith, step, rest.1))

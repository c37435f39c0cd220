-- ===== src/Stats.antt =====
-- internal/stats/engine.go: the counters of the dashboard. The locks are not modelled, the time
-- that the code asks for is an argument, and numbers of type float64 are a parameter.
pub mod Consistent
pub mod Talkers
pub mod Timeline
use flux_tap.Decode.Frame.{Frame}
use flux_tap.Pcap.Stream.{Instant, since_epoch, before_epoch, second}
use flux_tap.Prelude.Panics.{◌>>=◌}
use flux_tap.Prelude.Words.{Bytes}
use flux_tap.Prelude.{
  ℕ, ◌+◌, ◌-◌, ◌/◌, ◌%◌, ◌^◌, Bool, false, Option, none, some, List, [], ◌∷◌, ◌++◌, ltb, ◌==◌,
  if◌then◌else◌, length, drop,
}
use flux_tap.Ranking.{rank, cut_to}
use flux_tap.Text.Dict.{Dict, lookup, insert, get, tally}
use flux_tap.Text.{text, is_empty}

-- `Unix()`: the seconds from the epoch, rounded down; `before n` is n + 1 of them before it.
pub data Second : Type 0 where
  since before : ℕ → Second

unfoldable pub unix_second : Instant → Second
unix_second (since_epoch n) = since (n / second)
unix_second (before_epoch n) = before (n / second)

unfoldable pub same_second : Second → Second → Bool
same_second (since m) (since n) = m == n
same_second (before m) (before n) = m == n
same_second _ _ = false

pub record Talker : Type 0 where
  pub addr : Bytes
  pub packets : ℕ
  pub byte_total : ℕ

pub record Bucket : Type 0 where
  pub t : Second
  pub packets : ℕ
  pub byte_total : ℕ

-- The type `Engine` of the package.
pub record Statistics : Type 0 where
  pub packets : ℕ
  pub byte_total : ℕ
  pub started : Instant
  pub protocols : Dict ℕ
  pub talkers : Dict Talker
  pub ports : Dict ℕ
  pub severity : Dict ℕ
  pub timeline : List Bucket

-- `New`, at the time `now`.
unfoldable pub new_statistics : Instant → Statistics
new_statistics now = record {
  packets = 0;
  byte_total = 0;
  started = now;
  protocols = [];
  talkers = [];
  ports = [];
  severity = [];
  timeline = [];
}

-- `m[k]++` on a map of 64-bit counters.
unfoldable pub count_one : Bytes → Dict ℕ → Dict ℕ
count_one k m = insert k ((tally m k + 1) % 2 ^ 64) m

-- The loop over the source and the destination.
abbrev pub talker_of : Bytes → Option Talker → Talker
talker_of addr none = record { addr = addr; packets = 0; byte_total = 0 }
talker_of addr (some t) = t

unfoldable pub talk : ℕ → Bytes → Dict Talker → Dict Talker
talk len addr m =
    let t = talker_of addr (lookup addr m) in
    let counted = record t {
      packets = (t.packets + 1) % 2 ^ 64;
      byte_total = (t.byte_total + len) % 2 ^ 64;
    } in
    if is_empty addr then m else insert addr counted m

-- The last 600 buckets.
unfoldable pub newest_buckets : List Bucket → List Bucket
newest_buckets bs = if ltb 600 (length bs) then drop (length bs - 600) bs else bs

-- A new bucket if the last one is of another second.
unfoldable pub is_last : Second → List Bucket → Bool
is_last sec [] = false
is_last sec (b ∷ []) = same_second b.t sec
is_last sec (b ∷ c ∷ bs) = is_last sec (c ∷ bs)

unfoldable pub open_bucket : Second → List Bucket → List Bucket
open_bucket sec bs =
    if is_last sec bs
    then bs
    else newest_buckets (bs ++ record { t = sec; packets = 0; byte_total = 0 } ∷ [])

-- `e.timeline[len(e.timeline)-1]`, which panics on an empty one.
unfoldable pub count_last : ℕ → List Bucket → Option (List Bucket)
count_last len [] = none
count_last len (b ∷ []) = some (
    record b { packets = (b.packets + 1) % 2 ^ 64; byte_total = (b.byte_total + len) % 2 ^ 64 }
    ∷ [])
count_last len (b ∷ c ∷ bs) = do rest ← count_last len (c ∷ bs); some (b ∷ rest)

-- The counter of a destination port, if the frame has one.
unfoldable pub count_port : Bytes → Dict ℕ → Dict ℕ
count_port p m = if is_empty p then m else count_one p m

unfoldable pub severity_name : Bytes → Bytes
severity_name s = if is_empty s then text "info" else s

-- The second that a frame is counted in, at the time `now`.
unfoldable pub second_of : Instant → Frame → Second
second_of now f =
    let sec = unix_second f.timestamp in if same_second sec (since 0) then unix_second now else sec

-- What `Observe` counts, with the timeline that it leaves.
abbrev pub count_frame : Frame → Statistics → List Bucket → Statistics
count_frame f e timeline = record {
  packets = (e.packets + 1) % 2 ^ 64;
  byte_total = (e.byte_total + f.len) % 2 ^ 64;
  started = e.started;
  protocols = count_one f.protocol e.protocols;
  talkers =
      talk f.len (get f.meta (text "ip_dst")) (talk f.len (get f.meta (text "ip_src")) e.talkers);
  ports = count_port (get f.meta (text "dport")) e.ports;
  severity = count_one (severity_name f.severity) e.severity;
  timeline = timeline;
}

-- `Observe`, at the time `now`; `none` is a panic.
unfoldable pub observe : Instant → Statistics → Frame → Option Statistics
observe now e f = do
  timeline ← count_last f.len (open_bucket (second_of now f) e.timeline)
  some (count_frame f e timeline)

-- `Reset`, at the time `now`.
unfoldable pub reset : Instant → Statistics → Statistics
unfolding new_statistics
reset now e = new_statistics now

-- What `Snapshot` asks of the type float64.
pub record Floats (R : Type 0) : Type 0 where
  pub from_count : ℕ → R
  pub divide : R → R → R
  pub multiply : R → R → R
  pub less : R → R → Bool
  pub millisecond : R

pub record Snapshot (R : Type 0) : Type 0 where
  pub packets : ℕ
  pub byte_total : ℕ
  pub pps : R
  pub bps : R
  pub protocols : Dict ℕ
  pub top_talkers : List Talker
  pub ports : Dict ℕ
  pub severity : Dict ℕ
  pub started_at : Instant
  pub elapsed_sec : R
  pub avg_packet_size : R
  pub timeline : List Bucket

-- The talkers in the order in which the loop over the map gives them, the 15 largest first.
unfoldable pub top_talkers : List Talker → List Talker
top_talkers all = cut_to 15 (rank (λ t. t.byte_total) all)

module _ {R : Type 0} (real : Floats R) where
  -- `Snapshot`, `elapsed` seconds after the start.
  unfoldable pub snapshot : R → List Talker → Statistics → Snapshot R
  snapshot elapsed all e =
      let seconds = if real.less elapsed real.millisecond then real.millisecond else elapsed in
      let packets = real.from_count e.packets in
      let bytes = real.from_count e.byte_total in
      record {
        packets = e.packets;
        byte_total = e.byte_total;
        pps = real.divide packets seconds;
        bps = real.divide (real.multiply bytes (real.from_count 8)) seconds;
        protocols = e.protocols;
        top_talkers = top_talkers all;
        ports = e.ports;
        severity = e.severity;
        started_at = e.started;
        elapsed_sec = seconds;
        avg_packet_size = if ltb 0 e.packets then real.divide bytes packets else real.from_count 0;
        timeline = e.timeline;
      }

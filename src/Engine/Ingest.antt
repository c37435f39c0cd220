-- ===== src/Engine/Ingest.antt =====
-- `ingest` and the loop of `Run` in internal/engine/engine.go, which take a packet through the parts
-- of the program. The notifications are what is handed to Telegram, to the webhook and to the hub as
-- alerts, in order.
pub mod Sound
use flux_tap.Decode.Dissector.{Dissector, new_dissector, dissect}
use flux_tap.Decode.Frame.{Frame}
use flux_tap.Decode.Tls.{Md5}
use flux_tap.Engine.{Engine, slim, queue_ws, store}
use flux_tap.Filter.Match.{match_frame}
use flux_tap.Filter.{Folding, Numbers}
use flux_tap.Flow.{Tracker, new_tracker}
use flux_tap.Pcap.Reader.{Packet}
use flux_tap.Pcap.Stream.{Instant, is_zero}
use flux_tap.Pcap.Writer.{Writer, write_packet}
use flux_tap.Prelude.Panics.{◌>>=◌}
use flux_tap.Prelude.Words.{Bytes}
use flux_tap.Prelude.{
  ℕ, ◌+◌, ◌%◌, ◌^◌, Bool, true, false, ◌&&◌, Option, none, some, List, [], ◌∷◌, ◌++◌, ltb, leb,
  if◌then◌else◌,
}
use flux_tap.Security.{Analyzer, Finding, new_analyzer}
use flux_tap.Session.{Player, new_player}
use flux_tap.Stats.{Statistics, new_statistics}

-- The whole of `Engine`: the parts of its own in `engine`, and those of the other packages.
pub record Tap : Type 0 where
  pub filter : Bytes
  pub pkt_no : ℕ
  pub dissector : Dissector
  pub writer : Option Writer
  pub security : Analyzer
  pub notified : List Finding
  pub stats : Statistics
  pub flows : Tracker
  pub sessions : Player
  pub engine : Engine

-- `New`, for the filter and the choice of the hex pane in its `Config`, and the time.
unfoldable pub new_tap : Bytes → Bool → Instant → Tap
new_tap filter include_hex now = record {
  filter = filter;
  pkt_no = 0;
  dissector = record new_dissector { include_hex = include_hex };
  writer = none;
  security = new_analyzer;
  notified = [];
  stats = new_statistics now;
  flows = new_tracker 10000;
  sessions = new_player 3000;
  engine = record {
    frames = [];
    max_store = 50000;
    has_hub = false;
    ws_pending = [];
    ws_dropped = 0;
    ws_sent = 0;
    broadcast = [];
  };
}

-- `SetHub`.
unfoldable pub set_hub : Tap → Tap
set_hub t = record t { engine = record t.engine { has_hub = true } }

-- What `time.Now()` gives where a packet has no time, to the writer, and to the statistics.
pub record Clock : Type 0 where
  pub arrival : Instant
  pub recorded : Instant
  pub counted : Instant

module _ (md5 : Md5) (fold : Folding) {R : Type 0} (real : Numbers R)
    (write : Bytes → Bytes → Bytes × Bool) where
  -- `_ = e.pcapWriter.WritePacket(ts, pkt.Data)`.
  abbrev record_packet : Instant → Instant → Bytes → Option Writer → Option Writer
  record_packet now ts packet none = none
  record_packet now ts packet (some w) = some (write_packet write now ts packet w).0

  -- What a frame that the filter lets through is given to.
  unfoldable pub pass_on : Instant → Frame → Tap → Option Tap
  pass_on counted f t = do
    stats ← flux_tap.Stats.observe counted t.stats f
    flows ← flux_tap.Flow.observe t.flows f
    sessions ← flux_tap.Session.observe t.sessions f
    some (record t {
      stats = stats;
      flows = flows;
      sessions = sessions;
      engine = queue_ws (slim f) (store f t.engine);
    })

  -- `ingest`; `none` is a panic.
  unfoldable pub ingest : Clock → Packet → Tap → Option Tap
  unfolding pass_on
  ingest clock p t =
      let no = (t.pkt_no + 1) % 2 ^ 64 in
      let ts = if is_zero p.timestamp then clock.arrival else p.timestamp in
      do
        f ← dissect md5 t.dissector no ts p.cap_len p.orig_len p.link_type p.contents
        let seen = flux_tap.Security.observe t.security f
        let t' : Tap = record t {
          pkt_no = no;
          writer = record_packet clock.recorded ts p.contents t.writer;
          security = seen.analyzer;
          notified = t.notified ++ seen.raised;
        }
        matched ← match_frame fold real seen.frame t.filter
        if matched then pass_on clock.counted seen.frame t' else some t'

  -- The loop of `Run` over the packets that come until the end of the source; it also ends once
  -- `max` packets were taken, if that is not 0. What it broadcasts every half second and its delay
  -- between packets change no state.
  unfoldable pub run_loop : ℕ → ℕ → List (Clock × Packet) → Tap → Option Tap
  unfolding ingest
  run_loop max matched [] t = some t
  run_loop max matched ((clock, p) ∷ ps) t = do
    t' ← ingest clock p t
    if ltb 0 max && leb max (matched + 1) then some t' else run_loop max (matched + 1) ps t'

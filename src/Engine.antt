-- ===== src/Engine.antt =====
-- internal/engine/engine.go: the stored frames and the queue of rows for the dashboard. The locks
-- are not modelled: calls happen one after the other, and a flush is one step.
pub mod Control
pub mod Ingest
pub mod Queue
pub mod Reports
pub mod Status
pub mod Store
use flux_tap.Decode.Frame.{Frame}
use flux_tap.Pcap.Stream.{Instant}
use flux_tap.Prelude.Words.{Bytes}
use flux_tap.Prelude.{
  ℕ, ◌+◌, ◌-◌, ◌/◌, ◌%◌, ◌^◌, Bool, Option, none, some, List, [], ◌∷◌, ◌++◌, leb, ltb, ◌==◌,
  if◌then◌else◌, length, drop,
}
use flux_tap.Text.Dict.{Dict}

-- What `slim` keeps of a frame.
pub record Row : Type 0 where
  pub number : ℕ
  pub timestamp : Instant
  pub src : Bytes
  pub dst : Bytes
  pub protocol : Bytes
  pub info : Bytes
  pub len : ℕ
  pub severity : Bytes
  pub tags : List Bytes
  pub meta : Dict Bytes
  pub flow_key : Bytes

abbrev pub slim : Frame → Row
slim f = record {
  number = f.number;
  timestamp = f.timestamp;
  src = f.src;
  dst = f.dst;
  protocol = f.protocol;
  info = f.info;
  len = f.len;
  severity = f.severity;
  tags = f.tags;
  meta = f.meta;
  flow_key = f.flow_key;
}

-- The part of `Engine` that these operations touch; `broadcast` is what the hub was given as
-- "packets", oldest first.
pub record Engine : Type 0 where
  pub frames : List Frame
  pub max_store : ℕ
  pub has_hub : Bool
  pub ws_pending : List Row
  pub ws_dropped : ℕ
  pub ws_sent : ℕ
  pub broadcast : List (List Row)

abbrev pub max_pending : ℕ
max_pending = 36

-- `queueWS`.
unfoldable pub queue_ws : Row → Engine → Engine
queue_ws row e =
    if e.has_hub
    then (let pending = e.ws_pending ++ row ∷ [] in
        let excess = length pending - max_pending in
        if ltb max_pending (length pending)
        then record e {
          ws_pending = drop excess pending;
          ws_dropped = (e.ws_dropped + excess) % 2 ^ 64;
        }
        else record e { ws_pending = pending })
    else e

unfoldable pub send_batch : List Row → Engine → Engine
send_batch [] e = e
send_batch (row ∷ rows) e = record e {
  ws_sent = (e.ws_sent + length (row ∷ rows)) % 2 ^ 64;
  broadcast = e.broadcast ++ (row ∷ rows) ∷ [];
}

-- `flushWS`.
unfoldable pub flush_ws : Engine → Engine
unfolding send_batch
flush_ws e = if e.has_hub then send_batch e.ws_pending (record e { ws_pending = [] }) else e

-- `store`.
unfoldable pub store : Frame → Engine → Engine
store f e =
    let kept =
      if leb e.max_store (length e.frames) then drop (length e.frames / 4) e.frames else e.frames in
    record e { frames = kept ++ f ∷ [] }

-- The loop of `Frame`.
unfoldable pub find_frame : ℕ → List Frame → Option Frame
find_frame number [] = none
find_frame number (f ∷ fs) = if f.number == number then some f else find_frame number fs

abbrev pub frame : ℕ → Engine → Option Frame
frame number e = find_frame number e.frames

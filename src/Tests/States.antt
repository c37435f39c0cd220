-- ===== src/Tests/States.antt =====
-- The table of flows, the analyzer and the engine on a few frames.
use flux_tap.Decode.Frame.{Frame}
use flux_tap.Engine.Queue.{
  Event, queue, flush, run, total, queued, newest, IsServing, queue_all, run-total, IsFlushed,
  flush_ws-queue_all,
}
use flux_tap.Engine.Store.{store-frame}
use flux_tap.Engine.{Row, Engine, slim, flush_ws, store, frame}
use flux_tap.Flow.Observed.{current, is_evicted, observe-lookup}
use flux_tap.Flow.Table.{IsValid, observe-IsValid}
use flux_tap.Flow.{Tracker, open_conversation, count_frame, make_room, is_ignored, observe}
use flux_tap.Pcap.Stream.{since_epoch}
use flux_tap.Prelude.Words.{Bytes}
use flux_tap.Prelude.{
  ℕ, ◌+◌, ◌%◌, ◌^◌, ◌≤◌, ◌≡◌, refl, true, false, ◌&&◌, none, some, List, [], ◌∷◌, arith, leb, ltb,
  All, if◌then◌else◌, length,
}
use flux_tap.Security.Limits.{IsWithin, observe-IsWithin}
use flux_tap.Security.Scans.{IsSynOf, scan_run, scan_run-IsSynOf}
use flux_tap.Security.{Analyzer, new_analyzer}
use flux_tap.Text.Dict.{lookup, insert, delete, get, tally}
use flux_tap.Text.{text, text_eq, contains, has_prefix}

-- A SYN of a flow.
abbrev syn : ℕ → Bytes → Frame
syn number key = record {
  number = number;
  timestamp = since_epoch 0;
  cap_len = 60;
  orig_len = 60;
  len = 60;
  src = text "10.0.0.1";
  dst = text "10.0.0.2";
  protocol = text "TCP";
  info = [];
  layers = [];
  hex_dump = [];
  meta = (text "ip_src", text "10.0.0.1") ∷ (text "tcp_flags", text "SYN") ∷ [];
  flow_key = key;
  severity = [];
  tags = [];
}

-- A table of one flow, which is full.
abbrev one_flow : Tracker
one_flow = record {
  flows = (text "a", open_conversation (syn 1 (text "a"))) ∷ [];
  order = text "a" ∷ [];
  limit = 1;
}

one_flow-IsValid : IsValid one_flow
unfolding lookup
one_flow-IsValid = record {
  ordered = refl;
  distinct = (refl, tt);
  bounded = omega arith;
  positive = omega arith;
}

observe-IsValid_example :
    (t' : Tracker) × (observe one_flow (syn 2 (text "b")) ≡ some t') × IsValid t' × (t'.limit ≡ 1)
observe-IsValid_example = observe-IsValid one_flow (syn 2 (text "b")) one_flow-IsValid

one_flow-observe :
    (is_ignored (syn 2 (text "b")) ≡ false)
    × (observe one_flow (syn 2 (text "b"))
        ≡ some (record {
          flows =
              (text "b", count_frame (syn 2 (text "b")) (open_conversation (syn 2 (text "b"))))
              ∷ [];
          order = text "b" ∷ [];
          limit = 1;
        }))
unfolding observe make_room lookup insert delete text text_eq
one_flow-observe = (refl, refl)

-- The second flow takes the place of the first.
observe-lookup_example : none ≡ (
    if text_eq (text "b") (text "a")
    then some (count_frame (syn 2 (text "b")) (current one_flow (syn 2 (text "b"))))
    else if is_evicted one_flow (syn 2 (text "b")) (text "a")
    then none
    else lookup (text "a") one_flow.flows)
unfolding lookup text text_eq
observe-lookup_example =
    observe-lookup one_flow
      (record {
        flows =
            (text "b", count_frame (syn 2 (text "b")) (open_conversation (syn 2 (text "b")))) ∷ [];
        order = text "b" ∷ [];
        limit = 1;
      })
      (syn 2 (text "b")) (text "a") one_flow-IsValid one_flow-observe.0 one_flow-observe.1

new_analyzer-IsWithin : IsWithin new_analyzer
new_analyzer-IsWithin = record {
  few = omega arith;
  positive = omega arith;
  syn_sources = omega arith;
  dns_sources = omega arith;
}

observe-IsWithin_example :
    IsWithin (flux_tap.Security.observe new_analyzer (syn 1 (text "a"))).analyzer
observe-IsWithin_example = observe-IsWithin new_analyzer (syn 1 (text "a")) new_analyzer-IsWithin

syn-IsSynOf : All (IsSynOf (text "10.0.0.1")) (syn 1 (text "a") ∷ syn 2 (text "b") ∷ [])
unfolding text text_eq get lookup contains has_prefix
syn-IsSynOf = ((refl, refl), ((refl, refl), tt))

-- An analyzer that has counted 28 SYNs of the source.
abbrev nearly : Analyzer
nearly = record new_analyzer { syn_count = (text "10.0.0.1", 28) ∷ [] }

nearly-tally : tally nearly.syn_count (text "10.0.0.1") ≡ 28
unfolding tally lookup text text_eq
nearly-tally = refl

scan_run-IsSynOf_example :
    (tally
        (scan_run nearly (syn 1 (text "a") ∷ syn 2 (text "b") ∷ [])).0.syn_count
        (text "10.0.0.1")
      ≡ tally nearly.syn_count (text "10.0.0.1") + 2)
    × ((scan_run nearly (syn 1 (text "a") ∷ syn 2 (text "b") ∷ [])).1 ≡ (
        if ltb (tally nearly.syn_count (text "10.0.0.1")) 30
          && leb 30 (tally nearly.syn_count (text "10.0.0.1") + 2)
        then 1
        else 0))
scan_run-IsSynOf_example =
    scan_run-IsSynOf nearly (syn 1 (text "a") ∷ syn 2 (text "b") ∷ []) (text "10.0.0.1") syn-IsSynOf

-- A full store of 4 frames.
abbrev engine : Engine
engine = record {
  frames = syn 1 (text "a") ∷ syn 2 (text "a") ∷ syn 3 (text "a") ∷ syn 4 (text "a") ∷ [];
  max_store = 4;
  has_hub = true;
  ws_pending = [];
  ws_dropped = 0;
  ws_sent = 0;
  broadcast = [];
}

store-frame_example :
    (frame 5 (store (syn 5 (text "a")) engine) ≡ some (syn 5 (text "a")))
    × (length (store (syn 5 (text "a")) engine).frames ≤ 4)
store-frame_example =
    store-frame (syn 5 (text "a")) engine (omega arith) (omega arith) (ground arith)

engine-IsServing : IsServing engine
engine-IsServing = record { hub = refl; bounded = omega arith }

abbrev events : List Event
events = queue (slim (syn 1 (text "a"))) ∷ flush ∷ queue (slim (syn 2 (text "a"))) ∷ []

run-total_example :
    IsServing (run events engine)
    × (total (run events engine) ≡ (total engine + queued events) % 2 ^ 64)
run-total_example = run-total events engine engine-IsServing

abbrev rows : List Row
rows = slim (syn 1 (text "a")) ∷ slim (syn 2 (text "a")) ∷ []

flush_ws-queue_all_example : IsFlushed (newest 36 rows) engine (flush_ws (queue_all rows engine))
flush_ws-queue_all_example = flush_ws-queue_all rows engine engine-IsServing

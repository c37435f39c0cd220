-- ===== src/Tests/Counters.antt =====
-- The statistics and the player of sessions on a few frames.
use flux_tap.Decode.Frame.{Frame}
use flux_tap.Pcap.Stream.{since_epoch, second}
use flux_tap.Prelude.Words.{Bytes}
use flux_tap.Prelude.{ℕ, ◌*◌, ◌≡◌, refl, false, some, [], ◌∷◌}
use flux_tap.Session.Table.{
  IsPlayable, IsObserved, new_player-IsPlayable, observe-IsPlayable, observe-IsObserved,
}
use flux_tap.Session.{Player, new_player}
use flux_tap.Session
use flux_tap.Stats.Consistent.{IsConsistent, new_statistics-IsConsistent, observe-IsConsistent}
use flux_tap.Stats.Timeline.{IsCounted, observe-IsCounted}
use flux_tap.Stats.{Statistics, new_statistics, observe}
use flux_tap.Text.Dict.{lookup, get}
use flux_tap.Text.{text, text_eq}

-- A frame of a flow.
abbrev pub from : ℕ → Bytes → Frame
from number key = record {
  number = number;
  timestamp = since_epoch (10 * second);
  cap_len = 90;
  orig_len = 90;
  len = 90;
  src = text "10.0.0.1";
  dst = text "10.0.0.2";
  protocol = text "UDP";
  info = [];
  layers = [];
  hex_dump = [];
  meta =
      (text "ip_src", text "10.0.0.1")
      ∷ (text "ip_dst", text "10.0.0.2")
      ∷ (text "ip_proto", text "UDP")
      ∷ [];
  flow_key = key;
  severity = [];
  tags = [];
}

abbrev start : Statistics
start = new_statistics (since_epoch 0)

start-IsConsistent : IsConsistent start
start-IsConsistent = new_statistics-IsConsistent (since_epoch 0)

observe-IsCounted_example :
    (e' : Statistics) × (observe (since_epoch 0) start (from 1 (text "a")) ≡ some e')
    × IsCounted (since_epoch 0) start (from 1 (text "a")) e'
observe-IsCounted_example =
    observe-IsCounted (since_epoch 0) start (from 1 (text "a")) start-IsConsistent.kept

observe-IsConsistent_example :
    (e' : Statistics) × (observe (since_epoch 0) start (from 1 (text "a")) ≡ some e')
    × IsConsistent e'
observe-IsConsistent_example =
    observe-IsConsistent (since_epoch 0) start (from 1 (text "a")) start-IsConsistent

abbrev player : Player
player = new_player 1

observe-IsPlayable_example :
    (p' : Player) × (flux_tap.Session.observe player (from 1 (text "a")) ≡ some p') × IsPlayable p'
observe-IsPlayable_example = observe-IsPlayable player (from 1 (text "a")) (new_player-IsPlayable 1)

seen : flux_tap.Session.is_ignored (from 1 (text "a")) ≡ false
unfolding flux_tap.Session.is_ignored text text_eq get lookup
seen = refl

observe-IsObserved_example :
    (p' : Player) × (flux_tap.Session.observe player (from 1 (text "a")) ≡ some p')
    × IsObserved player (from 1 (text "a")) p'
observe-IsObserved_example =
    observe-IsObserved player (from 1 (text "a")) (new_player-IsPlayable 1).table seen

-- ===== src/Flow.antt =====
-- internal/flow/tracker.go: the table of conversations. The lock is not modelled: calls happen one
-- after the other. A map is a `Dict`, and what it points to is its value.
pub mod Table
pub mod Observed
pub mod Tops
use flux_tap.Decode.Frame.{Frame}
use flux_tap.Pcap.Stream.{Instant}
use flux_tap.Prelude.Panics.{◌>>=◌}
use flux_tap.Prelude.Words.{Bytes}
use flux_tap.Prelude.{
  ℕ, ◌+◌, ◌%◌, ◌^◌, Bool, false, ◌||◌, Option, none, some, List, [], ◌∷◌, ◌++◌, leb, ◌==◌,
  if◌then◌else◌, length,
}
use flux_tap.Ranking.{rank, cut_to}
use flux_tap.Text.Dict.{Dict, lookup, insert, delete, get}
use flux_tap.Text.{text, text_eq, is_empty, join}

pub record Conversation : Type 0 where
  pub key : Bytes
  pub protocol : Bytes
  pub src : Bytes
  pub dst : Bytes
  pub sport : Bytes
  pub dport : Bytes
  pub packets : ℕ
  pub byte_total : ℕ
  pub first_seen : Instant
  pub last_seen : Option Instant
  pub tcp_flags : Bytes
  pub app_protocol : Bytes
  pub sni : Bytes
  pub ja3 : Bytes

pub record Tracker : Type 0 where
  pub flows : Dict Conversation
  pub order : List Bytes
  pub limit : ℕ

-- `NewTracker`; a limit that is not positive is 0 here.
unfoldable pub new_tracker : ℕ → Tracker
new_tracker limit = record { flows = []; order = []; limit = if leb limit 0 then 5000 else limit }

-- `splitFlags`: the parts between commas that are not empty, after the part read so far.
add_part : Bytes → List Bytes → List Bytes
add_part [] parts = parts
add_part (c ∷ s) parts = (c ∷ s) ∷ parts

split_onto : Bytes → Bytes → List Bytes
unfolding add_part
split_onto part [] = add_part part []
split_onto part (c ∷ s) =
    let here = add_part part (split_onto [] s) in
    let on = split_onto (part ++ c ∷ []) s in if c == b',' then here else on

unfoldable pub split_flags : Bytes → List Bytes
unfolding split_onto
split_flags s = split_onto [] s

unfoldable pub is_part : Bytes → List Bytes → Bool
is_part n [] = false
is_part n (p ∷ ps) = text_eq p n || is_part n ps

-- The names of a list that are set.
unfoldable pub set_names : List Bytes → List Bytes → List Bytes
set_names parts [] = []
set_names parts (n ∷ ns) = if is_part n parts then n ∷ set_names parts ns else set_names parts ns

abbrev pub flag_order : List Bytes
flag_order =
    text "SYN"
    ∷ text "ACK"
    ∷ text "PSH"
    ∷ text "FIN"
    ∷ text "RST"
    ∷ text "URG"
    ∷ text "ECE"
    ∷ text "CWR"
    ∷ []

unfoldable pub merge_flags : Bytes → Bytes → Bytes
merge_flags a b = join (set_names (split_flags a ++ split_flags b) flag_order) (text ",")

-- `if v != "" { old = v }`.
abbrev pub or_old : Bytes → Bytes → Bytes
or_old v old = if is_empty v then old else v

is_app_protocol : Bytes → Bool
is_app_protocol p =
    text_eq p (text "TLS")
    || text_eq p (text "HTTP")
    || text_eq p (text "HTTP/2")
    || text_eq p (text "DNS")
    || text_eq p (text "QUIC")
    || text_eq p (text "SSH")

-- The conversation that a first frame opens.
unfoldable pub open_conversation : Frame → Conversation
open_conversation f = record {
  key = f.flow_key;
  protocol = get f.meta (text "ip_proto");
  src = or_old (get f.meta (text "ip_src")) f.src;
  dst = or_old (get f.meta (text "ip_dst")) f.dst;
  sport = get f.meta (text "sport");
  dport = get f.meta (text "dport");
  packets = 0;
  byte_total = 0;
  first_seen = f.timestamp;
  last_seen = none;
  tcp_flags = [];
  app_protocol = [];
  sni = [];
  ja3 = [];
}

-- What every frame adds to its conversation.
unfoldable pub count_frame : Frame → Conversation → Conversation
unfolding is_app_protocol
count_frame f c =
    let flags = get f.meta (text "tcp_flags") in
    record c {
      packets = (c.packets + 1) % 2 ^ 64;
      byte_total = (c.byte_total + f.len) % 2 ^ 64;
      last_seen = some f.timestamp;
      tcp_flags = if is_empty flags then c.tcp_flags else merge_flags c.tcp_flags flags;
      app_protocol = if is_app_protocol f.protocol then f.protocol else c.app_protocol;
      sni = or_old (get f.meta (text "sni")) c.sni;
      ja3 = or_old (get f.meta (text "ja3")) c.ja3;
    }

-- `old := t.order[0]; t.order = t.order[1:]; delete(t.flows, old)`, which panics on an empty order.
abbrev drop_first : Tracker → List Bytes → Option Tracker
drop_first t [] = none
drop_first t (old ∷ rest) = some (record t { flows = delete old t.flows; order = rest })

unfoldable pub make_room : Tracker → Option Tracker
make_room t = if leb t.limit (length t.flows) then drop_first t t.order else some t

abbrev observe_in : Tracker → Frame → Option Conversation → Option Tracker
observe_in t f (some c) = some (record t { flows = insert f.flow_key (count_frame f c) t.flows })
observe_in t f none = do
  t' ← make_room t
  some (record t' {
    flows = insert f.flow_key (count_frame f (open_conversation f)) t'.flows;
    order = t'.order ++ f.flow_key ∷ [];
  })

abbrev pub is_ignored : Frame → Bool
is_ignored f = is_empty f.flow_key || text_eq f.flow_key (text "|:-:")

-- `Observe`; `none` is a panic.
unfoldable pub observe : Tracker → Frame → Option Tracker
observe t f = if is_ignored f then some t else observe_in t f (lookup f.flow_key t.flows)

-- `Count`.
abbrev pub count : Tracker → ℕ
count t = length t.flows

-- `Top` on the conversations in the order in which the loop over the map gives them, and
-- `Snapshot`.
unfoldable pub top : ℕ → List Conversation → List Conversation
top n all = cut_to n (rank (λ c. c.byte_total) all)

abbrev pub snapshot : List Conversation → List Conversation
snapshot = top 0

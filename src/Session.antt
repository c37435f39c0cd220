-- ===== src/Session.antt =====
-- internal/session/player.go: the conversations as lists of notable events. The lock is not
-- modelled: calls happen one after the other. A map is a `Dict`, and what it points to is its value,
-- which `List` and `Get` copy.
pub mod Beats
pub mod Search
pub mod Table
use flux_tap.Decode.Frame.{Frame}
use flux_tap.Pcap.Stream.{Instant}
use flux_tap.Prelude.Panics.{◌>>=◌}
use flux_tap.Prelude.Words.{Bytes}
use flux_tap.Prelude.{
  ℕ, ◌+◌, ◌%◌, ◌^◌, Bool, ◌&&◌, ◌||◌, not, Option, none, some, List, [], ◌∷◌, ◌++◌, leb, ltb,
  if◌then◌else◌, length,
}
use flux_tap.Ranking.{rank, cut_to}
use flux_tap.Text.Dict.{Dict, lookup, insert, delete, get}
use flux_tap.Text.{text, text_eq, is_empty}
use flux_tap.Session.Beats.{classify}

pub record Event : Type 0 where
  pub at : Instant
  pub frame_no : ℕ
  pub kind : Bytes
  pub summary : Bytes
  pub dir : Bytes

pub record Session : Type 0 where
  pub key : Bytes
  pub protocol : Bytes
  pub app : Bytes
  pub src : Bytes
  pub dst : Bytes
  pub sport : Bytes
  pub dport : Bytes
  pub packets : ℕ
  pub byte_total : ℕ
  pub first_seen : Instant
  pub last_seen : Option Instant
  pub sni : Bytes
  pub ja3 : Bytes
  pub events : List Event
  pub frame_nos : List ℕ
  pub client_bytes : ℕ
  pub server_bytes : ℕ

pub record Player : Type 0 where
  pub by_key : Dict Session
  pub order : List Bytes
  pub limit : ℕ
  pub max_ev : ℕ
  pub max_fr : ℕ

-- `NewPlayer`; a limit that is not positive is 0 here.
unfoldable pub new_player : ℕ → Player
new_player limit = record {
  by_key = [];
  order = [];
  limit = if leb limit 0 then 2000 else limit;
  max_ev = 80;
  max_fr = 200;
}

is_app : Bytes → Bool
is_app p =
    text_eq p (text "TLS")
    || text_eq p (text "HTTP")
    || text_eq p (text "HTTP/2")
    || text_eq p (text "DNS")
    || text_eq p (text "QUIC")
    || text_eq p (text "SSH")
    || text_eq p (text "DHCP")

-- `if v != "" { old = v }`.
abbrev or_old : Bytes → Bytes → Bytes
or_old v old = if is_empty v then old else v

unfoldable pub open_session : Frame → Session
open_session f = record {
  key = f.flow_key;
  protocol = get f.meta (text "ip_proto");
  app = [];
  src = or_old (get f.meta (text "ip_src")) f.src;
  dst = or_old (get f.meta (text "ip_dst")) f.dst;
  sport = get f.meta (text "sport");
  dport = get f.meta (text "dport");
  packets = 0;
  byte_total = 0;
  first_seen = f.timestamp;
  last_seen = none;
  sni = [];
  ja3 = [];
  events = [];
  frame_nos = [];
  client_bytes = 0;
  server_bytes = 0;
}

abbrev from_client : Frame → Session → Bool
from_client f s = text_eq (get f.meta (text "ip_src")) s.src

abbrev from_server : Frame → Session → Bool
from_server f s = not (from_client f s) && text_eq (get f.meta (text "ip_src")) s.dst

abbrev direction : Frame → Session → Bytes
direction f s =
    if from_client f s then text "c2s" else if from_server f s then text "s2c" else text "—"

-- The event of a frame, if it has one and there is room.
unfoldable pub add_event : ℕ → Frame → Session → List Event
unfolding classify
add_event max_ev f s =
    let (kind, summary) = classify f in
    let event : Event = record {
      at = f.timestamp;
      frame_no = f.number;
      kind = kind;
      summary = summary;
      dir = direction f s;
    } in
    if not (is_empty kind) && ltb (length s.events) max_ev then s.events ++ event ∷ [] else s.events

-- What every frame adds to its session.
unfoldable pub count_frame : ℕ → ℕ → Frame → Session → Session
unfolding is_app add_event
count_frame max_ev max_fr f s = record s {
  app = if is_app f.protocol then f.protocol else s.app;
  packets = (s.packets + 1) % 2 ^ 64;
  byte_total = (s.byte_total + f.len) % 2 ^ 64;
  last_seen = some f.timestamp;
  sni = or_old (get f.meta (text "sni")) s.sni;
  ja3 = or_old (get f.meta (text "ja3")) s.ja3;
  events = add_event max_ev f s;
  frame_nos = if ltb (length s.frame_nos) max_fr then s.frame_nos ++ f.number ∷ [] else s.frame_nos;
  client_bytes = if from_client f s then (s.client_bytes + f.len) % 2 ^ 64 else s.client_bytes;
  server_bytes = if from_server f s then (s.server_bytes + f.len) % 2 ^ 64 else s.server_bytes;
}

-- `old := p.order[0]; p.order = p.order[1:]; delete(p.byKey, old)`, which panics on an empty order.
abbrev drop_first : Player → List Bytes → Option Player
drop_first p [] = none
drop_first p (old ∷ rest) = some (record p { by_key = delete old p.by_key; order = rest })

unfoldable pub make_room : Player → Option Player
make_room p = if leb p.limit (length p.by_key) then drop_first p p.order else some p

abbrev observe_in : Player → Frame → Option Session → Option Player
observe_in p f (some s) =
    some (record p { by_key = insert f.flow_key (count_frame p.max_ev p.max_fr f s) p.by_key })
observe_in p f none = do
  p' ← make_room p
  some (record p' {
    by_key = insert f.flow_key (count_frame p'.max_ev p'.max_fr f (open_session f)) p'.by_key;
    order = p'.order ++ f.flow_key ∷ [];
  })

-- A frame with no flow, and one that is neither of IP nor of a known protocol.
unfoldable pub is_ignored : Frame → Bool
is_ignored f =
    let proto = get f.meta (text "ip_proto") in
    is_empty f.flow_key
    || not (text_eq proto (text "TCP"))
      && not (text_eq proto (text "UDP"))
      && not (text_eq f.protocol (text "DNS"))
      && not (text_eq f.protocol (text "TLS"))
      && not (text_eq f.protocol (text "HTTP"))
      && not (text_eq f.protocol (text "HTTP/2"))
      && not (text_eq f.protocol (text "QUIC"))
      && is_empty proto

-- `Observe`; `none` is a panic.
unfoldable pub observe : Player → Frame → Option Player
observe p f = if is_ignored f then some p else observe_in p f (lookup f.flow_key p.by_key)

-- `List` on the sessions in the order in which the loop over the map gives them.
unfoldable pub list : ℕ → List Session → List Session
list n all = cut_to n (rank (λ s. s.byte_total) all)

-- `Get`, whose `nil` is `none`.
unfoldable pub get_session : Bytes → Player → Option Session
get_session key p = lookup key p.by_key

-- `Count`.
abbrev pub count : Player → ℕ
count p = length p.by_key

-- ===== src/Tests/Programs.antt =====
-- The whole program, the story, the guard of the webhook and the dashboard on small inputs.
use flux_tap.Decode.Dns.Names.{read_dns_name}
use flux_tap.Demo.Names.{IsLabel, read_dns_name-dns_query}
use flux_tap.Demo.{dns_query, encode_dns_name}
use flux_tap.Text.Split.{cut, split_n, split}
use flux_tap.Prelude.{All, ◌+◌}
use flux_tap.Engine.Ingest.Sound.{IsSound, new_tap-IsSound, HasBadPacket, run_loop-Runs}
use flux_tap.Engine.Ingest.{Tap, new_tap, set_hub, Clock, run_loop}
use flux_tap.Engine.Queue.{newest}
use flux_tap.Engine.{Engine}
use flux_tap.Notify.{Net}
use flux_tap.Pcap.Reader.{Packet}
use flux_tap.Pcap.Stream.{since_epoch}
use flux_tap.Prelude.Panics.{Runs}
use flux_tap.Prelude.Words.{Bytes}
use flux_tap.Prelude.{
  ℕ, ◌≤◌, ◌≡◌, refl, Bool, true, false, ◌⊎◌, none, some, List, [], ◌∷◌, ◌++◌, arith, map, ◌||◌,
  if◌then◌else◌, length,
}
use flux_tap.Security.{Finding}
use flux_tap.Story.Chapters.{Sorts, IsToldBy, build-IsToldBy}
use flux_tap.Story.{is_earlier, is_before, same_instant, build}
use flux_tap.Tests.Counters.{from}
use flux_tap.Tests.Filters.{ascii, no_numbers, ascii-LowersAscii, expression, expression-IsAscii}
use flux_tap.Tests.Frames.{zero_md5}
use flux_tap.Text.{text, text_eq, is_empty, to_lower, has_prefix}
use flux_tap.Web.Access.{authorize-tokens, check_origin_eq}
use flux_tap.Web.Packets.{Picked, handle_packets-Picked}
use flux_tap.Web.{
  Request, Server, auth_enabled, authorize, bearer, is_allowed, local_origins, plain_origin,
  secure_origin, check_origin, row_of, packet_limit, handle_packets,
}
use mathlib.Core.List.Perm

abbrev pub engine : Engine
engine = record {
  frames = from 1 (text "a") ∷ [];
  max_store = 50000;
  has_hub = true;
  ws_pending = [];
  ws_dropped = 0;
  ws_sent = 0;
  broadcast = [];
}

-- The program before its first packet.
abbrev pub tap : Tap
tap = set_hub (new_tap expression true (since_epoch 0))

pub tap-IsSound : IsSound tap
tap-IsSound = new_tap-IsSound expression true (since_epoch 0) expression-IsAscii

abbrev pub packet : Packet
packet = record {
  no = 1;
  timestamp = since_epoch 5;
  cap_len = 4;
  orig_len = 4;
  contents = 1 ∷ 2 ∷ 3 ∷ 4 ∷ [];
  link_type = 1;
}

abbrev pub clock : Clock
clock = record { arrival = since_epoch 1; recorded = since_epoch 1; counted = since_epoch 1 }

abbrev pub write : Bytes → Bytes → Bytes × Bool
write file xs = (file ++ xs, true)

run_loop-Runs_example :
    Runs
      (HasBadPacket ((clock, packet) ∷ (clock, packet) ∷ []))
      IsSound
      (run_loop zero_md5 ascii no_numbers write 0 0 ((clock, packet) ∷ (clock, packet) ∷ []) tap)
run_loop-Runs_example =
    run_loop-Runs zero_md5 ascii ascii-LowersAscii no_numbers write 0 0
      ((clock, packet) ∷ (clock, packet) ∷ []) tap tap-IsSound

abbrev pub finding : ℕ → Bytes → Finding
finding number rule = record {
  time = since_epoch 7;
  frame_no = number;
  severity = text "warn";
  rule = rule;
  message = [];
  src = [];
  dst = [];
}

-- A sort by insertion.
abbrev insert_by : (Finding → Finding → Bool) → Finding → List Finding → List Finding
insert_by less f [] = f ∷ []
insert_by less f (g ∷ gs) =
    let rest = insert_by less f gs in if less f g then f ∷ g ∷ gs else g ∷ rest

abbrev sort : (Finding → Finding → Bool) → List Finding → List Finding
sort less [] = []
sort less (f ∷ fs) = insert_by less f (sort less fs)

-- The first is later than the second.
abbrev findings : List Finding
findings =
    record (finding 4 (text "weak_tls")) { time = since_epoch 8 }
    ∷ finding 9 (text "port_scan")
    ∷ []

sort-Sorts : Sorts sort is_earlier findings
unfolding is_earlier is_before same_instant
sort-Sorts = (
  Perm.swap (record (finding 4 (text "weak_tls")) { time = since_epoch 8 })
      (finding 9 (text "port_scan")) [],
  ((refl, tt), (tt, tt)),
)

build-IsToldBy_example :
    (sorted : List Finding) × IsToldBy findings sorted (build sort (since_epoch 8) findings [])
build-IsToldBy_example = build-IsToldBy sort (since_epoch 8) findings [] sort-Sorts

-- A network with one name, which has a public address.
abbrev pub net : Net
net = record {
  parse_url = λ s. some (record { scheme = text "https"; host = text "hooks.example"; port = [] });
  lower = to_lower;
  parse_ip = λ s. none;
  lookup_ip = λ s. some ((93 ∷ 184 ∷ 216 ∷ 34 ∷ []) ∷ []);
  is_loopback = λ ip. false;
  is_private = λ ip. false;
  is_link_local_unicast = λ ip. false;
  is_link_local_multicast = λ ip. false;
  is_multicast = λ ip. false;
  is_unspecified = λ ip. false;
  to4 = λ ip. some ip;
  ip_text = λ o. text "93.184.216.34";
  join_host_port = λ host port. host ++ (text ":" ++ port);
}

abbrev pub server : Server
server = record { token = text "s3cret"; no_auth = false }

abbrev pub request : Request
request = record {
  host = text "tap.lan";
  origin = text "http://tap.lan.evil.example";
  authorization = [];
  fluxtap_token = [];
  token = text "s3cret";
}

let_in : (auth_enabled server ≡ true) × (authorize to_lower server request ≡ true)
unfolding auth_enabled authorize text text_eq
let_in = (refl, refl)

authorize-tokens_example :
    (request.token ≡ server.token)
    ⊎ (bearer to_lower request.authorization ≡ server.token)
    ⊎ (request.fluxtap_token ≡ server.token)
authorize-tokens_example = authorize-tokens to_lower server request let_in.0 let_in.1

-- The origin of a longer name is accepted.
other_origin : check_origin request ≡ true
unfolding check_origin is_allowed text text_eq has_prefix
other_origin = refl

check_origin_eq_example : check_origin request ≡ (
    is_empty request.origin
    || is_allowed local_origins request.origin
    || has_prefix request.origin (plain_origin request)
    || has_prefix request.origin (secure_origin request))
check_origin_eq_example = check_origin_eq request

handle_packets-Picked_example :
    (ms : List _) × Picked ascii no_numbers expression engine.frames ms
    × (handle_packets ascii no_numbers expression 5 engine
        ≡ some (map row_of (newest (packet_limit 5) ms)))
    × (length (newest (packet_limit 5) ms) ≤ 300)
handle_packets-Picked_example =
    handle_packets-Picked ascii no_numbers ascii-LowersAscii expression expression-IsAscii 5 engine

-- Labels of seven and three bytes.
abbrev name : Bytes
name = text "example.com"

name-IsLabel : All IsLabel (split (text ".") name)
unfolding split_n cut has_prefix text
name-IsLabel = ((omega arith, omega arith), ((omega arith, omega arith), tt))

two_labels : length (split (text ".") name) ≤ 63
unfolding split_n cut has_prefix text
two_labels = omega arith

read_dns_name-dns_query_example :
    read_dns_name (dns_query name 1) 12 ≡ some (name, 12 + length (encode_dns_name name))
read_dns_name-dns_query_example = read_dns_name-dns_query name 1 name-IsLabel two_labels

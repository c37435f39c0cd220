-- ===== src/Web.antt =====
-- internal/web/server.go: who may use the dashboard, and the packets that it is given. Requests come
-- parsed: net/http and gorilla/websocket are not modelled.
pub mod Access
pub mod Control
pub mod Packets
pub mod Pages
use flux_tap.Decode.Frame.{Frame}
use flux_tap.Engine.{Engine}
use flux_tap.Filter.Match.{match_frame}
use flux_tap.Filter.{Folding, Numbers}
use flux_tap.Pcap.Stream.{Instant}
use flux_tap.Prelude.Panics.{◌>>=◌}
use flux_tap.Prelude.Words.{Bytes}
use flux_tap.Prelude.{
  ℕ, ◌-◌, Bool, true, false, ◌&&◌, ◌||◌, not, Option, some, List, [], ◌∷◌, ◌++◌, ltb, ◌==◌,
  if◌then◌else◌, length, drop, map,
}
use flux_tap.Text.Dict.{Dict}
use flux_tap.Text.{text, text_eq, is_empty, has_prefix, trim_space}

-- What is read of a request: its headers, the host, and the parameter `token`.
pub record Request : Type 0 where
  pub host : Bytes
  pub origin : Bytes
  pub authorization : Bytes
  pub fluxtap_token : Bytes
  pub token : Bytes

pub record Server : Type 0 where
  pub token : Bytes
  pub no_auth : Bool

-- `New`, where `random` is what `randomToken` makes; the token is cut to what is not space.
unfoldable pub new_server : Bytes → Bytes → Bool → Server
new_server random given no_auth =
    let token = trim_space given in
    record { token = if not no_auth && is_empty token then random else token; no_auth = no_auth }

unfoldable pub auth_enabled : Server → Bool
auth_enabled s = not s.no_auth && not (is_empty s.token)

-- The token in the header `Authorization`.
unfoldable pub bearer : (Bytes → Bytes) → Bytes → Bytes
bearer lower h = if has_prefix (lower h) (text "bearer ") then trim_space (drop 7 h) else []

abbrev or_else : Bytes → Bytes → Bytes
or_else v other = if is_empty v then other else v

-- `authorize`, where `lower` is `strings.ToLower`.
unfoldable pub authorize : (Bytes → Bytes) → Server → Request → Bool
unfolding auth_enabled bearer
authorize lower s r =
    let token = or_else (or_else r.token (bearer lower r.authorization)) r.fluxtap_token in
    if auth_enabled s then text_eq token s.token else true

-- The loop over the allowed origins.
unfoldable pub is_allowed : List Bytes → Bytes → Bool
is_allowed [] origin = false
is_allowed (a ∷ allowed) origin =
    text_eq origin a || has_prefix origin (a ++ text ":") || is_allowed allowed origin

abbrev pub local_origins : List Bytes
local_origins =
    text "http://127.0.0.1"
    ∷ text "http://localhost"
    ∷ text "https://127.0.0.1"
    ∷ text "https://localhost"
    ∷ []

abbrev pub plain_origin : Request → Bytes
plain_origin r = text "http://" ++ r.host

abbrev pub secure_origin : Request → Bytes
secure_origin r = text "https://" ++ r.host

-- `checkOrigin`.
unfoldable pub check_origin : Request → Bool
unfolding is_allowed
check_origin r =
    is_empty r.origin
    || is_allowed (plain_origin r ∷ secure_origin r ∷ local_origins) r.origin
    || has_prefix r.origin (plain_origin r)
    || has_prefix r.origin (secure_origin r)

-- The row of `handlePackets`.
pub record Row : Type 0 where
  pub number : ℕ
  pub timestamp : Instant
  pub src : Bytes
  pub dst : Bytes
  pub protocol : Bytes
  pub len : ℕ
  pub info : Bytes
  pub severity : Bytes
  pub tags : List Bytes
  pub flow_key : Bytes
  pub meta : Dict Bytes

abbrev pub row_of : Frame → Row
row_of f = record {
  number = f.number;
  timestamp = f.timestamp;
  src = f.src;
  dst = f.dst;
  protocol = f.protocol;
  len = f.len;
  info = f.info;
  severity = f.severity;
  tags = f.tags;
  flow_key = f.flow_key;
  meta = f.meta;
}

-- The limit that is used for the one asked for; one that is not a positive number is 0 here.
unfoldable pub packet_limit : ℕ → ℕ
packet_limit asked =
    let limit = if asked == 0 then 200 else asked in if ltb 300 limit then 300 else limit

module _ (fold : Folding) {R : Type 0} (real : Numbers R) where
  -- The loop of `Filtered` of internal/engine/engine.go; `none` is a panic.
  unfoldable pub filtered : Bytes → List Frame → Option (List Frame)
  filtered expr [] = some []
  filtered expr (f ∷ fs) = do
    matched ← match_frame fold real f expr
    rest ← filtered expr fs
    some (if matched then f ∷ rest else rest)

  -- `handlePackets`: the rows that it writes.
  unfoldable pub handle_packets : Bytes → ℕ → Engine → Option (List Row)
  unfolding filtered packet_limit
  handle_packets expr asked e = do
    frames ← filtered expr e.frames
    let limit = packet_limit asked
    let newest = if ltb limit (length frames) then drop (length frames - limit) frames else frames
    some (map row_of newest)

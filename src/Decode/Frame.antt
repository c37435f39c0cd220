-- ===== src/Decode/Frame.antt =====
-- internal/decode/frame.go: layers, frames, and the helpers that the dissectors share. A text is
-- its bytes, and a map with string keys a `Dict`.
pub mod Keys
use flux_tap.Pcap.Stream.{Instant}
use flux_tap.Prelude.Words.{Bytes, big, uint16, uint32}
use flux_tap.Prelude.{
  ℕ, zero, suc, ◌+◌, ◌-◌, ◌&&◌, ◌||◌, none, some, List, [], ◌∷◌, ◌++◌, ltb, leb, ◌==◌,
  if◌then◌else◌, length, take, drop, get_elem?,
}
use flux_tap.Text.Dict.{Dict, get, insert}
use flux_tap.Text.{text, text_eq, text_gt, is_empty, hex_padded}

pub record Layer : Type 0 where
  pub name : Bytes
  pub summary : Bytes
  pub fields : Dict Bytes
  pub raw : Bytes
  pub offset : ℕ
  pub len : ℕ
  pub color : Bytes

pub record Frame : Type 0 where
  pub number : ℕ
  pub timestamp : Instant
  pub cap_len : ℕ
  pub orig_len : ℕ
  pub len : ℕ
  pub src : Bytes
  pub dst : Bytes
  pub protocol : Bytes
  pub info : Bytes
  pub layers : List Layer
  pub hex_dump : Bytes
  pub meta : Dict Bytes
  pub flow_key : Bytes
  pub severity : Bytes
  pub tags : List Bytes

-- `f.Meta[k] = v`.
abbrev pub set_meta : Bytes → Bytes → Frame → Frame
set_meta k v f = record f { meta = insert k v f.meta }

-- `f.Protocol = p; f.Info = i`.
abbrev pub set_protocol : Bytes → Bytes → Frame → Frame
set_protocol p i f = record f { protocol = p; info = i }

abbrev pub add_tags : List Bytes → Frame → Frame
add_tags tags f = record f { tags = f.tags ++ tags }

-- `addLayer`; a nil map of fields is the empty one.
unfoldable pub add_layer : Frame → Bytes → Bytes → Dict Bytes → ℕ → ℕ → Bytes → Frame
add_layer f name summary fields off len color = record f {
  layers =
      f.layers
      ++ record {
        name = name;
        summary = summary;
        fields = fields;
        raw = [];
        offset = off;
        len = len;
        color = color;
      }
        ∷ [];
}

abbrev pub set_endpoints : Frame → Bytes → Bytes → Frame
set_endpoints f src dst = record f { src = src; dst = dst }

last_name : Bytes → List Layer → Bytes
last_name default [] = default
last_name default (l ∷ ls) = last_name l.name ls

-- `topProtocol`: the name of the last layer.
unfoldable pub top_protocol : Frame → Bytes
unfolding last_name
top_protocol f = last_name (text "Unknown") f.layers

last_summary : Bytes → List Layer → Bytes
last_summary default [] = default
last_summary default (l ∷ ls) = last_summary (if is_empty l.summary then default else l.summary) ls

-- `buildInfo`: the last summary that is not empty.
unfoldable pub build_info : Frame → Bytes
unfolding last_summary
build_info f = last_summary f.protocol f.layers

-- The end of `flowKey`: the endpoints in order, the smaller first.
unfoldable pub format_flow_key : Bytes → Bytes → Bytes → Bytes → Bytes → Bytes
format_flow_key proto a a_port b b_port =
    if text_gt a b || text_eq a b && text_gt a_port b_port
    then proto
      ++ (text "|" ++ (b ++ (text ":" ++ (b_port ++ (text "-" ++ (a ++ (text ":" ++ a_port)))))))
    else proto
      ++ (text "|" ++ (a ++ (text ":" ++ (a_port ++ (text "-" ++ (b ++ (text ":" ++ b_port)))))))

unfoldable pub flow_key : Frame → Bytes
flow_key f =
    let ip_proto = get f.meta (text "ip_proto") in
    format_flow_key (if is_empty ip_proto then f.protocol else ip_proto) f.src
      (get f.meta (text "sport")) f.dst (get f.meta (text "dport"))

-- `b[i]` printed by `%02x`, where the length of `b` is checked before.
mac_bytes : Bytes → Bytes
mac_bytes [] = []
mac_bytes (b ∷ []) = hex_padded 2 b
mac_bytes (b ∷ c ∷ bs) = hex_padded 2 b ++ (text ":" ++ mac_bytes (c ∷ bs))

unfoldable pub mac_string : Bytes → Bytes
unfolding mac_bytes
mac_string b = if ltb (length b) 6 then text "??:??:??:??:??:??" else mac_bytes (take 6 b)

-- One row of `HexDump`: 16 places, a gap before the ninth, then the printable characters.
hex_cells : ℕ → ℕ → Bytes → Bytes
hex_cells zero j chunk = []
hex_cells (suc n) j chunk =
    (if j == 8 then text " " else [])
    ++ (elim (get_elem? chunk j) [ none ↦ text "   " | some c ↦ hex_padded 2 c ++ text " " ]
        ++ hex_cells n (j + 1) chunk)

printable : Bytes → Bytes
printable [] = []
printable (c ∷ cs) = (if leb 32 c && ltb c 127 then c else b'.') ∷ printable cs

hex_rows : ℕ → ℕ → Bytes → Bytes
unfolding hex_cells printable
hex_rows fuel offset [] = []
hex_rows zero offset (c ∷ cs) = []
hex_rows (suc fuel) offset (c ∷ cs) =
    let chunk = take 16 (c ∷ cs) in
    hex_padded 4 offset
    ++ (text "  "
        ++ (hex_cells 16 0 chunk
            ++ (text " |"
                ++ (printable chunk
                    ++ (text "|\n" ++ hex_rows fuel (offset + 16) (drop 16 (c ∷ cs)))))))

-- `HexDump`. There are no more rows than bytes.
unfoldable pub hex_dump : Bytes → ℕ → Bytes
unfolding hex_rows
hex_dump bytes base = hex_rows (length bytes) base bytes

-- `u16` and `u32`: 0 beyond the end.
unfoldable pub u16 : Bytes → ℕ → ℕ
u16 b off = if ltb (length b) (off + 2) then 0 else uint16 big b off

unfoldable pub u32 : Bytes → ℕ → ℕ
u32 b off = if ltb (length b) (off + 4) then 0 else uint32 big b off

-- `safeSlice`, at a start that is not negative.
unfoldable pub safe_slice : Bytes → ℕ → ℕ → Bytes
safe_slice b start end =
    let stop = if ltb (length b) end then length b else end in
    if ltb (length b) start
    then []
    else if ltb stop start
    then []
    else take (stop - start) (drop start b)

unfoldable pub hex_string : Bytes → Bytes
hex_string [] = []
hex_string (c ∷ b) = hex_padded 2 c ++ hex_string b

-- `hexPreview`.
unfoldable pub hex_preview : Bytes → ℕ → Bytes
unfolding hex_string
hex_preview b n = if ltb n (length b) then hex_string (take n b) ++ text "…" else hex_string b

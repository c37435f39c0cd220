-- ===== src/Decode/Http2.antt =====
-- `dissectHTTP2` of internal/decode/http.go: HTTP/2 by its frames.
use flux_tap.Decode.Frame.{Frame, add_layer, set_meta, set_protocol, add_tags, u16, u32}
use flux_tap.Prelude.Panics.{◌>>=◌}
use flux_tap.Prelude.Words.{Bytes, index}
use flux_tap.Prelude.{
  ℕ, zero, suc, ◌+◌, ◌-◌, ◌*◌, ◌/◌, ◌%◌, ◌^◌, ◌&&◌, ◌||◌, Option, some, List, [], ◌∷◌, ◌++◌, ltb,
  leb, ◌==◌, if◌then◌else◌, length,
}
use flux_tap.Text.Dict.{Dict, insert}
use flux_tap.Text.{text, is_empty, decimal, hex_padded, join, has_prefix, to_lower}

unfoldable pub http2_frame_type : ℕ → Bytes
http2_frame_type t =
    if t == 0
    then text "DATA"
    else if t == 1
    then text "HEADERS"
    else if t == 2
    then text "PRIORITY"
    else if t == 3
    then text "RST_STREAM"
    else if t == 4
    then text "SETTINGS"
    else if t == 5
    then text "PUSH_PROMISE"
    else if t == 6
    then text "PING"
    else if t == 7
    then text "GOAWAY"
    else if t == 8
    then text "WINDOW_UPDATE"
    else if t == 9
    then text "CONTINUATION"
    else text "TYPE_" ++ decimal t

unfoldable pub setting_name : ℕ → Bytes
setting_name id =
    if id == 1
    then text "HEADER_TABLE_SIZE"
    else if id == 2
    then text "ENABLE_PUSH"
    else if id == 3
    then text "MAX_CONCURRENT_STREAMS"
    else if id == 4
    then text "INITIAL_WINDOW_SIZE"
    else if id == 5
    then text "MAX_FRAME_SIZE"
    else if id == 6
    then text "MAX_HEADER_LIST_SIZE"
    else text "ID_" ++ decimal id

-- The settings that begin at `off`, as many as are given.
unfoldable pub settings : ℕ → Bytes → ℕ → Dict Bytes → Dict Bytes
settings zero b off fields = fields
settings (suc n) b off fields = settings n b (off + 6) (
    insert (text "setting_" ++ to_lower (setting_name (u16 b off))) (decimal (u32 b (off + 2)))
      fields)

-- `parseHTTP2Settings`: the loop runs while six bytes are left before the end.
unfoldable pub parse_http2_settings : Bytes → ℕ → ℕ → Dict Bytes → Dict Bytes
parse_http2_settings b off len fields =
    let end = if ltb (length b) (off + len) then length b else off + len in
    settings ((end - off) / 6) b off fields

-- The state of the loop over the frames.
pub record Http2 : Type 0 where
  pub pos : ℕ
  pub frames : List Bytes
  pub fields : Dict Bytes

-- One frame. The break on a frame cut short leaves the position at the end, where the loop ends too.
unfoldable pub http2_frame : Bytes → Http2 → Option Http2
http2_frame b s = do
  a0 ← index b s.pos
  a1 ← index b (s.pos + 1)
  a2 ← index b (s.pos + 2)
  ftype ← index b (s.pos + 3)
  flags ← index b (s.pos + 4)
  let len = 65536 * a0 + 256 * a1 + a2
  let stream = decimal (u32 b (s.pos + 5) % 2 ^ 31)
  let shown =
      http2_frame_type ftype
      ++ (text " stream="
          ++ (stream
              ++ (text " len=" ++ (decimal len ++ (text " flags=0x" ++ hex_padded 2 flags)))))
  let count = if ftype == 4 then text " settings=" ++ decimal (len / 6) else []
  let ends_headers = ftype == 1 && flags / 4 % 2 == 1
  let ends_stream = (ftype == 1 || ftype == 0) && flags % 2 == 1
  let detail =
      shown
      ++ (count
          ++ ((if ends_headers then text " END_HEADERS" else [])
              ++ (if ends_stream then text " END_STREAM" else [])))
  let fields =
      if ftype == 4
      then parse_http2_settings b (s.pos + 9) len s.fields
      else if ftype == 1
      then insert (text "headers_stream") stream s.fields
      else s.fields
  let next = s.pos + 9 + len
  some (record {
    pos = if ltb (length b) next then length b else next;
    frames = s.frames ++ detail ∷ [];
    fields = fields;
  })

-- The loop: it stops at 16 frames, and each round adds one.
unfoldable pub http2_frames : ℕ → Bytes → Http2 → Option Http2
http2_frames zero b s = some s
http2_frames (suc n) b s =
    if leb (s.pos + 9) (length b) && ltb (length s.frames) 16
    then (do s' ← http2_frame b s; http2_frames n b s')
    else some s

abbrev pub preface : Bytes
preface = text "PRI * HTTP/2.0\r\n\r\nSM\r\n\r\n"

unfoldable pub dissect_http2 : Frame → Bytes → ℕ → Option (Frame × ℕ)
dissect_http2 f b offset = do
  let has_preface = has_prefix b preface
  let first : Http2 =
      if has_preface
      then record {
        pos = 24;
        frames = text "Magic Preface" ∷ [];
        fields = (text "preface", text "true") ∷ [];
      }
      else record { pos = 0; frames = []; fields = [] }
  s ← http2_frames 16 b first
  let joined = join s.frames (text " | ")
  let summary =
      if is_empty joined then text "HTTP/2 " ++ (decimal (length b) ++ text " bytes") else joined
  let fields = insert (text "frames") (join s.frames (text "; ")) s.fields
  let g = add_layer f (text "HTTP/2") summary fields offset (length b) (text "#22d3ee")
  let h = add_tags (text "web" ∷ text "h2" ∷ []) (set_protocol (text "HTTP/2") summary g)
  some (set_meta (text "http2") (text "1") h, offset + length b)

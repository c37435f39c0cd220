-- ===== src/Decode/Http.antt =====
-- `dissectHTTP` of internal/decode/http.go: HTTP/1 by its text.
pub mod Safety
use flux_tap.Decode.Frame.{Frame, add_layer, set_meta, set_protocol, add_tags}
use flux_tap.Prelude.Words.{Bytes}
use flux_tap.Prelude.{
  ℕ, ◌+◌, ◌-◌, ◌/◌, Bool, true, false, Option, none, some, List, [], ◌∷◌, ◌++◌, ltb, if◌then◌else◌,
  length,
}
use flux_tap.Text.Dict.{Dict, insert}
use flux_tap.Text.Split.{cut, split_n, split}
use flux_tap.Text.{text, text_eq, is_empty, decimal, has_prefix, to_lower, trim_space}

-- What the first line says.
pub record StartLine : Type 0 where
  pub is_request : Bool
  pub method : Bytes
  pub path : Bytes
  pub status : Bytes
  pub fields : Dict Bytes

abbrev no_parts : Bool → Dict Bytes → StartLine
no_parts is_request fields = record {
  is_request = is_request;
  method = [];
  path = [];
  status = [];
  fields = fields;
}

abbrev status_line : Dict Bytes → List Bytes → StartLine
status_line fields (version ∷ status ∷ rest) =
    let known = insert (text "version") version (insert (text "status") status fields) in
    record (no_parts false
      (elim rest [ [] ↦ known | reason ∷ _ ↦ insert (text "reason") reason known ])) {
        status = status;
      }
status_line fields _ = no_parts false fields

abbrev request_line : Dict Bytes → List Bytes → StartLine
request_line fields (method ∷ path ∷ rest) =
    let known = insert (text "path") path (insert (text "method") method fields) in
    record (no_parts true
      (elim rest [ [] ↦ known | version ∷ _ ↦ insert (text "version") version known ])) {
        method = method;
        path = path;
      }
request_line fields _ = no_parts true fields

unfoldable pub start_line : Bytes → StartLine
start_line line =
    let parts = split_n 2 (text " ") line in
    let fields : Dict Bytes = (text "start_line", line) ∷ [] in
    if has_prefix line (text "HTTP/") then status_line fields parts else request_line fields parts

-- What the headers leave.
pub record Headers : Type 0 where
  pub frame : Frame
  pub fields : Dict Bytes
  pub host : Bytes
  pub content_type : Bytes

-- One `name: value` with its parts trimmed.
unfoldable pub header : Bytes → Bytes → Headers → Headers
header name value h =
    let lk = to_lower name in
    let g = record h { fields = insert (text "hdr_" ++ lk) value h.fields } in
    if text_eq lk (text "host")
    then record g { host = value; frame = set_meta (text "http_host") value h.frame }
    else if text_eq lk (text "content-type")
    then record g { content_type = value }
    else if text_eq lk (text "user-agent")
    then record g { frame = set_meta (text "http_ua") value h.frame }
    else g

abbrev pub header_parts : List Bytes → Headers → Headers
header_parts (name ∷ value ∷ []) h = header (trim_space name) (trim_space value) h
header_parts _ h = h

-- The loop over the lines behind the first.
unfoldable pub headers : List Bytes → Headers → Headers
headers [] h = h
headers (line ∷ lines) h =
    headers lines (if is_empty line then h else header_parts (split_n 1 (text ":") line) h)

-- The text before the first empty line, and the length of the body behind it.
abbrev head_and_body : Bytes → Bytes × ℕ
head_and_body b = elim (cut (text "\r\n\r\n") b) [
  | none ↦ (b, 0)
  | some (head, body) ↦ (head, length body)
]

abbrev http_summary : StartLine → Headers → Bytes
http_summary start h =
    if start.is_request
    then start.method
      ++ (text " " ++ (start.path ++ (if is_empty h.host then [] else text " host=" ++ h.host)))
    else text "HTTP "
      ++ (start.status ++ (if is_empty h.content_type then [] else text " " ++ h.content_type))

abbrev pub http_meta : StartLine → Frame → Frame
http_meta start f =
    if start.is_request
    then set_meta (text "http_path") start.path (set_meta (text "http_method") start.method f)
    else set_meta (text "http_status") start.status f

abbrev pub http_lines : Frame → Bytes → ℕ → ℕ → List Bytes → Frame × ℕ
http_lines f b offset body_len [] = (f, offset)
http_lines f b offset body_len (line ∷ lines) =
    let start = start_line line in
    let h =
      headers lines (record { frame = f; fields = start.fields; host = []; content_type = [] }) in
    let has_body = ltb 0 body_len in
    let size = decimal body_len in
    let summary =
      http_summary start h ++ (if has_body then text " (+" ++ (size ++ text "B body)") else []) in
    let fields = if has_body then insert (text "body_len") size h.fields else h.fields in
    let g =
      add_layer (http_meta start h.frame) (text "HTTP") summary fields offset (length b)
        (text "#38bdf8") in
    (add_tags (text "web" ∷ []) (set_protocol (text "HTTP") summary g), offset + length b)

-- `dissectHTTP`, which reads nothing by an index.
unfoldable pub dissect_http : Frame → Bytes → ℕ → Option (Frame × ℕ)
dissect_http f b offset =
    let (head, body_len) = head_and_body b in
    some (http_lines f b offset body_len (split (text "\r\n") head))

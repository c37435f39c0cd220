-- ===== src/Filter/Compare.antt =====
-- The comparisons of internal/filter/filter.go: hasProtocol, matchMetaKey, compare, resolve and
-- toFloat. Fields of a layer come in the order in which the loop over their map gives them.
use flux_tap.Decode.Frame.{Layer, Frame}
use flux_tap.Filter.{Folding, Numbers}
use flux_tap.Prelude.Words.{Bytes}
use flux_tap.Prelude.{
  ℕ, Bool, false, ◌&&◌, ◌||◌, not, Option, none, some, List, [], ◌∷◌, ◌++◌, ◌==◌, if◌then◌else◌,
}
use flux_tap.Text.Dict.{Dict, lookup, get}
use flux_tap.Text.{text, text_eq, is_empty, contains, decimal}

-- The names of `aliases`.
unfoldable pub alias : Bytes → Option Bytes
unfolding text
alias name =
    if text_eq name (text "ip") || text_eq name (text "ipv4")
    then some (text "IPv4")
    else if text_eq name (text "ipv6")
    then some (text "IPv6")
    else if text_eq name (text "http2") || text_eq name (text "h2")
    then some (text "HTTP/2")
    else none

unfoldable pub any_layer : (Layer → Bool) → List Layer → Bool
any_layer p [] = false
any_layer p (l ∷ ls) = p l || any_layer p ls

abbrev is_alias : List Layer → Option Bytes → Bool
is_alias ls none = false
is_alias ls (some a) = any_layer (λ l. text_eq l.name a) ls

-- `sep` or `|` parts the ports of a frame.
abbrev is_parting : ℕ → Bool
is_parting c = c == b',' || c == b'|'

add_field : Bytes → List Bytes → List Bytes
add_field [] fs = fs
add_field (c ∷ s) fs = (c ∷ s) ∷ fs

-- `strings.FieldsFunc`, after the part read so far.
fields_onto : Bytes → Bytes → List Bytes
unfolding add_field
fields_onto part [] = add_field part []
fields_onto part (c ∷ s) =
    let here = add_field part (fields_onto [] s) in
    let on = fields_onto (part ++ c ∷ []) s in if is_parting c then here else on

unfoldable pub fields_of : Bytes → List Bytes
unfolding fields_onto
fields_of s = fields_onto [] s

unfoldable pub is_among : Bytes → List Bytes → Bool
is_among v [] = false
is_among v (f ∷ fs) = text_eq f v || is_among v fs

unfoldable pub is_port : Bytes → Bool
is_port field =
    text_eq field (text "tcp.port")
    || text_eq field (text "udp.port")
    || text_eq field (text "port")

-- The text before the first comma or bar.
unfoldable pub first_value : Bytes → Bytes
first_value [] = []
first_value (c ∷ s) = let rest = first_value s in if is_parting c then [] else c ∷ rest

module _ (fold : Folding) where
  unfoldable pub has_protocol : Frame → Bytes → Bool
  unfolding alias any_layer
  has_protocol f given =
      let name = fold.lower given in
      text_eq (fold.lower f.protocol) name
      || any_layer
          (λ l.
            text_eq (fold.lower l.name) name
            || text_eq (fold.lower l.name) (fold.upper name)
            || fold.equal_fold l.name name)
          f.layers
      || is_alias f.layers (alias name)

  -- The search of `resolve` in the fields of the layers.
  unfoldable pub find_field : Bytes → Layer → Dict Bytes → Option Bytes
  find_field field l [] = none
  find_field field l ((k, v) ∷ m) =
      if fold.equal_fold k field || fold.equal_fold (l.name ++ (text "." ++ k)) field
      then some v
      else find_field field l m

  abbrev or_next : Option Bytes → Option Bytes → Option Bytes
  or_next none next = next
  or_next (some v) next = some v

  unfoldable pub find_in_layers : Bytes → List Layer → Option Bytes
  unfolding find_field
  find_in_layers field [] = none
  find_in_layers field (l ∷ ls) = or_next (find_field field l l.fields) (find_in_layers field ls)

  abbrev or_empty : Option Bytes → Bytes
  or_empty none = []
  or_empty (some v) = v

  -- What `resolve` gives for a name that its `switch` does not know. The case of a port behind the
  -- loop is never reached, since the `switch` knows those names.
  unfoldable pub resolve_other : Frame → Bytes → Bytes
  unfolding find_in_layers
  resolve_other f field = or_empty (or_next (lookup field f.meta) (find_in_layers field f.layers))

  abbrev is_one : Bytes → List Bytes → Bool
  is_one field names = is_among field names

  abbrev or_else : Bytes → Bytes → Bytes
  or_else v other = if is_empty v then other else v

  unfoldable pub resolve : Frame → Bytes → Bytes
  unfolding resolve_other is_among is_port
  resolve f field =
      if is_one field (text "frame.len" ∷ text "len" ∷ text "length" ∷ [])
      then decimal f.len
      else if is_one field (text "frame.number" ∷ text "no" ∷ [])
      then decimal f.number
      else if is_one field (text "ip.src" ∷ text "src" ∷ [])
      then or_else (get f.meta (text "ip_src")) f.src
      else if is_one field (text "ip.dst" ∷ text "dst" ∷ [])
      then or_else (get f.meta (text "ip_dst")) f.dst
      else if is_port field
      then get f.meta (text "sport") ++ (text "," ++ get f.meta (text "dport"))
      else if is_one field (text "tcp.srcport" ∷ text "udp.srcport" ∷ text "sport" ∷ [])
      then get f.meta (text "sport")
      else if is_one field (text "tcp.dstport" ∷ text "udp.dstport" ∷ text "dport" ∷ [])
      then get f.meta (text "dport")
      else if is_one field (text "dns.qry.name" ∷ text "dns.qry" ∷ [])
      then get f.meta (text "dns_qry")
      else if text_eq field (text "http.host")
      then get f.meta (text "http_host")
      else if is_one field (text "http.request.method" ∷ text "http.method" ∷ [])
      then get f.meta (text "http_method")
      else if is_one field (text "tls.sni" ∷ text "sni" ∷ [])
      then get f.meta (text "sni")
      else if is_one field (text "tls.ja3" ∷ text "ja3" ∷ [])
      then get f.meta (text "ja3")
      else if is_one field (text "protocol" ∷ text "proto" ∷ [])
      then f.protocol
      else if text_eq field (text "info")
      then f.info
      else resolve_other f field

module _ (fold : Folding) {R : Type 0} (real : Numbers R) where
  -- The comparison of two numbers, false where one is none.
  abbrev compare_with : (R → R → Bool) → Option R → Option R → Bool
  compare_with test (some g) (some v) = test g v
  compare_with test _ _ = false

  unfoldable pub compare_numbers : Bytes → Bytes → Bytes → Bool
  unfolding first_value
  compare_numbers op got value =
      let g = real.parse (first_value got) in
      let v = real.parse (first_value value) in
      if text_eq op (text ">")
      then compare_with real.greater g v
      else if text_eq op (text ">=")
      then compare_with real.at_least g v
      else if text_eq op (text "<")
      then compare_with real.less g v
      else if text_eq op (text "<=")
      then compare_with real.at_most g v
      else false

  unfoldable pub compare : Frame → Bytes → Bytes → Bytes → Bool
  unfolding resolve is_port fields_of is_among compare_numbers
  compare f given op value =
      let field = fold.lower given in
      let got = resolve fold f field in
      let kind = fold.lower op in
      let same = fold.equal_fold got value || text_eq got value in
      if text_eq kind (text "contains")
      then contains (fold.lower got) (fold.lower value)
      else if text_eq kind (text "==") || text_eq kind (text "=")
      then is_port field && is_among value (fields_of got) || same
      else if text_eq kind (text "!=")
      then (if is_port field then not (is_among value (fields_of got)) else not same)
      else if is_among kind (text ">" ∷ text ">=" ∷ text "<" ∷ text "<=" ∷ [])
      then compare_numbers op got value
      else false

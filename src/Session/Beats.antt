-- ===== src/Session/Beats.antt =====
-- `classify` of internal/session/player.go: what a frame says to its session.
use flux_tap.Decode.Frame.{Frame}
use flux_tap.Prelude.Words.{Bytes}
use flux_tap.Prelude.{
  ℕ, ◌+◌, Bool, true, false, ◌&&◌, ◌||◌, not, Option, none, some, [], ◌∷◌, ◌++◌, leb, ltb, ◌==◌,
  if◌then◌else◌, length, take,
}
use flux_tap.Text.Dict.{get}
use flux_tap.Text.{text, text_eq, is_empty}

-- `indexOf` from the index `i`, on the rest of the text: `sub` is compared with as many bytes.
unfoldable pub index_from : ℕ → Bytes → Bytes → Option ℕ
index_from i sub [] = if length sub == 0 then some i else none
index_from i sub (c ∷ s) =
    let later = index_from (i + 1) sub s in
    if leb (length sub) (length (c ∷ s))
    then (if text_eq (take (length sub) (c ∷ s)) sub then some i else later)
    else none

abbrev pub is_found : Option ℕ → Bool
is_found none = false
is_found (some i) = true

unfoldable pub contains : Bytes → Bytes → Bool
contains s sub =
    leb (length sub) (length s)
    && (text_eq s sub || length sub == 0 || ltb 0 (length s) && is_found (index_from 0 sub s))

unfoldable pub trunc : Bytes → ℕ → Bytes
trunc s n = if leb (length s) n then s else take n s ++ text "…"

abbrev min : ℕ → ℕ → ℕ
min a b = if ltb a b then a else b

-- The kind and the summary of a TLS frame.
unfoldable pub tls_beat : Frame → Bytes × Bytes
unfolding trunc
tls_beat f =
    let sni = get f.meta (text "sni") in
    let ja3 = get f.meta (text "ja3") in
    let named = if is_empty sni then f.info else text "TLS SNI=" ++ sni in
    let marked =
      if is_empty ja3 then named else named ++ (text " JA3=" ++ take (min 8 (length ja3)) ja3) in
    (text "tls", trunc marked 120)

-- What the protocol says, where the flags of TCP say nothing.
unfoldable pub protocol_beat : Frame → Bytes × Bytes
unfolding trunc tls_beat
protocol_beat f =
    if text_eq f.protocol (text "TLS")
    then tls_beat f
    else if text_eq f.protocol (text "HTTP")
    then (text "http", trunc f.info 120)
    else if text_eq f.protocol (text "HTTP/2")
    then (text "http2", trunc f.info 120)
    else if text_eq f.protocol (text "DNS") || text_eq f.protocol (text "mDNS")
    then (text "dns", trunc f.info 120)
    else if text_eq f.protocol (text "QUIC")
    then (text "quic", trunc f.info 120)
    else if ltb 60 f.len && (text_eq f.protocol (text "TCP") || text_eq f.protocol (text "UDP"))
    then (text "data", f.protocol ++ text " payload")
    else ([], [])

-- `classify`: the kind, empty for none, and the summary; the other fields are set by `Observe`.
unfoldable pub classify : Frame → Bytes × Bytes
unfolding protocol_beat contains
classify f =
    let flags = get f.meta (text "tcp_flags") in
    let has = λ (name : Bytes). not (is_empty flags) && contains flags name in
    if has (text "SYN") && not (contains flags (text "ACK"))
    then (text "syn", text "TCP SYN")
    else if has (text "SYN") && contains flags (text "ACK")
    then (text "synack", text "TCP SYN-ACK")
    else if has (text "FIN")
    then (text "fin", text "TCP FIN")
    else if has (text "RST")
    then (text "rst", text "TCP RST")
    else protocol_beat f

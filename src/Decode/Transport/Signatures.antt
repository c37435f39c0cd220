-- ===== src/Decode/Transport/Signatures.antt =====
-- The tests of internal/decode/tcpudp.go for the protocol a payload starts.
use flux_tap.Decode.Frame.{u16}
use flux_tap.Prelude.Panics.{◌>>=◌}
use flux_tap.Prelude.Words.{Bytes, index}
use flux_tap.Prelude.{
  ◌+◌, ◌*◌, Bool, true, false, not, ◌&&◌, ◌||◌, Option, some, List, [], ◌∷◌, ltb, leb, ◌==◌,
  if◌then◌else◌, length, take,
}
use flux_tap.Text.{text, has_prefix}

unfoldable pub has_any_prefix : Bytes → List Bytes → Bool
has_any_prefix s [] = false
has_any_prefix s (m ∷ ms) = has_prefix s m || has_any_prefix s ms

unfoldable pub looks_like_http : Bytes → Bool
unfolding has_any_prefix
looks_like_http b = has_any_prefix (if ltb 8 (length b) then take 64 b else b) (
    text "GET "
    ∷ text "POST "
    ∷ text "PUT "
    ∷ text "HEAD "
    ∷ text "DELETE "
    ∷ text "OPTIONS "
    ∷ text "PATCH "
    ∷ text "CONNECT "
    ∷ text "HTTP/1."
    ∷ [])

abbrev pub http2_preface : Bytes
http2_preface = text "PRI * HTTP/2.0\r\n\r\nSM\r\n\r\n"

-- The heuristic for a frame header, once there are nine bytes.
unfoldable pub looks_like_http2 : Bytes → Option Bool
looks_like_http2 b =
    if has_prefix b http2_preface
    then some true
    else if leb 9 (length b)
    then (do
      ftype ← index b 3
      b0 ← index b 0
      b1 ← index b 1
      b2 ← index b 2
      let len = b0 * 65536 + b1 * 256 + b2
      some (
          leb ftype 9
          && (ltb len 16384 && leb (9 + len) (length b + 16384))
          && (ftype == 4 || ftype == 1 || ftype == 0 || ftype == 8)))
    else some false

unfoldable pub looks_like_tls : Bytes → Option Bool
looks_like_tls b = if ltb (length b) 5 then some false else do
  ct ← index b 0
  maj ← index b 1
  minv ← index b 2
  let len = u16 b 3
  some (
      not (ltb ct 20 || ltb 23 ct)
      && (maj == 3 && not (ltb 4 minv))
      && (ltb 0 len && leb (len + 5) (length b + 2048)))

unfoldable pub looks_like_quic : Bytes → Option Bool
looks_like_quic b =
    if ltb (length b) 5 then some false else do flags ← index b 0; some (leb 128 flags)

abbrev pub looks_like_dns : Bytes → Bool
looks_like_dns b = leb 12 (length b)

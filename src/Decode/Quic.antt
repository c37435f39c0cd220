-- ===== src/Decode/Quic.antt =====
-- `dissectQUIC` of internal/decode/dns.go, and on what it panics.
use flux_tap.Decode.Frame.{Frame, add_layer, set_protocol, add_tags, u32}
use flux_tap.Prelude.Panics.{◌>>=◌, Runs, returns, Runs-bind, Runs-index}
use flux_tap.Prelude.Words.{Bytes, index}
use flux_tap.Prelude.{
  ℕ, ◌+◌, ◌&&◌, Option, some, [], ◌∷◌, ◌++◌, leb, ◌==◌, if◌then◌else◌, length, ◌≤◌, ◌<◌,
}
use flux_tap.Text.Dict.{Dict}
use flux_tap.Text.{text, hex_padded}
use flux_tap.Decode.Dissected.{IsDissected, HasLayersIn, add_layer-HasLayersIn}

unfoldable pub dissect_quic : Frame → Bytes → ℕ → Option (Frame × ℕ)
dissect_quic f b offset = do
  flags ← index b 0
  let versioned = leb 128 flags && leb 5 (length b)
  let ver = u32 b 1
  let shown = text "0x" ++ hex_padded 8 ver
  let rest : Dict Bytes = if versioned then (text "version", shown) ∷ [] else []
  let fields : Dict Bytes = (text "flags", text "0x" ++ hex_padded 2 flags) ∷ rest
  let long =
      if ver == 0 then text "QUIC Version Negotiation" else text "QUIC long header ver=" ++ shown
  let summary = if versioned then long else text "QUIC short header"
  let g = add_layer f (text "QUIC") summary fields offset (length b) (text "#818cf8")
  some (
    add_tags (text "encrypted" ∷ text "http3" ∷ []) (set_protocol (text "QUIC") summary g),
    offset + length b,
  )

-- `dissectQUIC` panics on no payload that is not empty.
pub dissect_quic-Runs :
    (n : ℕ) (f : Frame) (b : Bytes) (offset : ℕ)
    → 0 < length b
    → HasLayersIn n f
    → offset + length b ≤ n
    → Runs ⊥ (IsDissected n) (dissect_quic f b offset)
unfolding dissect_quic
dissect_quic-Runs n f b offset some_bytes h fits =
    Runs-bind _ (Runs-index b 0 some_bytes)
      λ flags _. returns _ (add_layer-HasLayersIn n _ _ _ _ offset (length b) _ h fits, fits)

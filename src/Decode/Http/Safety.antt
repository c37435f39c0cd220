-- ===== src/Decode/Http/Safety.antt =====
-- On what the dissectors of internal/decode/http.go panic, and where their layers lie.
use flux_tap.Decode.Dissected.{IsDissected, HasLayersIn, add_layer-HasLayersIn}
use flux_tap.Decode.Frame.{Frame}
use flux_tap.Decode.Http2.{Http2, http2_frame, http2_frames, dissect_http2}
use flux_tap.Decode.Http.{
  StartLine, Headers, start_line, header, header_parts, headers, http_meta, http_lines,
  dissect_http,
}
use flux_tap.Prelude.Panics.{Runs, returns, Runs-bind, Runs-if, Runs-index}
use flux_tap.Prelude.Words.{Bytes}
use flux_tap.Prelude.{
  ℕ, zero, suc, ◌+◌, ◌≤◌, ◌≡◌, refl, false, ◌&&◌, List, [], ◌∷◌, arith, ltb, leb, length, ◌∙◌,
  length-append,
}
use flux_tap.Text.Split.{split_n}
use flux_tap.Text.{text}

header-layers :
    (name value : Bytes) (h : Headers) → (header name value h).frame.layers ≡ h.frame.layers
unfolding header
header-layers name value h = ground arith

header_parts-layers :
    (parts : List Bytes) (h : Headers) → (header_parts parts h).frame.layers ≡ h.frame.layers
header_parts-layers (name ∷ value ∷ []) h = header-layers _ _ h
header_parts-layers [] h = refl
header_parts-layers (name ∷ []) h = refl
header_parts-layers (name ∷ value ∷ more ∷ parts) h = refl

headers-layers :
    (lines : List Bytes) (h : Headers) → (headers lines h).frame.layers ≡ h.frame.layers
unfolding headers
headers-layers [] h = refl
headers-layers (line ∷ lines) h =
    headers-layers lines _ ∙ ground (arith, header_parts-layers (split_n 1 (text ":") line) h)

http_meta-layers : (start : StartLine) (f : Frame) → (http_meta start f).layers ≡ f.layers
http_meta-layers start f = ground arith

http_lines-IsDissected :
    (n : ℕ) (f : Frame) (b : Bytes) (offset body_len : ℕ) (lines : List Bytes)
    → HasLayersIn n f
    → offset + length b ≤ n
    → IsDissected n (http_lines f b offset body_len lines)
http_lines-IsDissected n f b offset body_len [] h fits = (h, omega arith)
http_lines-IsDissected n f b offset body_len (line ∷ lines) h fits =
    let start = start_line line in
    let hs =
      headers lines (record { frame = f; fields = start.fields; host = []; content_type = [] }) in
    let same = http_meta-layers start hs.frame ∙ headers-layers lines _ in
    (
      add_layer-HasLayersIn n (http_meta start hs.frame) _ _ _ offset (length b) _ (rw same h) fits,
      fits,
    )

-- `dissectHTTP` panics on no payload.
pub dissect_http-Runs :
    (n : ℕ) (f : Frame) (b : Bytes) (offset : ℕ)
    → HasLayersIn n f
    → offset + length b ≤ n
    → Runs ⊥ (IsDissected n) (dissect_http f b offset)
unfolding dissect_http
dissect_http-Runs n f b offset h fits = returns _ (http_lines-IsDissected n f b offset _ _ h fits)

http2_frame-Runs :
    (b : Bytes) (s : Http2)
    → s.pos + 9 ≤ length b
    → Runs ⊥ (λ (r : Http2). length r.frames ≡ length s.frames + 1) (http2_frame b s)
unfolding http2_frame
http2_frame-Runs b s fits = Runs-bind _ (Runs-index b s.pos (omega arith)) λ _ _.
    Runs-bind _ (Runs-index b (s.pos + 1) (omega arith)) λ _ _.
      Runs-bind _ (Runs-index b (s.pos + 2) (omega arith)) λ _ _.
        Runs-bind _ (Runs-index b (s.pos + 3) (omega arith)) λ _ _.
          Runs-bind _ (Runs-index b (s.pos + 4) (omega arith))
            λ _ _. returns _ (length-append s.frames _)

-- The loop has ended: no whole header is left, or 16 frames are shown.
abbrev IsAtEnd : Bytes → Http2 → Type 0
IsAtEnd b s = (leb (s.pos + 9) (length b) && ltb (length s.frames) 16) ≡ false

http2_frames-Runs :
    (n : ℕ) (b : Bytes) (s : Http2)
    → 16 ≤ length s.frames + n
    → Runs ⊥ (IsAtEnd b) (http2_frames n b s)
unfolding http2_frames
http2_frames-Runs zero b s enough = returns _ (ground arith)
http2_frames-Runs (suc n) b s enough =
    Runs-if (leb (s.pos + 9) (length b) && ltb (length s.frames) 16)
      (λ c.
        Runs-bind _ (http2_frame-Runs b s (ground arith))
          λ s' more. http2_frames-Runs n b s' (omega arith))
      λ c. returns _ c

-- `dissectHTTP2` never panics: given a frame whose layers lie in the packet and a payload that
-- does, it returns such a frame and an offset in the packet.
pub dissect_http2-Runs :
    (n : ℕ) (f : Frame) (b : Bytes) (offset : ℕ)
    → HasLayersIn n f
    → offset + length b ≤ n
    → Runs ⊥ (IsDissected n) (dissect_http2 f b offset)
unfolding dissect_http2
dissect_http2-Runs n f b offset h fits =
    Runs-bind _ (http2_frames-Runs 16 b _ (omega arith))
      λ s _. returns _ (add_layer-HasLayersIn n f _ _ _ offset (length b) _ h fits, fits)

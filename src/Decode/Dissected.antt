-- ===== src/Decode/Dissected.antt =====
-- What the dissectors of internal/decode leave: layers in the packet, and an offset in it.
use flux_tap.Decode.Frame.{Layer, Frame, add_layer}
use flux_tap.Prelude.Words.{Bytes}
use flux_tap.Prelude.{ℕ, ◌+◌, ◌≤◌, All, All-append}
use flux_tap.Text.Dict.{Dict}

abbrev pub IsInPacket : ℕ → Layer → Type 0
IsInPacket n l = l.offset + l.len ≤ n

abbrev pub HasLayersIn : ℕ → Frame → Type 0
HasLayersIn n f = All (IsInPacket n) f.layers

-- The result of a dissector on a packet of `n` bytes.
abbrev pub IsDissected : ℕ → Frame × ℕ → Type 0
IsDissected n (f, off) = HasLayersIn n f × (off ≤ n)

pub add_layer-HasLayersIn :
    (n : ℕ) (f : Frame) (name summary : Bytes) (fields : Dict Bytes) (off len : ℕ) (color : Bytes)
    → HasLayersIn n f
    → off + len ≤ n
    → HasLayersIn n (add_layer f name summary fields off len color)
unfolding add_layer
add_layer-HasLayersIn n f name summary fields off len color h k =
    All-append (IsInPacket n) f.layers _ h (k, tt)

-- ===== src/Prelude/Words.antt =====
-- Machine words in memory: the byte orders of `encoding/binary`, reads of a byte string, and
-- slices, which panic out of range.
use Prim.Native.Nat.{ℕ, zero, suc, ◌+◌, ◌-◌, ◌*◌, ◌/◌, ◌%◌, ◌≤◌, ◌<◌}
use mathlib.Core.List.{List, [], ◌∷◌}
use mathlib.Core.Option.{Option, none, some}
use mathlib.Core.Path.{◌≡◌, refl}
use native.Mathlib.Omega.{arith}
use flux_tap.Prelude.Lists.{length, get_elem?, take, drop, length-take, length-drop}
use flux_tap.Prelude.Order.{leb, if◌then◌else◌}

abbrev pub Bytes : Type 0
Bytes = List ℕ

-- The byte at an index, 0 beyond the end: for reads of buffers whose length is fixed.
abbrev pub byte_at : Bytes → ℕ → ℕ
byte_at [] i = 0
byte_at (b ∷ bs) zero = b
byte_at (b ∷ bs) (suc i) = byte_at bs i

pub data ByteOrder : Type 0 where
  little big : ByteOrder

-- `binary.ByteOrder.Uint16` and `Uint32` of the bytes that begin at an offset.
unfoldable pub uint16 : ByteOrder → Bytes → ℕ → ℕ
uint16 little b i = byte_at b i + 256 * byte_at b (i + 1)
uint16 big b i = 256 * byte_at b i + byte_at b (i + 1)

unfoldable pub uint32 : ByteOrder → Bytes → ℕ → ℕ
uint32 little b i =
    byte_at b i + 256 * byte_at b (i + 1) + 65536 * byte_at b (i + 2) + 16777216 * byte_at b (i + 3)
uint32 big b i =
    16777216 * byte_at b i + 65536 * byte_at b (i + 1) + 256 * byte_at b (i + 2) + byte_at b (i + 3)

-- `PutUint16` and `PutUint32`: the bytes of a word, which is reduced first.
unfoldable pub put_uint16 : ByteOrder → ℕ → Bytes
put_uint16 little n = (n % 256) ∷ (n / 256 % 256) ∷ []
put_uint16 big n = (n / 256 % 256) ∷ (n % 256) ∷ []

unfoldable pub put_uint32 : ByteOrder → ℕ → Bytes
put_uint32 little n = (n % 256) ∷ (n / 256 % 256) ∷ (n / 65536 % 256) ∷ (n / 16777216 % 256) ∷ []
put_uint32 big n = (n / 16777216 % 256) ∷ (n / 65536 % 256) ∷ (n / 256 % 256) ∷ (n % 256) ∷ []

-- `b[i]`.
unfoldable pub index : Bytes → ℕ → Option ℕ
index b i = get_elem? b i

-- `b[lo:hi]`.
unfoldable pub slice : Bytes → ℕ → ℕ → Option Bytes
slice b lo hi =
    if leb lo hi
    then if leb hi (length b) then some (take (hi - lo) (drop lo b)) else none
    else none

pub index_in_range : (b : Bytes) (i : ℕ) → i < length b → (x : ℕ) × (index b i ≡ some x)
unfolding index
index_in_range [] i h = elim h [ ]
index_in_range (x ∷ b) zero h = (x, refl)
index_in_range (x ∷ b) (suc i) h = index_in_range b i (omega arith)

pub index_out_of_range : (b : Bytes) (i : ℕ) → length b ≤ i → index b i ≡ none
unfolding index
index_out_of_range [] i h = refl
index_out_of_range (x ∷ b) zero h = absurd (omega arith)
index_out_of_range (x ∷ b) (suc i) h = index_out_of_range b i (omega arith)

pub slice_in_range :
    (b : Bytes) (lo hi : ℕ)
    → lo ≤ hi
    → hi ≤ length b
    → (s : Bytes) × (slice b lo hi ≡ some s) × (length s ≡ hi - lo)
unfolding slice
slice_in_range b lo hi h k = (
  take (hi - lo) (drop lo b),
  ground arith,
  length-take (hi - lo) (drop lo b) (omega (arith, length-drop lo b)),
)

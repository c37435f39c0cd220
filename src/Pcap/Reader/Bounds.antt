-- ===== src/Pcap/Reader/Bounds.antt =====
-- On which blocks the reader of internal/pcap/reader.go panics.
use flux_tap.Pcap.Stream.{panicked, ok, fail, read_full, Instant}
use flux_tap.Prelude.Words.{Bytes, ByteOrder, little, big, byte_at, uint32, slice}
use flux_tap.Prelude.{
  ℕ, zero, suc, ◌+◌, ◌≤◌, ◌<◌, ◌≡◌, ◌≢◌, ◌↔◌, [], ◌∷◌, arith, leb, length, take, drop, All,
  All-drop, All-take, length-take, length-drop, Bool-cases, inl, inr,
}
use flux_tap.Pcap.Reader.{Reader, enhanced_packet, simple_packet, read_block, max_block}

abbrev pub IsByte : ℕ → Type 0
IsByte c = c < 256

byte_at-IsByte : (b : Bytes) (i : ℕ) → All IsByte b → byte_at b i < 256
byte_at-IsByte [] i h = omega arith
byte_at-IsByte (x ∷ b) zero h = h.0
byte_at-IsByte (x ∷ b) (suc i) h = byte_at-IsByte b i h.1

pub uint32-lt : (o : ByteOrder) (b : Bytes) (i : ℕ) → All IsByte b → uint32 o b i < 4294967296
unfolding uint32
uint32-lt little b i h = omega (
  arith,
  byte_at-IsByte b i h,
  byte_at-IsByte b (i + 1) h,
  byte_at-IsByte b (i + 2) h,
  byte_at-IsByte b (i + 3) h,
)
uint32-lt big b i h = omega (
  arith,
  byte_at-IsByte b i h,
  byte_at-IsByte b (i + 1) h,
  byte_at-IsByte b (i + 2) h,
  byte_at-IsByte b (i + 3) h,
)

-- What a successful read gives.
pub read_full-parts :
    (n : ℕ) (s : Bytes) {xs rest : Bytes}
    → read_full n s ≡ ok (xs, rest)
    → (length xs ≡ n)
      × (length s ≡ n + length rest)
      × (All IsByte s → All IsByte xs × All IsByte rest)
unfolding read_full
read_full-parts n s {xs} {rest} h = elim (Bool-cases (leb n (length s))) [
  | inl fits ↦
      let parts : (take n s ≡ xs) × (drop n s ≡ rest) = ground (arith) in
      (
        ground (arith, length-take n s),
        ground (arith, length-drop n s),
        λ b. rw (← parts.0, ← parts.1) (All-take IsByte n s b, All-drop IsByte n s b),
      )
  | inr short ↦ ground arith
]

-- The sum of the captured length wraps exactly where the slice of the packet's bytes panics: an
-- Enhanced Packet Block whose captured length is within 20 of 2^32.
enhanced_packet-panicked_iff :
    (rd : Reader) (body : Bytes)
    → All IsByte body
    → (enhanced_packet rd body ≡ fail panicked)
      ↔ ((20 ≤ length body) × (4294967276 ≤ uint32 rd.byte_order body 12))
unfolding enhanced_packet slice
enhanced_packet-panicked_iff rd body h =
    let cap = uint32-lt rd.byte_order body 12 h in
    (λ e. ground (arith, cap), λ p. ground (arith, cap))

simple_packet-ne-panicked :
    (now : Instant) (rd : Reader) (body : Bytes)
    → length body ≤ max_block
    → simple_packet now rd body ≢ fail panicked
unfolding simple_packet slice
simple_packet-ne-panicked now rd body h = ground arith

-- Whatever a block holds, its reading panics exactly when it is an Enhanced Packet Block of at
-- least 20 bytes whose captured length is at least 2^32 - 20.
pub read_block-panicked_iff :
    (now : Instant) (rd : Reader) (block_type : ℕ) (body : Bytes)
    → All IsByte body
    → length body ≤ max_block
    → (read_block now rd block_type body ≡ fail panicked)
      ↔ ((block_type ≡ 6) × (20 ≤ length body) × (4294967276 ≤ uint32 rd.byte_order body 12))
unfolding read_block
read_block-panicked_iff now rd block_type body h fits =
    let epb = enhanced_packet-panicked_iff rd body h in
    let spb = simple_packet-ne-panicked now rd body fits in
    (λ e. ground (arith, epb, spb), λ p. ground (arith, epb))

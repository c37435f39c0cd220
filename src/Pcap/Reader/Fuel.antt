-- ===== src/Pcap/Reader/Fuel.antt =====
-- The loops of internal/pcap/reader.go have fuel enough.
use flux_tap.Pcap.Reader.Bounds.{IsByte}
use flux_tap.Pcap.Reader.{
  Packet, Reader, Block, skipped, packet, enhanced_packet, simple_packet, read_block, next_block,
  next_ng, next_classic, next, after_block,
}
use flux_tap.Pcap.Stream.{
  eof, no_fuel, Truncation, truncated, Result, ok, fail, ◌>>=◌, read_full, Instant,
}
use flux_tap.Prelude.Words.{Bytes, uint32}
use flux_tap.Prelude.{
  ℕ, zero, suc, ◌-◌, ◌<◌, ◌≡◌, refl, Bool, true, false, arith, if◌then◌else◌, length, All,
}
use flux_tap.Pcap.Reader.Blocks.{IsSoundBlock, next_block-IsSoundBlock}

-- Reading does not run out of fuel by itself.
abbrev pub IsFuelled {ℓ} : {A : Type ℓ} → Result A → Type 0
IsFuelled (fail no_fuel) = ⊥
IsFuelled _ = Unit

read_block-IsFuelled :
    (now : Instant) (rd : Reader) (block_type : ℕ) (body : Bytes)
    → IsFuelled (read_block now rd block_type body)
unfolding read_block enhanced_packet simple_packet
read_block-IsFuelled now rd block_type body = ground arith

bind-IsFuelled {ℓ κ} :
    {A : Type ℓ} {B : Type κ} (m : Result A) (f : A → Result B)
    → IsFuelled m
    → ((a : A) → IsFuelled (f a))
    → IsFuelled (m >>= f)
bind-IsFuelled (ok a) f h k = k a
bind-IsFuelled (fail eof) f h k = h
bind-IsFuelled (fail e) f h k = h

read_full-IsFuelled : (n : ℕ) (s : Bytes) → IsFuelled (read_full n s)
unfolding read_full
read_full-IsFuelled n s = ground arith

guard-IsFuelled {ℓ} :
    {A : Type ℓ} (b : Bool) (t : Truncation) (m : Result A)
    → IsFuelled m
    → IsFuelled (if b then fail (truncated t) else m)
guard-IsFuelled true t m h = tt
guard-IsFuelled false t m h = h

next_block-IsFuelled : (now : Instant) (rd : Reader) → IsFuelled (next_block now rd)
unfolding next_block
next_block-IsFuelled now rd = bind-IsFuelled (read_full 8 rd.input) _ (read_full-IsFuelled _ _) λ h.
    guard-IsFuelled _ _ _ (
      bind-IsFuelled (read_full (uint32 rd.byte_order h.0 4 - 12) h.1) _ (read_full-IsFuelled _ _)
        λ b.
          bind-IsFuelled (read_full 4 b.1) _ (read_full-IsFuelled _ _)
            λ t. read_block-IsFuelled now _ _ _)

next_classic-IsFuelled : (rd : Reader) → IsFuelled (next_classic rd)
unfolding next_classic
next_classic-IsFuelled rd = bind-IsFuelled (read_full 16 rd.input) _ (read_full-IsFuelled _ _) λ h.
    guard-IsFuelled _ _ _ (
      bind-IsFuelled (read_full (uint32 rd.byte_order h.0 8) h.1) _ (read_full-IsFuelled _ _)
        λ b. tt)

after_block-IsFuelled :
    (rd : Reader) (loop : Reader → Result (Reader × Packet)) (r : Result Block)
    → IsFuelled r
    → ((b : Block) → r ≡ ok b → IsSoundBlock rd b)
    → ((mid : Reader)
        → All IsByte mid.input
        → length mid.input < length rd.input
        → IsFuelled (loop mid))
    → IsFuelled (after_block loop r)
after_block-IsFuelled rd loop (fail eof) h sound later = h
after_block-IsFuelled rd loop (fail f) h sound later = h
after_block-IsFuelled rd loop (ok (skipped mid)) h sound later =
    let (count, shorter, bytes) = sound (skipped mid) refl in later mid bytes shorter
after_block-IsFuelled rd loop (ok (packet rd1 p1)) h sound later = tt

next_ng-IsFuelled :
    (fuel : ℕ) (now : Instant) (rd : Reader)
    → All IsByte rd.input
    → length rd.input < fuel
    → IsFuelled (next_ng fuel now rd)
unfolding next_ng
next_ng-IsFuelled zero now rd h f = absurd (omega arith)
next_ng-IsFuelled (suc fuel) now rd h f =
    after_block-IsFuelled rd (next_ng fuel now) (next_block now rd) (next_block-IsFuelled now rd)
      (λ b. next_block-IsSoundBlock now rd h)
      (λ mid m l. next_ng-IsFuelled fuel now mid m (omega arith))

pub next-IsFuelled :
    (fuel : ℕ) (now : Instant) (rd : Reader)
    → All IsByte rd.input
    → length rd.input < fuel
    → IsFuelled (next fuel now rd)
unfolding next
next-IsFuelled fuel now rd h f =
    elim rd.is_ng as (λ b. IsFuelled (if b then next_ng fuel now rd else next_classic rd)) [
      | true ↦ next_ng-IsFuelled fuel now rd h f
      | false ↦ next_classic-IsFuelled rd
    ]

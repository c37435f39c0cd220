-- ===== src/Pcap/Reader/Blocks.antt =====
-- What each block and each record of internal/pcap/reader.go leaves: a sound packet, or a reader that
-- has read on.
use flux_tap.Pcap.Reader.Bounds.{IsByte, uint32-lt, read_full-parts}
use flux_tap.Pcap.Reader.{
  Packet, Reader, Block, skipped, packet, enhanced_packet, simple_packet, describe_interface,
  read_block, next_block, next_ng, next_classic, after_block, max_block, next_count,
}
use flux_tap.Pcap.Stream.{Result, ok, fail, bind-eq-ok, guard-eq-ok, read_full, Instant}
use flux_tap.Prelude.Words.{Bytes, uint32, slice}
use flux_tap.Prelude.{
  ℕ, zero, suc, ◌+◌, ◌-◌, ◌%◌, ◌≤◌, ◌<◌, ◌≡◌, refl, ◌||◌, arith, ltb, length, drop, All,
  length-take, length-drop,
}

-- A packet read from state `rd`, which leaves `rd'`: it is numbered after the packets before it,
-- holds as many bytes as it says, at most 16 MiB, and came from the stream.
pub record IsSound (rd rd' : Reader) (p : Packet) : Type 0 where
  pub numbered : p.no ≡ next_count rd
  pub counted : rd'.count ≡ p.no
  pub sized : length p.contents ≡ p.cap_len
  pub bounded : p.cap_len ≤ max_block
  pub shorter : length rd'.input < length rd.input
  pub bytes : All IsByte rd'.input

-- What a block leaves: a reader that has read on, or a sound packet.
abbrev pub IsSoundBlock : Reader → Block → Type 0
IsSoundBlock rd (skipped rd') =
    (rd'.count ≡ rd.count) × (length rd'.input < length rd.input) × All IsByte rd'.input
IsSoundBlock rd (packet rd' p) = IsSound rd rd' p

-- What a switch over blocks keeps of its reader, which has read the block.
abbrev KeepsBlock : Reader → Block → Type 0
KeepsBlock rd (skipped rd') = (rd'.count ≡ rd.count) × (rd'.input ≡ rd.input)
KeepsBlock rd (packet rd' p) =
    (rd'.input ≡ rd.input)
    × (p.no ≡ next_count rd)
    × (rd'.count ≡ p.no)
    × (length p.contents ≡ p.cap_len)
    × (p.cap_len ≤ max_block)

enhanced_packet-KeepsBlock :
    (rd : Reader) (body : Bytes) (b : Block)
    → All IsByte body
    → length body ≤ max_block
    → enhanced_packet rd body ≡ ok b
    → KeepsBlock rd b
unfolding enhanced_packet slice
enhanced_packet-KeepsBlock rd body (skipped rd') h f e = ground arith
enhanced_packet-KeepsBlock rd body (packet rd' p) h f e =
    let cap = uint32 rd.byte_order body 12 in
    let end = (20 + cap) % 4294967296 in
    ground (
      arith,
      uint32-lt rd.byte_order body 12 h,
      length-take (end - 20) (drop 20 body),
      length-drop 20 body,
    )

simple_packet-KeepsBlock :
    (now : Instant) (rd : Reader) (body : Bytes) (b : Block)
    → length body ≤ max_block
    → simple_packet now rd body ≡ ok b
    → KeepsBlock rd b
unfolding simple_packet slice
simple_packet-KeepsBlock now rd body (skipped rd') f e = ground arith
simple_packet-KeepsBlock now rd body (packet rd' p) f e =
    let cap = (length body - 4) % 4294967296 in
    ground (arith, length-take (4 + cap - 4) (drop 4 body), length-drop 4 body)

read_block-KeepsBlock :
    (now : Instant) (rd : Reader) (block_type : ℕ) (body : Bytes) (b : Block)
    → All IsByte body
    → length body ≤ max_block
    → read_block now rd block_type body ≡ ok b
    → KeepsBlock rd b
unfolding read_block describe_interface
read_block-KeepsBlock now rd block_type body (skipped rd') h f e = ground (
  arith,
  enhanced_packet-KeepsBlock rd body (skipped rd') h f,
  simple_packet-KeepsBlock now rd body (skipped rd') f,
)
read_block-KeepsBlock now rd block_type body (packet rd' p) h f e = ground (
  arith,
  enhanced_packet-KeepsBlock rd body (packet rd' p) h f,
  simple_packet-KeepsBlock now rd body (packet rd' p) f,
)

KeepsBlock-sound :
    (rd : Reader) (rest : Bytes) (b : Block)
    → length rest < length rd.input
    → All IsByte rest
    → KeepsBlock (record rd { input = rest }) b
    → IsSoundBlock rd b
KeepsBlock-sound rd rest (skipped rd') l h k = (k.0, rw k.1 l, rw k.1 h)
KeepsBlock-sound rd rest (packet rd' p) l h k = record {
  numbered = k.1;
  counted = k.2;
  sized = k.3;
  bounded = k.4;
  shorter = rw k.0 l;
  bytes = rw k.0 h;
}

pub next_block-IsSoundBlock :
    (now : Instant) (rd : Reader) {b : Block}
    → All IsByte rd.input
    → next_block now rd ≡ ok b
    → IsSoundBlock rd b
unfolding next_block
next_block-IsSoundBlock now rd {b} h e =
    let ((bh, s), head, e1) = bind-eq-ok (read_full 8 rd.input) _ e in
    let len = uint32 rd.byte_order bh 4 in
    let (passed, e2) = guard-eq-ok (ltb len 12 || ltb max_block len) _ _ e1 in
    let ((body, s1), middle, e3) = bind-eq-ok (read_full (len - 12) s) _ e2 in
    let ((trail, s2), last, e4) = bind-eq-ok (read_full 4 s1) _ e3 in
    let p1 = read_full-parts 8 rd.input head in
    let p2 = read_full-parts (len - 12) s middle in
    let p3 = read_full-parts 4 s1 last in
    let b2 = p2.2 (p1.2 h).1 in
    let fits : length body ≤ max_block = ground (arith, p2.0) in
    KeepsBlock-sound rd s2 b (omega (arith, p1.1, p2.1, p3.1)) (p3.2 b2.1).1 (
      read_block-KeepsBlock now (record rd { input = s2 }) (uint32 rd.byte_order bh 0) body b b2.0
        fits e4)

-- A classic record, given its header, its bytes and what is left of the stream.
next_classic_parts-IsSound :
    (rd rd' : Reader) (p : Packet) (hdr contents rest : Bytes)
    → length contents ≡ uint32 rd.byte_order hdr 8
    → length contents ≤ max_block
    → length rest < length rd.input
    → All IsByte rest
    → rd'.input ≡ rest
    → rd'.count ≡ next_count rd
    → p.no ≡ next_count rd
    → p.cap_len ≡ uint32 rd.byte_order hdr 8
    → p.contents ≡ contents
    → IsSound rd rd' p
next_classic_parts-IsSound rd rd' p hdr contents rest l m s b i c n k d = record {
  numbered = n;
  counted = omega arith;
  sized = rw d (omega arith);
  bounded = omega arith;
  shorter = rw i s;
  bytes = rw i b;
}

pub next_classic-IsSound :
    (rd rd' : Reader) (p : Packet)
    → All IsByte rd.input
    → next_classic rd ≡ ok (rd', p)
    → IsSound rd rd' p
unfolding next_classic
next_classic-IsSound rd rd' p h e =
    let ((hdr, s), head, e1) = bind-eq-ok (read_full 16 rd.input) _ e in
    let cap = uint32 rd.byte_order hdr 8 in
    let (passed, e2) = guard-eq-ok (ltb max_block cap) _ _ e1 in
    let ((contents, s1), body, e3) = bind-eq-ok (read_full cap s) _ e2 in
    let p1 = read_full-parts 16 rd.input head in
    let p2 = read_full-parts cap s body in
    next_classic_parts-IsSound rd rd' p hdr contents s1 p2.0 (ground (arith, p2.0))
      (omega (arith, p1.1, p2.1)) (p2.2 (p1.2 h).1).1 (cc e3) (cc e3) (cc e3) (cc e3) (cc e3)

-- Skipped blocks keep the count and shorten the stream.
IsSound-later :
    (rd mid rd' : Reader) (p : Packet)
    → mid.count ≡ rd.count
    → length mid.input < length rd.input
    → IsSound mid rd' p
    → IsSound rd rd' p
IsSound-later rd mid rd' p c l s = record {
  numbered = rw (← c) s.numbered;
  counted = s.counted;
  sized = s.sized;
  bounded = s.bounded;
  shorter = omega (arith, s.shorter);
  bytes = s.bytes;
}

after_block-IsSound :
    (rd rd' : Reader) (p : Packet) (loop : Reader → Result (Reader × Packet)) (r : Result Block)
    → ((b : Block) → r ≡ ok b → IsSoundBlock rd b)
    → ((mid : Reader) → All IsByte mid.input → loop mid ≡ ok (rd', p) → IsSound mid rd' p)
    → after_block loop r ≡ ok (rd', p)
    → IsSound rd rd' p
after_block-IsSound rd rd' p loop (fail f) sound later e = cc
after_block-IsSound rd rd' p loop (ok (skipped mid)) sound later e =
    let (count, shorter, bytes) = sound (skipped mid) refl in
    IsSound-later rd mid rd' p count shorter (later mid bytes e)
after_block-IsSound rd rd' p loop (ok (packet rd1 p1)) sound later e =
    let s : IsSound rd rd1 p1 = sound (packet rd1 p1) refl in
    let r_eq : rd1 ≡ rd' = cc e in let p_eq : p1 ≡ p = cc e in rw (← r_eq, ← p_eq) s

pub next_ng-IsSound :
    (fuel : ℕ) (now : Instant) (rd rd' : Reader) (p : Packet)
    → All IsByte rd.input
    → next_ng fuel now rd ≡ ok (rd', p)
    → IsSound rd rd' p
unfolding next_ng
next_ng-IsSound zero now rd rd' p h e = cc
next_ng-IsSound (suc fuel) now rd rd' p h e =
    after_block-IsSound rd rd' p (next_ng fuel now) (next_block now rd)
      (λ b. next_block-IsSoundBlock now rd h) (λ mid m. next_ng-IsSound fuel now mid rd' p m) e

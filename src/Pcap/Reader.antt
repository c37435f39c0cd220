-- ===== src/Pcap/Reader.antt =====
-- internal/pcap/reader.go: the reader of classic PCAP and PCAPNG streams. `io.ReadCloser` is the
-- rest of the stream, a list of bytes; opening and closing files is not modelled.
pub mod Blocks
pub mod Bounds
pub mod Fuel
pub mod Progress
pub mod Sections
use flux_tap.Pcap.Stream.{
  shb_len, block_len, cap_len, epb_data, Fault, eof, unsupported, truncated, panicked, no_fuel,
  Result, ok, fail, ◌>>=◌, read_full, Instant, unix, unix_micros,
}
use flux_tap.Prelude.Words.{Bytes, ByteOrder, little, big, uint16, uint32, slice}
use flux_tap.Prelude.{
  ℕ, zero, suc, ◌+◌, ◌-◌, ◌*◌, ◌%◌, ◌^◌, Bool, true, false, ◌||◌, Option, none, some, List, [], ◌∷◌,
  ◌++◌, ltb, ◌==◌, if◌then◌else◌, length,
}

pub record Packet : Type 0 where
  pub no : ℕ
  pub timestamp : Instant
  pub cap_len : ℕ
  pub orig_len : ℕ
  pub contents : Bytes
  pub link_type : ℕ

pub record Reader : Type 0 where
  pub input : Bytes
  pub byte_order : ByteOrder
  pub nano : Bool
  pub link_type : ℕ
  pub snap_len : ℕ
  pub is_ng : Bool
  pub count : ℕ
  pub iface_map : List (ℕ × ℕ)

abbrev pub magic_pcap_le : ℕ
magic_pcap_le = 0xa1b2c3d4

abbrev pub magic_pcap_be : ℕ
magic_pcap_be = 0xd4c3b2a1

abbrev pub magic_pcap_ns_le : ℕ
magic_pcap_ns_le = 0xa1b23c4d

abbrev pub magic_pcap_ns_be : ℕ
magic_pcap_ns_be = 0x4d3cb2a1

abbrev pub magic_pcapng : ℕ
magic_pcapng = 0x0a0d0d0a

abbrev pub link_type_ethernet : ℕ
link_type_ethernet = 1

-- 16 MiB, the limit on blocks and on captured lengths.
abbrev pub max_block : ℕ
max_block = 16777216

unfoldable pub init_classic : Reader → ℕ → Result Reader
init_classic rd magic = do
  (hdr, rest) ← read_full 20 rd.input
  let le = magic == magic_pcap_le || magic == magic_pcap_ns_le
  let order = if le then little else big
  ok (record rd {
    input = rest;
    byte_order = order;
    nano = magic == magic_pcap_ns_le || magic == magic_pcap_ns_be;
    snap_len = uint32 order hdr 12;
    link_type = uint32 order hdr 16;
  })

-- The order that the byte-order magic of a section header names, or the one guessed before.
abbrev section_order : ByteOrder → ℕ → ByteOrder
section_order guess bom =
    if bom == 0x1a2b3c4d then little else if bom == 0x4d3c2b1a then big else guess

unfoldable pub init_ng : Reader → Result Reader
init_ng rd = do
  (rest, s) ← read_full 4 rd.input
  let short = ltb (uint32 little rest 0) 28
  let total_len = if short then uint32 big rest 0 else uint32 little rest 0
  let guess = if short then big else little
  if ltb max_block total_len || ltb total_len 28 then fail (truncated (shb_len total_len)) else do
    (body, s') ← read_full (total_len - 8) s
    ok (record rd {
      input = s';
      is_ng = true;
      byte_order = section_order guess (uint32 little body 0);
      link_type = link_type_ethernet;
    })

-- `byteOrder` is nil in a new reader; both `init` functions set it.
abbrev fresh : Bytes → Reader
fresh input = record {
  input = input;
  byte_order = little;
  nano = false;
  link_type = 0;
  snap_len = 0;
  is_ng = false;
  count = 0;
  iface_map = [];
}

unfoldable pub new_reader : Bytes → Result Reader
new_reader input = do
  (buf, rest) ← read_full 4 input
  let magic = uint32 little buf 0
  let rd = fresh rest
  let classic =
      magic == magic_pcap_le
      || magic == magic_pcap_ns_le
      || magic == magic_pcap_be
      || magic == magic_pcap_ns_be
  let swapped = magic == 0x1a2b3c4d || magic == uint32 big (0x0a ∷ 0x0d ∷ 0x0d ∷ 0x0a ∷ []) 0
  if classic
      then init_classic rd magic
      else if magic == magic_pcapng
      then init_ng rd
      else if swapped
      then init_ng rd
      else fail (unsupported magic)

abbrev pub next_count : Reader → ℕ
next_count rd = (rd.count + 1) % 2 ^ 64

unfoldable pub next_classic : Reader → Result (Reader × Packet)
next_classic rd = do
  (hdr, s) ← read_full 16 rd.input
  let ts_sec = uint32 rd.byte_order hdr 0
  let ts_frac = uint32 rd.byte_order hdr 4
  let cap = uint32 rd.byte_order hdr 8
  if ltb max_block cap then fail (truncated (cap_len cap)) else do
    (contents, s') ← read_full cap s
    ok (
      record rd { input = s'; count = next_count rd },
      record {
        no = next_count rd;
        timestamp = if rd.nano then unix ts_sec ts_frac else unix ts_sec (ts_frac * 1000);
        cap_len = cap;
        orig_len = uint32 rd.byte_order hdr 12;
        contents = contents;
        link_type = rd.link_type;
      },
    )

-- What one block of a PCAPNG stream gives: nothing to return, or a packet.
pub data Block : Type 0 where
  skipped : Reader → Block
  packet : Reader → Packet → Block

unfoldable pub iface_link : List (ℕ × ℕ) → ℕ → ℕ → ℕ
iface_link [] id default = default
iface_link ((i, link) ∷ m) id default = if i == id then link else iface_link m id default

-- Interface Description Block.
unfoldable pub describe_interface : Reader → Bytes → Reader
describe_interface rd body =
    if ltb (length body) 4
    then rd
    else (let link = uint16 rd.byte_order body 0 in
        record rd {
          iface_map = rd.iface_map ++ (length rd.iface_map % 4294967296, link) ∷ [];
          link_type = link;
        })

-- Reads the packet that a slice holds, which panics where the slice is out of range.
abbrev emit : Reader → Packet → Option Bytes → Result Block
emit rd p none = fail panicked
emit rd p (some bytes) =
    ok (packet (record rd { count = next_count rd }) (record p { contents = bytes }))

-- Enhanced Packet Block. The sum `20+capLen` is one of 32-bit words, and wraps.
unfoldable pub enhanced_packet : Reader → Bytes → Result Block
enhanced_packet rd body =
    if ltb (length body) 20
    then ok (skipped rd)
    else (let order = rd.byte_order in
        let cap = uint32 order body 12 in
        let end = (20 + cap) % 4294967296 in
        let p : Packet = record {
          no = next_count rd;
          timestamp = unix_micros (4294967296 * uint32 order body 4 + uint32 order body 8);
          cap_len = cap;
          orig_len = uint32 order body 16;
          contents = [];
          link_type = iface_link rd.iface_map (uint32 order body 0) rd.link_type;
        } in
        if ltb (length body) end then fail (truncated epb_data) else emit rd p (slice body 20 end))

-- Simple Packet Block; `now` is what `time.Now()` returns.
unfoldable pub simple_packet : Instant → Reader → Bytes → Result Block
simple_packet now rd body =
    if ltb (length body) 4
    then ok (skipped rd)
    else (let cap = (length body - 4) % 4294967296 in
        let p : Packet = record {
          no = next_count rd;
          timestamp = now;
          cap_len = cap;
          orig_len = uint32 rd.byte_order body 0;
          contents = [];
          link_type = rd.link_type;
        } in
        emit rd p (slice body 4 (4 + cap)))

-- The switch on the block's type.
unfoldable pub read_block : Instant → Reader → ℕ → Bytes → Result Block
read_block now rd block_type body =
    if block_type == 1
    then ok (skipped (describe_interface rd body))
    else if block_type == 6
    then enhanced_packet rd body
    else if block_type == 2
    then simple_packet now rd body
    else ok (skipped rd)

-- One round of the loop of `nextNG`.
unfoldable pub next_block : Instant → Reader → Result Block
next_block now rd = do
  (bh, s) ← read_full 8 rd.input
  let len = uint32 rd.byte_order bh 4
  if ltb len 12 || ltb max_block len then fail (truncated (block_len len)) else do
    (body, s') ← read_full (len - 12) s
    (trail, s'') ← read_full 4 s'
    read_block now (record rd { input = s'' }) (uint32 rd.byte_order bh 0) body

-- `continue`, or return.
abbrev pub after_block :
    (Reader → Result (Reader × Packet)) → Result Block → Result (Reader × Packet)
after_block loop (fail e) = fail e
after_block loop (ok (skipped rd)) = loop rd
after_block loop (ok (packet rd p)) = ok (rd, p)

-- The loop of `nextNG`, on fuel.
unfoldable pub next_ng : ℕ → Instant → Reader → Result (Reader × Packet)
next_ng zero now rd = fail no_fuel
next_ng (suc fuel) now rd = after_block (next_ng fuel now) (next_block now rd)

unfoldable pub next : ℕ → Instant → Reader → Result (Reader × Packet)
next fuel now rd = if rd.is_ng then next_ng fuel now rd else next_classic rd

-- The round of `All` after a call of `Next`.
abbrev pub after_next :
    List Packet
    → (Packet → Reader → List Packet × Option Fault)
    → Result (Reader × Packet)
    → List Packet × Option Fault
after_next out loop (fail eof) = (out, none)
after_next out loop (fail e) = (out, some e)
after_next out loop (ok (rd, p)) = loop p rd

-- `All`: the packets read, and the error other than `io.EOF`, if there is one. `clock n` is the
-- time when the packet after n others is read.
unfoldable pub all : ℕ → (ℕ → Instant) → List Packet → Reader → List Packet × Option Fault
all zero clock out rd = (out, some no_fuel)
all (suc fuel) clock out rd =
    after_next out (λ p rd'. all fuel clock (out ++ p ∷ []) rd')
      (next (suc fuel) (clock rd.count) rd)

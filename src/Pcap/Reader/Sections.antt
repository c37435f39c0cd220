-- ===== src/Pcap/Reader/Sections.antt =====
-- internal/pcap/reader.go on a PCAPNG section in big-endian order, and on a classic file that ends
-- inside a record.
use flux_tap.Pcap.Reader.{Packet, Reader, all, next, new_reader, init_ng, next_classic, max_block}
use flux_tap.Pcap.Stream.{eof, truncated, shb_len, fail, read_full, read_full_eq, Instant}
use flux_tap.Prelude.Words.{Bytes, big, uint32, put_uint32}
use flux_tap.Prelude.{
  ℕ, suc, ◌*◌, ◌≤◌, ◌<◌, ◌≡◌, false, none, List, [], ◌++◌, arith, length, append-nil, ◌∙◌, sym,
}

-- A big-endian section header of 28 to 255 bytes is refused as truncated: its length, read in
-- little-endian order, is not below 28, so that the big-endian reading is never tried.
pub new_reader-big_section :
    (len : ℕ) (rest : Bytes)
    → 28 ≤ len
    → len < 256
    → new_reader (put_uint32 big 0x0a0d0d0a ++ (put_uint32 big len ++ rest))
      ≡ fail (truncated (shb_len (16777216 * len)))
unfolding new_reader init_ng put_uint32 uint32 read_full
new_reader-big_section len rest lo hi = ground arith

read_full-nil : (n : ℕ) → 0 < n → read_full n [] ≡ fail eof
unfolding read_full
read_full-nil n h = ground arith

next_classic-missing_packet :
    (rd : Reader) (hdr : Bytes)
    → rd.input ≡ hdr
    → length hdr ≡ 16
    → 0 < uint32 rd.byte_order hdr 8
    → uint32 rd.byte_order hdr 8 ≤ max_block
    → next_classic rd ≡ fail eof
unfolding next_classic
next_classic-missing_packet rd hdr e h lo hi = ground (
  arith,
  read_full_eq 16 rd.input hdr [] h (e ∙ sym (append-nil hdr)),
  read_full-nil (uint32 rd.byte_order hdr 8) lo,
)

-- A classic stream that ends right behind the header of a record, whose captured length is not 0
-- and within the limit, gives the packets before it and no error.
pub all-missing_packet :
    (fuel : ℕ) (clock : ℕ → Instant) (out : List Packet) (rd : Reader) (hdr : Bytes)
    → rd.is_ng ≡ false
    → rd.input ≡ hdr
    → length hdr ≡ 16
    → 0 < uint32 rd.byte_order hdr 8
    → uint32 rd.byte_order hdr 8 ≤ max_block
    → all (suc fuel) clock out rd ≡ (out, none)
unfolding all next
all-missing_packet fuel clock out rd hdr g e h lo hi =
    ground (arith, next_classic-missing_packet rd hdr e h lo hi)

-- ===== src/Pcap/Writer.antt =====
-- internal/pcap/writer.go: the writer of classic PCAP files.
pub mod RoundTrip
use flux_tap.Pcap.Reader.{link_type_ethernet, magic_pcap_le}
use flux_tap.Pcap.Stream.{Instant, seconds32, micros, is_zero}
use flux_tap.Prelude.Words.{Bytes, little, put_uint16, put_uint32}
use flux_tap.Prelude.{
  ℕ, ◌+◌, ◌%◌, ◌^◌, Bool, Option, none, some, [], ◌++◌, ◌==◌, if◌then◌else◌, length,
}

pub data WriteError : Type 0 where
  closed io_error : WriteError

-- `file` is what the open file holds, `none` once it is closed. The mutex is not modelled: the
-- calls happen one after the other.
pub record Writer : Type 0 where
  pub file : Option Bytes
  pub link_type : ℕ
  pub n : ℕ

-- The global header.
unfoldable pub file_header : ℕ → Bytes
file_header link =
    put_uint32 little magic_pcap_le
    ++ (put_uint16 little 2
        ++ (put_uint16 little 4
            ++ (put_uint32 little 0
                ++ (put_uint32 little 0 ++ (put_uint32 little 65535 ++ put_uint32 little link)))))

-- The record header of a packet: its instant, and its length twice.
unfoldable pub record_header : Instant → ℕ → Bytes
record_header ts len =
    put_uint32 little (seconds32 ts)
    ++ (put_uint32 little (micros ts) ++ (put_uint32 little len ++ put_uint32 little len))

-- `write file xs` is `f.Write(xs)` on a file of the operating system: what the file holds then,
-- and whether the call succeeded.
module _ (write : Bytes → Bytes → Bytes × Bool) where
  -- `CreateWriter`, once `os.Create` has given an empty file.
  unfoldable pub create_writer : ℕ → Option Writer
  create_writer link =
      let link_type = if link == 0 then link_type_ethernet else link in
      let (file, written) = write [] (file_header link_type) in
      if written then some (record { file = some file; link_type = link_type; n = 0 }) else none

  abbrev write_record : Bytes → Instant → Bytes → Writer → Writer × Option WriteError
  write_record file ts packet w =
      let (headed, header_done) = write file (record_header ts (length packet)) in
      let (whole, packet_done) = write headed packet in
      if header_done
      then (if packet_done
          then (record w { file = some whole; n = (w.n + 1) % 2 ^ 64 }, none)
          else (record w { file = some whole }, some io_error))
      else (record w { file = some headed }, some io_error)

  abbrev write_open : Option Bytes → Instant → Bytes → Writer → Writer × Option WriteError
  write_open none ts packet w = (w, some closed)
  write_open (some file) ts packet w = write_record file ts packet w

  -- `WritePacket`; `now` is what `time.Now()` returns.
  unfoldable pub write_packet : Instant → Instant → Bytes → Writer → Writer × Option WriteError
  write_packet now ts packet w = write_open w.file (if is_zero ts then now else ts) packet w

-- `Close`, whose error is that of the file.
unfoldable pub close : Writer → Writer
close w = record w { file = none }

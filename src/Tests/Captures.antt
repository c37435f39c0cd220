-- ===== src/Tests/Captures.antt =====
-- The readers and the writer of capture files on small ones.
use flux_tap.Pcap.Reader.Bounds.{IsByte, read_block-panicked_iff}
use flux_tap.Pcap.Reader.Progress.{AllReads, all-AllReads}
use flux_tap.Pcap.Reader.Sections.{new_reader-big_section, all-missing_packet}
use flux_tap.Pcap.Reader.{
  Packet, Reader, new_reader, init_classic, init_ng, next, next_classic, next_ng, next_block,
  read_block, enhanced_packet, simple_packet, describe_interface, all,
}
use flux_tap.Demo.Capture.Reads.{timed, write_demo_pcap-Reads}
use flux_tap.Demo.Capture.{demo_frames, write_demo_pcap}
use flux_tap.Pcap.Kernel.Rounds.{IsTapped, next_kernel-IsTapped}
use flux_tap.Pcap.Kernel.{Round, open_kernel, next_kernel}
use flux_tap.Text.{text}
use flux_tap.Pcap.Stream.{
  ok, fail, panicked, truncated, shb_len, read_full, Instant, since_epoch, unix, is_zero, seconds32,
  micros,
}
use flux_tap.Pcap.Writer.RoundTrip.{Capture, packets_of, write_all, all-write_all}
use flux_tap.Pcap.Writer.{Writer, create_writer, file_header, record_header, write_packet}
use flux_tap.Prelude.Words.{Bytes, little, big, uint16, uint32, put_uint16, put_uint32, slice}
use flux_tap.Prelude.{
  suc, length, ℕ, ◌<◌, ◌≤◌, ◌≡◌, ◌↔◌, refl, Bool, true, false, none, some, List, [], ◌∷◌, ◌++◌,
  arith, All,
}

program : Unit {0}
unfolding new_reader init_classic init_ng next next_classic next_ng next_block read_block
    enhanced_packet simple_packet describe_interface all read_full unix is_zero seconds32 micros
    create_writer file_header record_header write_packet uint16 uint32 put_uint16 put_uint32 slice
program = tt

abbrev start : Instant
start = since_epoch 0

abbrev clock : ℕ → Instant
clock i = start

-- A reader of a classic file, behind its header.
abbrev classic : Reader
classic = record {
  input = [];
  byte_order = little;
  nano = false;
  link_type = 1;
  snap_len = 65535;
  is_ng = false;
  count = 0;
  iface_map = [];
}

-- An Enhanced Packet Block that claims 2^32 - 1 captured bytes and holds none.
abbrev huge_block : Bytes
huge_block =
    0 ∷ 0 ∷ 0 ∷ 0 ∷ 0 ∷ 0 ∷ 0 ∷ 0 ∷ 0 ∷ 0 ∷ 0 ∷ 0 ∷ 255 ∷ 255 ∷ 255 ∷ 255 ∷ 0 ∷ 0 ∷ 0 ∷ 0 ∷ []

read_block-huge_block : read_block start classic 6 huge_block ≡ fail panicked
unfolding program
read_block-huge_block = refl

huge_block-IsByte : All IsByte huge_block
huge_block-IsByte = ground arith

read_block-panicked_iff_example :
    (read_block start classic 6 huge_block ≡ fail panicked)
    ↔ (◌≡◌ {A = ℕ} 6 6 × (20 ≤ 20) × (4294967276 ≤ uint32 little huge_block 12))
read_block-panicked_iff_example =
    read_block-panicked_iff start classic 6 huge_block huge_block-IsByte (omega arith)

-- A record of 2 bytes captured of 3, one second after the start.
abbrev one_record : Bytes
one_record = 1 ∷ 0 ∷ 0 ∷ 0 ∷ 0 ∷ 0 ∷ 0 ∷ 0 ∷ 2 ∷ 0 ∷ 0 ∷ 0 ∷ 3 ∷ 0 ∷ 0 ∷ 0 ∷ 7 ∷ 8 ∷ []

one_record-IsByte : All IsByte one_record
one_record-IsByte = ground arith

abbrev one_packet : Packet
one_packet = record {
  no = 1;
  timestamp = since_epoch 1000000000;
  cap_len = 2;
  orig_len = 3;
  contents = 7 ∷ 8 ∷ [];
  link_type = 1;
}

next-one_record :
    next 19 start (record classic { input = one_record })
    ≡ ok (record classic { count = 1 }, one_packet)
unfolding program
next-one_record = refl

all-AllReads_example : AllReads [] 0 (all 19 clock [] (record classic { input = one_record }))
all-AllReads_example =
    all-AllReads 19 clock [] (record classic { input = one_record }) one_record-IsByte (omega arith)

new_reader-big_section_example :
    new_reader (put_uint32 big 0x0a0d0d0a ++ (put_uint32 big 28 ++ []))
    ≡ fail (truncated (shb_len 469762048))
new_reader-big_section_example = new_reader-big_section 28 [] (omega arith) (omega arith)

abbrev lone_header : Bytes
lone_header = 1 ∷ 0 ∷ 0 ∷ 0 ∷ 0 ∷ 0 ∷ 0 ∷ 0 ∷ 2 ∷ 0 ∷ 0 ∷ 0 ∷ 3 ∷ 0 ∷ 0 ∷ 0 ∷ []

lone_header-length : (0 < uint32 little lone_header 8) × (uint32 little lone_header 8 ≤ 16777216)
unfolding program
lone_header-length = (omega arith, omega arith)

all-missing_packet_example : all 1 clock [] (record classic { input = lone_header }) ≡ ([], none)
all-missing_packet_example =
    all-missing_packet 0 clock [] (record classic { input = lone_header }) lone_header refl refl
      refl lone_header-length.0 lone_header-length.1

-- A file that appends what it is given.
abbrev append_bytes : Bytes → Bytes → Bytes × Bool
append_bytes file xs = (file ++ xs, true)

abbrev two_captures : List Capture
two_captures = (1500, 7 ∷ 8 ∷ []) ∷ (2000000, []) ∷ []

all-write_all_example :
    (w : Writer) × (create_writer append_bytes 0 ≡ some w)
    × (file : Bytes) × ((write_all append_bytes (λ file xs. refl) start two_captures w).file
        ≡ some file)
    × (rd : Reader) × (new_reader file ≡ ok rd)
    × (all 3 clock [] rd ≡ (packets_of w.link_type 0 two_captures, none))
all-write_all_example =
    all-write_all append_bytes (λ file xs. refl) start 0 two_captures clock (omega arith)
      (ground arith)

write_demo_pcap-Reads_example :
    (rd : Reader) × (new_reader (write_demo_pcap 1700000000000000000 60) ≡ ok rd)
    × (all (suc (length (demo_frames 60))) clock [] rd
        ≡ (packets_of 1 0 (timed 1700000000000000000 0 (demo_frames 60)), none))
    × (length (demo_frames 60) ≡ 60)
write_demo_pcap-Reads_example =
    write_demo_pcap-Reads 1700000000000000000 60 clock (omega arith) (omega arith)

-- An error, nothing, and then a packet while the tap is closed.
abbrev rounds : List Round
rounds =
    record { failed = true; bytes = []; closing = false }
    ∷ record { failed = false; bytes = []; closing = false }
    ∷ record { failed = false; bytes = 7 ∷ 8 ∷ []; closing = true }
    ∷ []

next_kernel-IsTapped_example :
    IsTapped rounds
      (open_kernel (text "eth0"))
      (next_kernel start rounds (open_kernel (text "eth0")))
next_kernel-IsTapped_example = next_kernel-IsTapped start rounds (open_kernel (text "eth0"))

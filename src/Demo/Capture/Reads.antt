-- ===== src/Demo/Capture/Reads.antt =====
-- The demo capture, read by internal/pcap/reader.go.
use flux_tap.Demo.Capture.{demo_frames, demo_header, demo_records, write_demo_pcap}
use flux_tap.Demo.Lengths.{Fits, demo_frames-Fits, length-demo_frames}
use flux_tap.Demo.Packets.{zero_bytes}
use flux_tap.Pcap.Reader.{Reader, new_reader, all}
use flux_tap.Pcap.Stream.{ok, Instant, since_epoch, second}
use flux_tap.Pcap.Writer.RoundTrip.{
  Capture, IsRecordable, body_bytes, packets_of, all-body_bytes, new_reader-file_header,
}
use flux_tap.Pcap.Writer.{file_header, record_header}
use flux_tap.Prelude.Words.{Bytes, put_uint16, put_uint32, little}
use flux_tap.Prelude.{
  ℕ, suc, ◌+◌, ◌-◌, ◌*◌, ◌%◌, ◌<◌, ◌≤◌, ◌≡◌, refl, sym, ap, ap₂, ◌∙◌, false, none, List, [], ◌∷◌,
  ◌++◌, arith, length, append_assoc, All,
}

-- The packets with their times.
abbrev pub timed : ℕ → ℕ → List Bytes → List Capture
timed ts n [] = []
timed ts n (f ∷ fs) = (ts, f) ∷ timed (ts + (5 + n % 17) * 1000000) (n + 1) fs

demo_records-body_bytes :
    (ts n : ℕ) (fs : List Bytes) → demo_records ts n fs ≡ body_bytes (timed ts n fs)
unfolding demo_records record_header
demo_records-body_bytes ts n [] = refl
demo_records-body_bytes ts n (f ∷ fs) =
    let later = demo_records-body_bytes (ts + (5 + n % 17) * 1000000) (n + 1) fs in
    ap (λ r. record_header (since_epoch ts) (length f) ++ (f ++ r)) later
    ∙ sym (append_assoc (record_header (since_epoch ts) (length f)) f _)

demo_header-file_header : demo_header ≡ file_header 1
unfolding demo_header file_header put_uint16 put_uint32 zero_bytes
demo_header-file_header = refl

length-timed : (ts n : ℕ) (fs : List Bytes) → length (timed ts n fs) ≡ length fs
length-timed ts n [] = refl
length-timed ts n (f ∷ fs) = ap suc (length-timed (ts + (5 + n % 17) * 1000000) (n + 1) fs)

timed-IsRecordable :
    (ts n : ℕ) (fs : List Bytes)
    → ts + 21000000 * length fs < 4294967296 * second
    → All Fits fs
    → All IsRecordable (timed ts n fs)
timed-IsRecordable ts n [] early fit = tt
timed-IsRecordable ts n (f ∷ fs) early fit = (
  (omega arith, fit.0),
  timed-IsRecordable (ts + (5 + n % 17) * 1000000) (n + 1) fs (omega arith) fit.1,
)

-- The file that `writeDemoPCAP` writes is opened by the reader and read whole: it gives the packets
-- that were made, in order, numbered from 1, each with its bytes and with its time cut to
-- microseconds, and no error. They are `count` packets, or 49 if it asks for fewer. It asks for at
-- most a million, and the time of the last is within the 32 bits of its seconds.
pub write_demo_pcap-Reads :
    (ts count : ℕ) (clock : ℕ → Instant)
    → count ≤ 1000000
    → ts + 21000000 * (49 + (count - 49)) < 4294967296 * second
    → (rd : Reader) × (new_reader (write_demo_pcap ts count) ≡ ok rd)
      × (all (suc (length (demo_frames count))) clock [] rd
          ≡ (packets_of 1 0 (timed ts 0 (demo_frames count)), none))
      × (length (demo_frames count) ≡ 49 + (count - 49))
unfolding write_demo_pcap
write_demo_pcap-Reads ts count clock few early =
    let cs = timed ts 0 (demo_frames count) in
    let rd : Reader = record {
      input = body_bytes cs;
      byte_order = little;
      nano = false;
      link_type = 1;
      snap_len = 65535;
      is_ng = false;
      count = 0;
      iface_map = [];
    } in
    (
      rd,
      ap new_reader
            (ap₂ ◌++◌ demo_header-file_header (demo_records-body_bytes ts 0 (demo_frames count)))
          ∙ new_reader-file_header 1 (body_bytes cs) (omega arith),
      all-body_bytes cs (suc (length (demo_frames count))) clock [] rd
          (timed-IsRecordable ts 0 (demo_frames count) (omega (arith, length-demo_frames count))
            (demo_frames-Fits count few))
          (omega (arith, length-timed ts 0 (demo_frames count))) refl refl refl refl,
      length-demo_frames count,
    )

-- ===== src/Pcap/Writer/RoundTrip.antt =====
-- Files written by internal/pcap/writer.go and read by internal/pcap/reader.go.
use flux_tap.Pcap.Reader.{
  Packet, Reader, new_reader, init_classic, next_classic, next, all, max_block,
}
use flux_tap.Pcap.Stream.{
  ok, fail, eof, read_full, read_full_eq, Instant, since_epoch, unix, seconds32, micros, is_zero,
  second,
}
use flux_tap.Pcap.Writer.{Writer, file_header, record_header, create_writer, write_packet}
use flux_tap.Prelude.Words.{Bytes, little, uint32, put_uint16, put_uint32}
use flux_tap.Prelude.{
  ℕ, zero, suc, ◌+◌, ◌-◌, ◌*◌, ◌%◌, ◌^◌, ◌≤◌, ◌<◌, ◌≡◌, refl, Bool, true, false, none, some, List,
  [], ◌∷◌, ◌++◌, arith, ◌==◌, if◌then◌else◌, length, append-nil, append_assoc, All, ◌∙◌, ap,
}

-- An instant and the packet captured then.
abbrev pub Capture : Type 0
Capture = ℕ × Bytes

-- A capture that a record can hold: 32-bit seconds, at most 16 MiB.
abbrev pub IsRecordable : Capture → Type 0
IsRecordable (ns, packet) = (ns < 4294967296 * second) × (length packet ≤ max_block)

abbrev pub record_bytes : Capture → Bytes
record_bytes (ns, packet) = record_header (since_epoch ns) (length packet) ++ packet

abbrev pub body_bytes : List Capture → Bytes
body_bytes [] = []
body_bytes (c ∷ cs) = record_bytes c ++ body_bytes cs

-- The packet that the reader makes of a capture, after `count` others.
abbrev pub packet_of : ℕ → ℕ → Capture → Packet
packet_of link count (ns, packet) = record {
  no = (count + 1) % 2 ^ 64;
  timestamp = since_epoch (ns - ns % 1000);
  cap_len = length packet;
  orig_len = length packet;
  contents = packet;
  link_type = link;
}

abbrev pub packets_of : ℕ → ℕ → List Capture → List Packet
packets_of link count [] = []
packets_of link count (c ∷ cs) = packet_of link count c ∷ packets_of link ((count + 1) % 2 ^ 64) cs

header-sec :
    (ts : Instant) (len : ℕ) → uint32 little (record_header ts len) 0 ≡ seconds32 ts % 4294967296
unfolding record_header put_uint32 uint32
header-sec ts len = omega arith

header-micros :
    (ts : Instant) (len : ℕ) → uint32 little (record_header ts len) 4 ≡ micros ts % 4294967296
unfolding record_header put_uint32 uint32
header-micros ts len = omega arith

header-cap : (ts : Instant) (len : ℕ) → uint32 little (record_header ts len) 8 ≡ len % 4294967296
unfolding record_header put_uint32 uint32
header-cap ts len = omega arith

header-orig : (ts : Instant) (len : ℕ) → uint32 little (record_header ts len) 12 ≡ len % 4294967296
unfolding record_header put_uint32 uint32
header-orig ts len = omega arith

length-header : (ts : Instant) (len : ℕ) → length (record_header ts len) ≡ 16
unfolding record_header put_uint32
length-header ts len = refl

-- A record whose parts are known is read as the packet that they make.
next_classic-parts :
    (rd : Reader) (hdr contents rest : Bytes)
    → rd.byte_order ≡ little
    → rd.nano ≡ false
    → length hdr ≡ 16
    → uint32 little hdr 8 ≡ length contents
    → length contents ≤ max_block
    → rd.input ≡ hdr ++ (contents ++ rest)
    → next_classic rd
      ≡ ok (
        record rd { input = rest; count = (rd.count + 1) % 2 ^ 64 },
        record {
          no = (rd.count + 1) % 2 ^ 64;
          timestamp = unix (uint32 little hdr 0) (uint32 little hdr 4 * 1000);
          cap_len = length contents;
          orig_len = uint32 little hdr 12;
          contents = contents;
          link_type = rd.link_type;
        },
      )
unfolding next_classic
next_classic-parts rd hdr contents rest o n h c m e = ground (
  arith,
  read_full_eq 16 rd.input hdr (contents ++ rest) h e,
  read_full_eq (length contents) (contents ++ rest) contents rest refl refl,
)

unix-since_epoch :
    (ns : ℕ)
    → ns < 4294967296 * second
    → unix (seconds32 (since_epoch ns) % 4294967296) (micros (since_epoch ns) % 4294967296 * 1000)
      ≡ since_epoch (ns - ns % 1000)
unfolding unix seconds32 micros
unix-since_epoch ns h = ap since_epoch (omega arith)

next-record :
    (rd : Reader) (ns : ℕ) (packet rest : Bytes)
    → IsRecordable (ns, packet)
    → rd.byte_order ≡ little
    → rd.nano ≡ false
    → rd.input ≡ record_bytes (ns, packet) ++ rest
    → next_classic rd
      ≡ ok (
        record rd { input = rest; count = (rd.count + 1) % 2 ^ 64 },
        packet_of rd.link_type rd.count (ns, packet),
      )
next-record rd ns packet rest r o n e =
    let ts = since_epoch ns in
    let len : length packet % 4294967296 ≡ length packet = omega arith in
    next_classic-parts rd (record_header ts (length packet)) packet rest o n
      (length-header ts (length packet)) (header-cap ts (length packet) ∙ len) r.1
      (e ∙ append_assoc (record_header ts (length packet)) packet rest)
    ∙ rw (header-sec, header-micros, header-orig, len, unix-since_epoch ns r.0)

next_classic-empty : (rd : Reader) → rd.input ≡ [] → next_classic rd ≡ fail eof
unfolding next_classic read_full
next_classic-empty rd e = ground arith

all-next :
    (fuel : ℕ) (clock : ℕ → Instant) (out : List Packet) (rd rd' : Reader) (p : Packet)
    → rd.is_ng ≡ false
    → next_classic rd ≡ ok (rd', p)
    → all (suc fuel) clock out rd ≡ all fuel clock (out ++ p ∷ []) rd'
unfolding all next
all-next fuel clock out rd rd' p g h = ground arith

-- The reader of a file of records, from any point on.
pub all-body_bytes :
    (cs : List Capture) (fuel : ℕ) (clock : ℕ → Instant) (out : List Packet) (rd : Reader)
    → All IsRecordable cs
    → length cs < fuel
    → rd.byte_order ≡ little
    → rd.nano ≡ false
    → rd.is_ng ≡ false
    → rd.input ≡ body_bytes cs
    → all fuel clock out rd ≡ (out ++ packets_of rd.link_type rd.count cs, none)
unfolding all next
all-body_bytes cs zero clock out rd r f o n g e = absurd (omega arith)
all-body_bytes [] (suc fuel) clock out rd r f o n g e =
    ground (arith, next_classic-empty rd e, append-nil out)
all-body_bytes ((ns, packet) ∷ cs) (suc fuel) clock out rd r f o n g e =
    all-next fuel clock out rd _ _ g (next-record rd ns packet (body_bytes cs) r.0 o n e)
    ∙ all-body_bytes cs fuel clock (out ++ packet_of rd.link_type rd.count (ns, packet) ∷ [])
        (record rd { input = body_bytes cs; count = (rd.count + 1) % 2 ^ 64 }) r.1 (omega arith) o n
        g refl
    ∙ ap (λ ps. (ps, none)) (append_assoc out _ _)

-- The global header is read as that of a little-endian microsecond file.
pub new_reader-file_header :
    (link : ℕ) (rest : Bytes)
    → link < 4294967296
    → new_reader (file_header link ++ rest)
      ≡ ok (record {
        input = rest;
        byte_order = little;
        nano = false;
        link_type = link;
        snap_len = 65535;
        is_ng = false;
        count = 0;
        iface_map = [];
      })
unfolding new_reader init_classic file_header put_uint32 put_uint16 uint32 read_full
new_reader-file_header link rest h = ground arith

module _ (write : Bytes → Bytes → Bytes × Bool)
    (appends : (f xs : Bytes) → write f xs ≡ (f ++ xs, true)) (now : Instant) where
  -- Writes each capture in turn.
  abbrev pub write_all : List Capture → Writer → Writer
  write_all [] w = w
  write_all (c ∷ cs) w = write_all cs (write_packet write now (since_epoch c.0) c.1 w).0

  write_packet-record :
      (c : Capture) (w : Writer) (file : Bytes)
      → w.file ≡ some file
      → write_packet write now (since_epoch c.0) c.1 w
        ≡ (record w { file = some (file ++ record_bytes c); n = (w.n + 1) % 2 ^ 64 }, none)
  unfolding write_packet is_zero
  write_packet-record (ns, packet) w file e =
      let hdr = record_header (since_epoch ns) (length packet) in
      ground (arith, appends file hdr, appends (file ++ hdr) packet, append_assoc file hdr packet)

  write_all-body_bytes :
      (cs : List Capture) (w : Writer) (file : Bytes)
      → w.file ≡ some file
      → (write_all cs w).file ≡ some (file ++ body_bytes cs)
  write_all-body_bytes [] w file e = rw append-nil e
  write_all-body_bytes (c ∷ cs) w file e =
      rw (write_packet-record c w file e, write_all)
        (write_all-body_bytes cs
            (record w { file = some (file ++ record_bytes c); n = (w.n + 1) % 2 ^ 64 })
            (file ++ record_bytes c) refl
          ∙ rw append_assoc)

  create_writer-file_header :
      (link : ℕ)
      → create_writer write link
        ≡ some (record {
          file = some (file_header (if link == 0 then 1 else link));
          link_type = if link == 0 then 1 else link;
          n = 0;
        })
  unfolding create_writer
  create_writer-file_header link = rw (appends [] (file_header (if link == 0 then 1 else link)))

  -- A file written record by record is read back whole: the reader gives every capture in order,
  -- numbered from 1, with its bytes, its length and the link type of the file (Ethernet for 0),
  -- its instant cut to microseconds, and ends with no error. The captures are recordable, the
  -- link type has 32 bits, and the file system appends what it is given.
  pub all-write_all :
      (link : ℕ) (cs : List Capture) (clock : ℕ → Instant)
      → link < 4294967296
      → All IsRecordable cs
      → (w : Writer) × (create_writer write link ≡ some w)
        × (file : Bytes) × ((write_all cs w).file ≡ some file)
        × (rd : Reader) × (new_reader file ≡ ok rd)
        × (all (suc (length cs)) clock [] rd ≡ (packets_of w.link_type 0 cs, none))
  all-write_all link cs clock h r =
      let l = if link == 0 then 1 else link in
      let small : l < 4294967296 = ground arith in
      (
        record { file = some (file_header l); link_type = l; n = 0 },
        create_writer-file_header link,
        file_header l ++ body_bytes cs,
        write_all-body_bytes cs _ (file_header l) refl,
        record {
          input = body_bytes cs;
          byte_order = little;
          nano = false;
          link_type = l;
          snap_len = 65535;
          is_ng = false;
          count = 0;
          iface_map = [];
        },
        new_reader-file_header l (body_bytes cs) small,
        all-body_bytes cs (suc (length cs)) clock [] _ r (omega arith) refl refl refl refl,
      )

-- ===== src/Pcap/Kernel.antt =====
-- internal/pcap/afpacket.go: a capture from a socket of the kernel. What `Recvfrom` gives in each
-- round is a parameter; opening the socket is not modelled.
pub mod Rounds
use flux_tap.Pcap.Reader.{Packet, link_type_ethernet}
use flux_tap.Pcap.Stream.{Instant}
use flux_tap.Prelude.Words.{Bytes}
use flux_tap.Prelude.{
  ℕ, ◌+◌, ◌*◌, ◌/◌, ◌%◌, ◌^◌, Bool, true, false, List, [], ◌∷◌, ◌++◌, if◌then◌else◌, length,
}
use flux_tap.Text.{text}

pub record KernelTap : Type 0 where
  pub iface : Bytes
  pub link_type : ℕ
  pub has_fd : Bool
  pub closed : Bool
  pub seq : ℕ

-- What `OpenKernel` gives once the socket is bound.
unfoldable pub open_kernel : Bytes → KernelTap
open_kernel iface = record {
  iface = iface;
  link_type = link_type_ethernet;
  has_fd = true;
  closed = false;
  seq = 0;
}

-- `Iface`.
unfoldable pub iface_name : KernelTap → Bytes
iface_name k = k.iface ++ text " [kernel]"

-- `Close`, and whether the socket is closed by it.
unfoldable pub close_kernel : KernelTap → KernelTap × Bool
close_kernel k =
    if k.closed then (k, false) else (record k { closed = true; has_fd = false }, k.has_fd)

-- A call of `Recvfrom`: bytes or an error, and whether `Close` was called meanwhile.
pub record Round : Type 0 where
  pub failed : Bool
  pub bytes : Bytes
  pub closing : Bool

-- What `Next` has come to after some rounds: it still waits, it was closed, or it has a packet.
pub data Tapped : Type 0 where
  waits : KernelTap → Tapped
  was_closed : Tapped
  gives : Packet → KernelTap → Tapped

-- The tap behind a round.
abbrev pub behind_round : Round → KernelTap → KernelTap
behind_round r k = if r.closing then (close_kernel k).0 else k

-- A packet of what was received, which is not empty; the time is that of `time.Now()`.
unfoldable pub give_packet : Instant → Bytes → KernelTap → Tapped
give_packet now bytes k =
    let seq = (k.seq + 1) % 2 ^ 64 in
    gives
      (record {
        no = seq;
        timestamp = now;
        cap_len = length bytes % 2 ^ 32;
        orig_len = length bytes % 2 ^ 32;
        contents = bytes;
        link_type = k.link_type;
      })
      (record k { seq = seq })

-- The rest of a round, where `later` is the next one.
abbrev pub received : Instant → Bytes → KernelTap → Tapped → Tapped
received now [] k later = later
received now (b ∷ bytes) k later = give_packet now (b ∷ bytes) k

-- `Next`. An error is retried, unless the tap is closed.
unfoldable pub next_kernel : Instant → List Round → KernelTap → Tapped
unfolding close_kernel give_packet
next_kernel now [] k = if k.closed then was_closed else waits k
next_kernel now (r ∷ rs) k =
    let k' = behind_round r k in
    let later = next_kernel now rs k' in
    let got = received now r.bytes k' later in
    if k.closed then was_closed else if r.failed then later else got

-- `htons`.
unfoldable pub htons : ℕ → ℕ
htons v = v * 256 % 65536 + v / 256

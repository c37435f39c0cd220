-- ===== src/Decode/BadOptions.antt =====
-- Where a packet holds the TCP options on which the dissectors of internal/decode panic: the walk
-- from the link layer to a TCP header, by the headers' own fields.
use flux_tap.Decode.Frame.{u16}
use flux_tap.Decode.Transport.Options.{ReachesScale}
use flux_tap.Prelude.Words.{Bytes, index, slice}
use flux_tap.Prelude.{ℕ, ◌+◌, ◌*◌, ◌/◌, ◌%◌, ◌≤◌, ◌<◌, ◌≡◌, ◌⊎◌, some, length}

-- The length of the TCP header at an offset, as its data offset says.
abbrev pub tcp_length : Bytes → ℕ → ℕ
tcp_length b offset = u16 b (offset + 12) / 4096 * 4

-- The TCP header at an offset has options, they end in the packet, and the walk over them comes to a
-- window scale of length 2 that ends them.
pub record HasBadTcp (b : Bytes) (offset : ℕ) : Type 0 where
  pub options : Bytes
  pub longer : 20 < tcp_length b offset
  pub fits : offset + tcp_length b offset ≤ length b
  pub held : slice b (offset + 20) (offset + tcp_length b offset) ≡ some options
  pub reaches : ReachesScale options 0

-- The IPv4 header at an offset, of 20 bytes or more, says that TCP is behind it.
pub record HasBadIpv4 (b : Bytes) (offset : ℕ) : Type 0 where
  pub ver_ihl : ℕ
  pub first : index b offset ≡ some ver_ihl
  pub wide : 20 ≤ ver_ihl % 16 * 4
  pub protocol : index b (offset + 9) ≡ some 6
  pub tcp : HasBadTcp b (offset + ver_ihl % 16 * 4)

-- The IPv6 header at an offset does.
pub record HasBadIpv6 (b : Bytes) (offset : ℕ) : Type 0 where
  pub next : index b (offset + 6) ≡ some 6
  pub tcp : HasBadTcp b (offset + 40)

-- What is at an offset is of a type of Ethernet.
pub data HasBadNetwork (b : Bytes) (offset : ℕ) : ℕ → Type 0 where
  ipv4 : HasBadIpv4 b offset → HasBadNetwork b offset 0x0800
  ipv6 : HasBadIpv6 b offset → HasBadNetwork b offset 0x86dd

-- The same behind any number of VLAN tags.
pub data HasBadTagged (b : Bytes) : ℕ → ℕ → Type 0 where
  bare : {offset etype : ℕ} → HasBadNetwork b offset etype → HasBadTagged b offset etype
  tag :
      {offset etype : ℕ}
      → (etype ≡ 0x8100) ⊎ (etype ≡ 0x88a8)
      → offset + 4 ≤ length b
      → HasBadTagged b (offset + 4) (u16 b (offset + 2))
      → HasBadTagged b offset etype

-- A packet of a link type holds them.
pub data HasBadOptions (b : Bytes) : ℕ → Type 0 where
  ethernet :
      {link_type : ℕ}
      → (link_type ≡ 1) ⊎ (link_type ≡ 0)
      → HasBadTagged b 14 (u16 b 12)
      → HasBadOptions b link_type
  linux_sll : HasBadNetwork b 16 (u16 b 14) → HasBadOptions b 113
  linux_sll2 : HasBadNetwork b 20 (u16 b 0) → HasBadOptions b 276
  raw_ipv4 :
      (first : ℕ) → index b 0 ≡ some first → first / 16 ≡ 4 → HasBadIpv4 b 0 → HasBadOptions b 101
  raw_ipv6 :
      (first : ℕ) → index b 0 ≡ some first → first / 16 ≡ 6 → HasBadIpv6 b 0 → HasBadOptions b 101

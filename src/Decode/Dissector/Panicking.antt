-- ===== src/Decode/Dissector/Panicking.antt =====
-- The packets on which `Dissect` of internal/decode/frame.go panics.
use flux_tap.Decode.BadOptions.{
  HasBadTcp, tcp_length, HasBadIpv4, HasBadIpv6, HasBadNetwork, ipv4, ipv6, HasBadTagged, bare, tag,
  HasBadOptions, ethernet, linux_sll, linux_sll2, raw_ipv4, raw_ipv6,
}
use flux_tap.Decode.Dissected.{HasLayersIn}
use flux_tap.Decode.Dissector.{
  Dissector, dissect_raw, dissect_link, dissect, dissect-Runs, start_frame,
}
use flux_tap.Decode.Ethernet.{
  vlan_tags, dissect_ethertype, dissect_ethernet, dissect_linux_sll, dissect_linux_sll2,
}
use flux_tap.Decode.Frame.{Frame, u16}
use flux_tap.Decode.Ip.{dispatch_ip, dissect_ipv4, dissect_ipv6}
use flux_tap.Decode.Tls.{Md5}
use flux_tap.Decode.Transport.Options.{parse_tcp_options-none_iff}
use flux_tap.Decode.Transport.{dissect_tcp}
use flux_tap.Pcap.Stream.{Instant}
use flux_tap.Prelude.Panics.{◌>>=◌, Runs}
use flux_tap.Prelude.Words.{Bytes, index, slice}
use flux_tap.Prelude.{
  ℕ, zero, suc, ◌+◌, ◌-◌, ◌*◌, ◌%◌, ◌≤◌, ◌≡◌, refl, true, false, ◌||◌, Option, none, some, arith,
  ltb, ◌==◌, if◌then◌else◌, length, lt→ltb, le→ltb,
}

-- A panic behind a read is a panic.
bind_none :
    {A B : Type 0} (m : Option A) (k : A → Option B) → ((a : A) → k a ≡ none) → (m >>= k) ≡ none
bind_none none k h = refl
bind_none (some a) k h = h a

module _ (md5 : Md5) (b : Bytes) where
  dissect_tcp-panics :
      (f : Frame) (offset : ℕ) → HasBadTcp b offset → dissect_tcp md5 f b offset ≡ none
  unfolding dissect_tcp
  dissect_tcp-panics f offset bad =
      let said = tcp_length b offset in
      let long : ltb (length b - offset) 20 ≡ false =
        le→ltb (length b - offset) 20 (omega (arith, bad.longer, bad.fits)) in
      let whole : (if ltb said 20 || ltb (length b) (offset + said) then 20 else said) ≡ said =
        ground (arith, bad.longer, bad.fits) in
      rw long (
        rw whole (
          rw (lt→ltb 20 said bad.longer)
            (rw bad.held (rw ((parse_tcp_options-none_iff bad.options).1 bad.reaches) refl))))

  dissect_ipv4-panics :
      (f : Frame) (offset : ℕ) → HasBadIpv4 b offset → dissect_ipv4 md5 f b offset ≡ none
  unfolding dissect_ipv4 dispatch_ip
  dissect_ipv4-panics f offset bad =
      let ihl = bad.ver_ihl % 16 * 4 in
      let inside : offset + ihl ≤ length b = omega (arith, bad.tcp.fits) in
      let long : ltb (length b - offset) 20 ≡ false =
        le→ltb (length b - offset) 20 (omega (arith, bad.wide)) in
      let fits : (ltb ihl 20 || ltb (length b) (offset + ihl)) ≡ false = ground (arith, bad.wide) in
      rw long (
        rw bad.first (
          rw fits (
            bind_none (index b (offset + 1)) _ λ tos. bind_none (index b (offset + 8)) _ λ ttl.
              rw bad.protocol (
                bind_none (slice b (offset + 12) (offset + 16)) _ λ src.
                  bind_none (slice b (offset + 16) (offset + 20)) _
                    λ dst. dissect_tcp-panics _ (offset + ihl) bad.tcp))))

  dissect_ipv6-panics :
      (f : Frame) (offset : ℕ) → HasBadIpv6 b offset → dissect_ipv6 md5 f b offset ≡ none
  unfolding dissect_ipv6 dispatch_ip
  dissect_ipv6-panics f offset bad =
      let long : ltb (length b - offset) 40 ≡ false =
        le→ltb (length b - offset) 40 (omega (arith, bad.tcp.fits)) in
      rw long (
        rw bad.next (
          bind_none (index b (offset + 7)) _ λ hop.
            bind_none (slice b (offset + 8) (offset + 24)) _ λ src.
              bind_none (slice b (offset + 24) (offset + 40)) _
                λ dst. dissect_tcp-panics _ (offset + 40) bad.tcp))

  untagged-panics :
      {offset etype : ℕ} (fuel : ℕ) (f : Frame)
      → HasBadNetwork b offset etype
      → (vlan_tags (suc fuel) f b offset etype >>= dissect_ethertype md5 b) ≡ none
  unfolding vlan_tags dissect_ethertype
  untagged-panics fuel f (ipv4 bad) = dissect_ipv4-panics f _ bad
  untagged-panics fuel f (ipv6 bad) = dissect_ipv6-panics f _ bad

  vlan_tags-panics :
      (fuel : ℕ) (f : Frame) (offset etype : ℕ)
      → HasBadTagged b offset etype
      → (vlan_tags fuel f b offset etype >>= dissect_ethertype md5 b) ≡ none
  unfolding vlan_tags
  vlan_tags-panics zero f offset etype bad = refl
  vlan_tags-panics (suc fuel) f offset etype (bare bad) = untagged-panics fuel f bad
  vlan_tags-panics (suc fuel) f offset etype (tag vlan fits bad) =
      let is_vlan : (etype == 0x8100 || etype == 0x88a8) ≡ true = ground arith in
      rw is_vlan (
        rw (le→ltb (length b - offset) 4 (omega arith))
          (vlan_tags-panics fuel _ (offset + 4) (u16 b (offset + 2)) bad))

  tagged-long : {offset etype : ℕ} → HasBadTagged b offset etype → offset ≤ length b
  tagged-long (bare (ipv4 bad)) = omega (arith, bad.tcp.fits)
  tagged-long (bare (ipv6 bad)) = omega (arith, bad.tcp.fits)
  tagged-long (tag vlan fits bad) = omega arith

  ethernet-panics : (f : Frame) → HasBadTagged b 14 (u16 b 12) → dissect_ethernet md5 f b 0 ≡ none
  unfolding dissect_ethernet
  ethernet-panics f bad = rw (le→ltb (length b - 0) 14 (omega (arith, tagged-long bad))) (
      bind_none (slice b 0 6) _ λ dst.
        bind_none (slice b 6 12) _ λ src. vlan_tags-panics (suc (length b)) _ 14 (u16 b 12) bad)

  linux_sll-panics :
      {etype : ℕ} (f : Frame)
      → u16 b 14 ≡ etype
      → HasBadNetwork b 16 etype
      → dissect_linux_sll md5 f b 0 ≡ none
  unfolding dissect_linux_sll
  linux_sll-panics f e (ipv4 bad) =
      rw (le→ltb (length b - 0) 16 (omega (arith, bad.tcp.fits)))
        (rw e (dissect_ipv4-panics _ 16 bad))
  linux_sll-panics f e (ipv6 bad) =
      rw (le→ltb (length b - 0) 16 (omega (arith, bad.tcp.fits)))
        (rw e (dissect_ipv6-panics _ 16 bad))

  linux_sll2-panics :
      {etype : ℕ} (f : Frame)
      → u16 b 0 ≡ etype
      → HasBadNetwork b 20 etype
      → dissect_linux_sll2 md5 f b 0 ≡ none
  unfolding dissect_linux_sll2
  linux_sll2-panics f e (ipv4 bad) = rw (le→ltb (length b - 0) 20 (omega (arith, bad.tcp.fits))) (
      rw e (
        bind_none (index b 10) _
          λ kind. bind_none (index b 11) _ λ wide. dissect_ipv4-panics _ 20 bad))
  linux_sll2-panics f e (ipv6 bad) = rw (le→ltb (length b - 0) 20 (omega (arith, bad.tcp.fits))) (
      rw e (
        bind_none (index b 10) _
          λ kind. bind_none (index b 11) _ λ wide. dissect_ipv6-panics _ 20 bad))

  raw-panics : (f : Frame) → HasBadOptions b 101 → dissect_raw md5 f b ≡ none
  unfolding dissect_raw
  raw-panics f (ethernet link bad) = absurd (ground arith)
  raw-panics f (raw_ipv4 first e four bad) =
      rw (lt→ltb 0 (length b) (omega (arith, bad.tcp.fits, bad.tcp.longer)))
        (rw e (rw four (dissect_ipv4-panics f 0 bad)))
  raw-panics f (raw_ipv6 first e six bad) =
      rw (lt→ltb 0 (length b) (omega (arith, bad.tcp.fits, bad.tcp.longer)))
        (rw e (rw six (dissect_ipv6-panics f 0 bad)))

  link-panics :
      {link_type : ℕ} (f : Frame)
      → HasBadOptions b link_type
      → dissect_link md5 f link_type b ≡ none
  unfolding dissect_link
  link-panics {link_type} f (ethernet link bad) =
      let is_ethernet : (link_type == 1 || link_type == 0) ≡ true = ground arith in
      rw is_ethernet (ethernet-panics f bad)
  link-panics f (linux_sll bad) = linux_sll-panics f refl bad
  link-panics f (linux_sll2 bad) = linux_sll2-panics f refl bad
  link-panics f (raw_ipv4 first e four bad) = raw-panics f (raw_ipv4 first e four bad)
  link-panics f (raw_ipv6 first e six bad) = raw-panics f (raw_ipv6 first e six bad)

-- What `Dissect` gives: a frame whose layers lie in the packet, or a panic; and it panics on every
-- packet that holds bad options.
pub record IsExact (b : Bytes) (link_type : ℕ) (r : Option Frame) : Type 0 where
  pub runs : Runs (HasBadOptions b link_type) (HasLayersIn (length b)) r
  pub panics : HasBadOptions b link_type → r ≡ none

-- Whatever the packet, its link type and the settings, `Dissect` returns a frame whose layers all lie
-- in the packet, or panics. It panics exactly if the walk from the link layer, by the fields of the
-- packet's own headers, comes to a TCP header whose options are such that `parseTCPOptions` panics:
-- the walk over them comes to a window scale option of length 2 that ends them.
pub dissect-IsExact :
    (md5 : Md5) (d : Dissector) (number : ℕ) (ts : Instant) (cap_len orig_len link_type : ℕ)
    (b : Bytes)
    → IsExact b link_type (dissect md5 d number ts cap_len orig_len link_type b)
unfolding dissect
dissect-IsExact md5 d number ts cap_len orig_len link_type b = record {
  runs = dissect-Runs md5 d number ts cap_len orig_len link_type b;
  panics = λ bad. rw (link-panics md5 b (start_frame d number ts cap_len orig_len b) bad) refl;
}

-- ===== src/Decode/Ip.antt =====
-- internal/decode/ip.go: IPv4, IPv6 and ICMP.
pub mod Safety
use flux_tap.Decode.Frame.{Frame, add_layer, set_meta, set_protocol, set_endpoints, u16, u32}
use flux_tap.Decode.Tls.{Md5}
use flux_tap.Decode.Transport.{dissect_tcp, dissect_udp}
use flux_tap.Prelude.Panics.{◌>>=◌}
use flux_tap.Prelude.Words.{Bytes, index, slice}
use flux_tap.Prelude.{
  ℕ, ◌+◌, ◌-◌, ◌*◌, ◌/◌, ◌%◌, ◌^◌, ◌||◌, Option, some, [], ◌∷◌, ◌++◌, ltb, ◌==◌, if◌then◌else◌,
  length,
}
use flux_tap.Text.Address.{ip_string}
use flux_tap.Text.Dict.{Dict}
use flux_tap.Text.{text, decimal, hex, hex_padded}

unfoldable pub ip_proto_name : ℕ → Bytes
ip_proto_name p =
    if p == 1
    then text "ICMP"
    else if p == 2
    then text "IGMP"
    else if p == 6
    then text "TCP"
    else if p == 17
    then text "UDP"
    else if p == 41
    then text "IPv6"
    else if p == 47
    then text "GRE"
    else if p == 50
    then text "ESP"
    else if p == 51
    then text "AH"
    else if p == 58
    then text "ICMPv6"
    else if p == 89
    then text "OSPF"
    else if p == 132
    then text "SCTP"
    else text "IPPROTO_" ++ decimal p

unfoldable pub icmp_type_name : ℕ → Bytes
icmp_type_name t =
    if t == 0
    then text "Echo Reply"
    else if t == 3
    then text "Destination Unreachable"
    else if t == 5
    then text "Redirect"
    else if t == 8
    then text "Echo Request"
    else if t == 11
    then text "Time Exceeded"
    else text "type-" ++ decimal t

unfoldable pub dissect_icmp : Frame → Bytes → ℕ → Option (Frame × ℕ)
dissect_icmp f b offset = if ltb (length b - offset) 8 then some (f, offset) else do
  typ ← index b offset
  code ← index b (offset + 1)
  let summary = icmp_type_name typ ++ (text " code=" ++ decimal code)
  let fields : Dict Bytes =
      (text "type", decimal typ ++ (text " (" ++ (icmp_type_name typ ++ text ")")))
      ∷ (text "code", decimal code)
      ∷ (text "checksum", text "0x" ++ hex_padded 4 (u16 b (offset + 2)))
      ∷ []
  let g = add_layer f (text "ICMP") summary fields offset (length b - offset) (text "#fb7185")
  some (set_protocol (text "ICMP") summary g, offset + 8)

unfoldable pub icmpv6_type_name : ℕ → Bytes
icmpv6_type_name t =
    if t == 128
    then text "Echo Request"
    else if t == 129
    then text "Echo Reply"
    else if t == 133
    then text "Router Solicitation"
    else if t == 134
    then text "Router Advertisement"
    else if t == 135
    then text "Neighbor Solicitation"
    else if t == 136
    then text "Neighbor Advertisement"
    else text "type=" ++ decimal t

unfoldable pub dissect_icmpv6 : Frame → Bytes → ℕ → Option (Frame × ℕ)
dissect_icmpv6 f b offset = if ltb (length b - offset) 4 then some (f, offset) else do
  typ ← index b offset
  code ← index b (offset + 1)
  let summary = icmpv6_type_name typ ++ (text " code=" ++ decimal code)
  let fields : Dict Bytes = (text "type", decimal typ) ∷ (text "code", decimal code) ∷ []
  let g = add_layer f (text "ICMPv6") summary fields offset (length b - offset) (text "#fb7185")
  some (set_protocol (text "ICMPv6") summary g, offset + 4)

-- The rest of the packet as one layer, named for its protocol.
abbrev pub rest_layer : Frame → Bytes → Bytes → Bytes → ℕ → Bytes → Frame × ℕ
rest_layer f name summary b offset color = (
  record (add_layer f name summary [] offset (length b - offset) color) { protocol = name },
  offset,
)

module _ (md5 : Md5) where
  unfoldable pub dispatch_ip : Frame → Bytes → ℕ → ℕ → Option (Frame × ℕ)
  dispatch_ip f b offset proto =
      if proto == 1
      then dissect_icmp f b offset
      else if proto == 58
      then dissect_icmpv6 f b offset
      else if proto == 6
      then dissect_tcp md5 f b offset
      else if proto == 17
      then dissect_udp f b offset
      else if proto == 47
      then some (
          rest_layer f (text "GRE") (text "Generic Routing Encapsulation") b offset
            (text "#94a3b8"))
      else if proto == 50
      then some (rest_layer f (text "ESP") (text "IPsec ESP") b offset (text "#f472b6"))
      else some (
          rest_layer f (ip_proto_name proto) (decimal (length b - offset) ++ text " bytes") b offset
            (text "#64748b"))

  unfoldable pub dissect_ipv4 : Frame → Bytes → ℕ → Option (Frame × ℕ)
  dissect_ipv4 f b offset = if ltb (length b - offset) 20 then some (f, offset) else do
    ver_ihl ← index b offset
    let ihl = ver_ihl % 16 * 4
    if ltb ihl 20 || ltb (length b) (offset + ihl) then some (f, offset) else do
      tos ← index b (offset + 1)
      let flags_frag = u16 b (offset + 6)
      ttl ← index b (offset + 8)
      proto ← index b (offset + 9)
      src_bytes ← slice b (offset + 12) (offset + 16)
      dst_bytes ← slice b (offset + 16) (offset + 20)
      let src = ip_string src_bytes
      let dst = ip_string dst_bytes
      let name = ip_proto_name proto
      let df = decimal (flags_frag / 16384 % 2)
      let mf = decimal (flags_frag / 8192 % 2)
      let summary =
          src
          ++ (text " → " ++ (dst ++ (text " proto=" ++ (name ++ (text " ttl=" ++ decimal ttl)))))
      let fields : Dict Bytes =
          (text "version", decimal (ver_ihl / 16))
          ∷ (text "ihl", decimal ihl)
          ∷ (text "tos", text "0x" ++ hex_padded 2 tos)
          ∷ (text "total_len", decimal (u16 b (offset + 2)))
          ∷ (text "id", decimal (u16 b (offset + 4)))
          ∷ (text "flags", text "DF=" ++ (df ++ (text " MF=" ++ mf)))
          ∷ (text "frag_off", decimal (flags_frag % 8192))
          ∷ (text "ttl", decimal ttl)
          ∷ (text "protocol", name)
          ∷ (text "checksum", text "0x" ++ hex_padded 4 (u16 b (offset + 10)))
          ∷ (text "src", src)
          ∷ (text "dst", dst)
          ∷ []
      let g =
          add_layer (set_endpoints f src dst) (text "IPv4") summary fields offset ihl
            (text "#34d399")
      let h = set_meta (text "ip_dst") dst (set_meta (text "ip_src") src g)
      let k = set_meta (text "ttl") (decimal ttl) (set_meta (text "ip_proto") name h)
      dispatch_ip k b (offset + ihl) proto

  unfoldable pub dissect_ipv6 : Frame → Bytes → ℕ → Option (Frame × ℕ)
  dissect_ipv6 f b offset = if ltb (length b - offset) 40 then some (f, offset) else do
    let vtf = u32 b offset
    next ← index b (offset + 6)
    hop ← index b (offset + 7)
    src_bytes ← slice b (offset + 8) (offset + 24)
    dst_bytes ← slice b (offset + 24) (offset + 40)
    let src = ip_string src_bytes
    let dst = ip_string dst_bytes
    let name = ip_proto_name next
    let summary =
        src ++ (text " → " ++ (dst ++ (text " next=" ++ (name ++ (text " hop=" ++ decimal hop)))))
    let fields : Dict Bytes =
        (text "version", decimal (vtf / 2 ^ 28))
        ∷ (text "traffic", decimal (vtf / 1048576 % 256))
        ∷ (text "flow", text "0x" ++ hex (vtf % 1048576))
        ∷ (text "payload_len", decimal (u16 b (offset + 4)))
        ∷ (text "next_header", name)
        ∷ (text "hop_limit", decimal hop)
        ∷ (text "src", src)
        ∷ (text "dst", dst)
        ∷ []
    let g =
        add_layer (set_endpoints f src dst) (text "IPv6") summary fields offset 40 (text "#4ade80")
    let h = set_meta (text "ip_dst") dst (set_meta (text "ip_src") src g)
    dispatch_ip (set_meta (text "ip_proto") name h) b (offset + 40) next

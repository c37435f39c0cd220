-- ===== src/Decode/Ethernet.antt =====
-- internal/decode/eth.go: Ethernet with VLAN tags, Linux cooked captures and ARP.
pub mod Safety
use flux_tap.Decode.Frame.{Frame, add_layer, set_meta, set_protocol, set_endpoints, mac_string, u16}
use flux_tap.Decode.Ip.{dissect_ipv4, dissect_ipv6}
use flux_tap.Decode.Tls.{Md5}
use flux_tap.Prelude.Panics.{◌>>=◌}
use flux_tap.Prelude.Words.{Bytes, index, slice}
use flux_tap.Prelude.{
  ℕ, zero, suc, ◌+◌, ◌-◌, ◌/◌, ◌%◌, ◌||◌, Option, none, some, [], ◌∷◌, ◌++◌, ltb, ◌==◌,
  if◌then◌else◌, length,
}
use flux_tap.Text.Address.{ip_string}
use flux_tap.Text.Dict.{Dict}
use flux_tap.Text.{text, decimal, hex_padded}

abbrev pub hex4 : ℕ → Bytes
hex4 n = text "0x" ++ hex_padded 4 n

unfoldable pub dissect_arp : Frame → Bytes → ℕ → Option (Frame × ℕ)
dissect_arp f b offset = if ltb (length b - offset) 28 then some (f, offset) else do
  hw_len ← index b (offset + 4)
  pt_len ← index b (offset + 5)
  let op = u16 b (offset + 6)
  sha_bytes ← slice b (offset + 8) (offset + 14)
  spa_bytes ← slice b (offset + 14) (offset + 18)
  tha_bytes ← slice b (offset + 18) (offset + 24)
  tpa_bytes ← slice b (offset + 24) (offset + 28)
  let sha = mac_string sha_bytes
  let spa = ip_string spa_bytes
  let tpa = ip_string tpa_bytes
  let op_name = if op == 1 then text "request" else if op == 2 then text "reply" else text "unknown"
  let asks = text "Who has " ++ (tpa ++ (text "? Tell " ++ spa))
  let summary = if op == 2 then spa ++ (text " is at " ++ sha) else asks
  let fields : Dict Bytes =
      (text "hw_type", decimal (u16 b offset))
      ∷ (text "proto", hex4 (u16 b (offset + 2)))
      ∷ (text "hw_len", decimal hw_len)
      ∷ (text "pt_len", decimal pt_len)
      ∷ (text "opcode", op_name)
      ∷ (text "sender_mac", sha)
      ∷ (text "sender_ip", spa)
      ∷ (text "target_mac", mac_string tha_bytes)
      ∷ (text "target_ip", tpa)
      ∷ []
  let g = add_layer (set_endpoints f spa tpa) (text "ARP") summary fields offset 28 (text "#fbbf24")
  some (set_meta (text "arp_op") op_name (set_protocol (text "ARP") summary g), offset + 28)

-- What the loop over the VLAN tags leaves: an early return, or the type behind the tags.
pub data Tagged : Type 0 where
  returned : Frame → ℕ → Tagged
  untagged : Frame → ℕ → ℕ → Tagged

vlan_layer : Frame → Bytes → ℕ → Frame
vlan_layer f b offset =
    let tci = u16 b offset in
    let etype = u16 b (offset + 2) in
    let vid = decimal (tci % 4096) in
    let pcp = decimal (tci / 8192 % 8) in
    let fields : Dict Bytes =
      (text "vlan_id", vid) ∷ (text "priority", pcp) ∷ (text "ethertype", hex4 etype) ∷ [] in
    let summary = text "id=" ++ (vid ++ (text " pcp=" ++ (pcp ++ (text " type=" ++ hex4 etype)))) in
    set_meta (text "vlan") vid (add_layer f (text "VLAN") summary fields offset 4 (text "#a78bfa"))

-- The loop, on fuel; each round takes four bytes. The last number is the type.
unfoldable pub vlan_tags : ℕ → Frame → Bytes → ℕ → ℕ → Option Tagged
unfolding vlan_layer
vlan_tags zero f b offset etype = none
vlan_tags (suc fuel) f b offset etype =
    let rest = vlan_tags fuel (vlan_layer f b offset) b (offset + 4) (u16 b (offset + 2)) in
    if etype == 0x8100 || etype == 0x88a8
    then (if ltb (length b - offset) 4 then some (returned f offset) else rest)
    else some (untagged f offset etype)

module _ (md5 : Md5) where
  -- The switch on the type, for the three protocols that every link layer knows.
  abbrev pub dissect_network : Frame → Bytes → ℕ → ℕ → Option (Frame × ℕ) → Option (Frame × ℕ)
  dissect_network f b offset etype other =
      if etype == 0x0800
      then dissect_ipv4 md5 f b offset
      else if etype == 0x86dd
      then dissect_ipv6 md5 f b offset
      else if etype == 0x0806
      then dissect_arp f b offset
      else other

  -- The end of `dissectEthernet`, behind the tags.
  unfoldable pub dissect_ethertype : Bytes → Tagged → Option (Frame × ℕ)
  dissect_ethertype b (returned f offset) = some (f, offset)
  dissect_ethertype b (untagged f offset etype) =
      let lldp =
        add_layer f (text "LLDP") (text "Link Layer Discovery") [] offset (length b - offset)
          (text "#94a3b8") in
      let summary =
        text "ethertype="
        ++ (hex4 etype ++ (text " (" ++ (decimal (length b - offset) ++ text " bytes)"))) in
      dissect_network f b offset etype (
        if etype == 0x88cc
        then some (record lldp { protocol = text "LLDP" }, offset)
        else some (
          add_layer f (text "Payload") summary [] offset (length b - offset) (text "#64748b"),
          offset,
        ))

  unfoldable pub dissect_ethernet : Frame → Bytes → ℕ → Option (Frame × ℕ)
  dissect_ethernet f b offset = if ltb (length b - offset) 14 then some (f, offset) else do
    dst_bytes ← slice b offset (offset + 6)
    src_bytes ← slice b (offset + 6) (offset + 12)
    let dst = mac_string dst_bytes
    let src = mac_string src_bytes
    let etype = u16 b (offset + 12)
    let fields : Dict Bytes =
        (text "dst", dst) ∷ (text "src", src) ∷ (text "ethertype", hex4 etype) ∷ []
    let summary = src ++ (text " → " ++ (dst ++ (text " type=" ++ hex4 etype)))
    let g =
        add_layer (set_endpoints f src dst) (text "Ethernet") summary fields offset 14
          (text "#22d3ee")
    tagged ← vlan_tags (suc (length b)) g b (offset + 14) etype
    dissect_ethertype b tagged

  unfoldable pub dissect_linux_sll : Frame → Bytes → ℕ → Option (Frame × ℕ)
  dissect_linux_sll f b offset =
      if ltb (length b - offset) 16
      then some (f, offset)
      else (let pkttype = decimal (u16 b offset) in
          let proto = u16 b (offset + 14) in
          let fields : Dict Bytes =
            (text "packet_type", pkttype)
            ∷ (text "hatype", decimal (u16 b (offset + 2)))
            ∷ (text "halen", decimal (u16 b (offset + 4)))
            ∷ (text "protocol", hex4 proto)
            ∷ [] in
          let summary = text "type=" ++ (pkttype ++ (text " proto=" ++ hex4 proto)) in
          let g = add_layer f (text "Linux SLL") summary fields offset 16 (text "#67e8f9") in
          dissect_network g b (offset + 16) proto (some (g, offset + 16)))

  unfoldable pub dissect_linux_sll2 : Frame → Bytes → ℕ → Option (Frame × ℕ)
  dissect_linux_sll2 f b offset = if ltb (length b - offset) 20 then some (f, offset) else do
    let proto = u16 b offset
    pkttype ← index b (offset + 10)
    halen ← index b (offset + 11)
    let fields : Dict Bytes =
        (text "packet_type", decimal pkttype)
        ∷ (text "halen", decimal halen)
        ∷ (text "protocol", hex4 proto)
        ∷ []
    let summary = text "type=" ++ (decimal pkttype ++ (text " proto=" ++ hex4 proto))
    let g = add_layer f (text "Linux SLL2") summary fields offset 20 (text "#67e8f9")
    dissect_network g b (offset + 20) proto (some (g, offset + 20))

-- ===== src/Decode/Dhcp.antt =====
-- `dissectDHCP` of internal/decode/dns.go.
pub mod Safety
use flux_tap.Decode.Frame.{Frame, add_layer, set_protocol, u32, mac_string}
use flux_tap.Prelude.Panics.{◌>>=◌}
use flux_tap.Prelude.Words.{Bytes, index, slice}
use flux_tap.Prelude.{
  ℕ, zero, suc, ◌+◌, ◌-◌, ◌&&◌, Option, none, some, [], ◌∷◌, ◌++◌, ltb, leb, ◌==◌, if◌then◌else◌,
  length,
}
use flux_tap.Text.Address.{ip_string}
use flux_tap.Text.Dict.{Dict}
use flux_tap.Text.{text, decimal, hex_padded}

-- One round over the options of a DHCP message: the end with the type of the message, or the next
-- place.
pub data DhcpStep : Type 0 where
  finished : Bytes → DhcpStep
  more : ℕ → Bytes → DhcpStep

unfoldable pub dhcp_type : ℕ → Bytes
dhcp_type t =
    if t == 1
    then text "Discover"
    else if t == 2
    then text "Offer"
    else if t == 3
    then text "Request"
    else if t == 5
    then text "ACK"
    else if t == 6
    then text "NAK"
    else if t == 7
    then text "Release"
    else text "type-" ++ decimal t

unfoldable pub dhcp_step : Bytes → ℕ → Bytes → Option DhcpStep
dhcp_step b i msg =
    if ltb i (length b)
    then (do
      code ← index b i
      if code == 255
          then some (finished msg)
          else if code == 0
          then some (more (i + 1) msg)
          else if leb (length b) (i + 1)
          then some (finished msg)
          else do
            l ← index b (i + 1)
            if ltb (length b) (i + 2 + l)
                then some (finished msg)
                else if code == 53 && l == 1
                then (do t ← index b (i + 2); some (more (i + 2 + l) (dhcp_type t)))
                else some (more (i + 2 + l) msg))
    else some (finished msg)

abbrev pub after_dhcp_step : (ℕ → Bytes → Option Bytes) → DhcpStep → Option Bytes
after_dhcp_step loop (finished msg) = some msg
after_dhcp_step loop (more i msg) = loop i msg

-- The loop over the options, on fuel; each round goes on by a byte at least.
unfoldable pub dhcp_options : ℕ → Bytes → ℕ → Bytes → Option Bytes
dhcp_options zero b i msg = none
dhcp_options (suc n) b i msg = do step ← dhcp_step b i msg; after_dhcp_step (dhcp_options n b) step

unfoldable pub dissect_dhcp : Frame → Bytes → ℕ → Option (Frame × ℕ)
dissect_dhcp f b offset =
    if ltb (length b) 240
    then (let g =
          add_layer f (text "DHCP") (decimal (length b) ++ text " bytes") [] offset (length b)
            (text "#fbbf24") in
        some (record g { protocol = text "DHCP" }, offset + length b))
    else do
      op ← index b 0
      ciaddr ← slice b 12 16
      yiaddr ← slice b 16 20
      chaddr ← slice b 28 34
      let options = ltb 240 (length b) && u32 b 236 == 0x63825363
      msg_type ←
          if options then dhcp_options (length b) b 240 (text "unknown") else some (text "unknown")
      let op_name = if op == 2 then text "Boot Reply" else text "Boot Request"
      let summary =
          op_name
          ++ (text " "
              ++ (msg_type
                  ++ (text " yiaddr="
                      ++ (ip_string yiaddr ++ (text " chaddr=" ++ mac_string chaddr)))))
      let fields : Dict Bytes =
          (text "op", op_name)
          ∷ (text "xid", text "0x" ++ hex_padded 8 (u32 b 4))
          ∷ (text "ciaddr", ip_string ciaddr)
          ∷ (text "yiaddr", ip_string yiaddr)
          ∷ (text "chaddr", mac_string chaddr)
          ∷ (text "message", msg_type)
          ∷ []
      let g = add_layer f (text "DHCP") summary fields offset (length b) (text "#fbbf24")
      some (set_protocol (text "DHCP") summary g, offset + length b)

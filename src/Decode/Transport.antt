-- ===== src/Decode/Transport.antt =====
-- internal/decode/tcpudp.go: TCP, UDP and the choice of the protocol above them.
pub mod Header
pub mod Options
pub mod Safety
pub mod Signatures
use flux_tap.Decode.Dhcp.{dissect_dhcp}
use flux_tap.Decode.Dns.{dissect_dns}
use flux_tap.Decode.Quic.{dissect_quic}
use flux_tap.Decode.Tls.{Md5, dissect_tls}
use flux_tap.Decode.Http2.{dissect_http2}
use flux_tap.Decode.Http.{dissect_http}
use flux_tap.Decode.Frame.{
  Frame, add_layer, set_meta, set_protocol, add_tags, u16, u32, safe_slice, hex_preview,
}
use flux_tap.Decode.Transport.Header.{tcp_flags, parse_tcp_options}
use flux_tap.Decode.Transport.Signatures.{
  looks_like_http, looks_like_http2, looks_like_tls, looks_like_quic, looks_like_dns,
}
use flux_tap.Prelude.Panics.{◌>>=◌}
use flux_tap.Prelude.Words.{Bytes, slice}
use flux_tap.Prelude.{
  ℕ, ◌+◌, ◌-◌, ◌*◌, ◌/◌, ◌%◌, Bool, false, ◌&&◌, ◌||◌, Option, some, [], ◌∷◌, ◌++◌, ltb, ◌==◌,
  if◌then◌else◌, length,
}
use flux_tap.Text.Dict.{Dict}
use flux_tap.Text.{text, decimal, hex_padded, is_empty, has_prefix, before_byte, trim_space}

abbrev pub port_is : ℕ → ℕ → ℕ → Bool
port_is sport dport port = sport == port || dport == port

-- The payload as a layer that runs to the end of the packet.
abbrev pub payload_layer : Frame → Bytes → Bytes → ℕ → Bytes → Bytes → Frame
payload_layer f name summary offset b color = add_layer f name summary [] offset (length b) color

abbrev pub byte_count : Bytes → Bytes
byte_count b = decimal (length b) ++ text " bytes"

-- The end of `dissectAppTCP`, where no signature is known.
unfoldable pub dissect_by_port : Frame → Bytes → ℕ → ℕ → ℕ → Frame
dissect_by_port f b offset sport dport =
    if port_is sport dport 443 || port_is sport dport 8443
    then (let g =
          payload_layer f (text "TLS?") (byte_count b ++ text " (likely encrypted)") offset b
            (text "#a78bfa") in
        add_tags (text "encrypted" ∷ []) (record g { protocol = text "TLS" }))
    else if port_is sport dport 80 || port_is sport dport 8080
    then (let g = payload_layer f (text "HTTP?") (byte_count b) offset b (text "#38bdf8") in
        record g { protocol = text "HTTP" })
    else payload_layer f (text "Data") (byte_count b ++ (text " " ++ hex_preview b 8)) offset b
        (text "#64748b")

unfoldable pub dissect_ssh : Frame → Bytes → ℕ → Frame
dissect_ssh f b offset =
    let line = before_byte b'\n' b in
    let g =
      add_layer f (text "SSH") line ((text "banner", trim_space line) ∷ []) offset (length b)
        (text "#c084fc") in
    add_tags (text "encrypted" ∷ []) (set_protocol (text "SSH") line g)

unfoldable pub dissect_app_udp : Frame → Bytes → ℕ → ℕ → ℕ → Option (Frame × ℕ)
dissect_app_udp f b offset sport dport =
    if port_is sport dport 53 || port_is sport dport 5353
    then dissect_dns f b offset (dport == 5353 || sport == 5353)
    else if port_is sport dport 67 || port_is sport dport 68
    then dissect_dhcp f b offset
    else if port_is sport dport 123
    then (let g = payload_layer f (text "NTP") (byte_count b) offset b (text "#fcd34d") in
        some (set_protocol (text "NTP") (text "Network Time Protocol") g, offset + length b))
    else do
      quic ← looks_like_quic b
      if quic
          then dissect_quic f b offset
          else if looks_like_dns b && (port_is sport dport 53 || ltb 12 (length b))
          then dissect_dns f b offset false
          else some (
            payload_layer f (text "Data") (byte_count b) offset b (text "#64748b"),
            offset + length b,
          )

-- `len(data)-offset < 8` and the reads behind it. The payload starts behind the header.
unfoldable pub dissect_udp : Frame → Bytes → ℕ → Option (Frame × ℕ)
dissect_udp f b offset =
    if ltb (length b - offset) 8
    then some (f, offset)
    else (let sport = u16 b offset in
        let dport = u16 b (offset + 2) in
        let summary =
          decimal sport
          ++ (text " → " ++ (decimal dport ++ (text " len=" ++ decimal (u16 b (offset + 4))))) in
        let fields : Dict Bytes =
          (text "src_port", decimal sport)
          ∷ (text "dst_port", decimal dport)
          ∷ (text "length", decimal (u16 b (offset + 4)))
          ∷ (text "checksum", text "0x" ++ hex_padded 4 (u16 b (offset + 6)))
          ∷ [] in
        let g = add_layer f (text "UDP") summary fields offset 8 (text "#2dd4bf") in
        let h =
          set_meta (text "dport") (decimal dport) (set_meta (text "sport") (decimal sport) g) in
        let k = set_protocol (text "UDP") summary h in
        let payload = safe_slice b (offset + 8) (length b) in
        if length payload == 0
        then some (k, offset + 8)
        else dissect_app_udp k payload (offset + 8) sport dport)

module _ (md5 : Md5) where
  unfoldable pub dissect_app_tcp : Frame → Bytes → ℕ → ℕ → ℕ → Option (Frame × ℕ)
  dissect_app_tcp f b offset sport dport = do
    tls ← looks_like_tls b
    http2 ← looks_like_http2 b
    if tls
        then dissect_tls md5 f b offset
        else if http2
        then dissect_http2 f b offset
        else if looks_like_http b
        then dissect_http f b offset
        else if has_prefix b (text "SSH-")
        then some (dissect_ssh f b offset, offset + length b)
        else some (dissect_by_port f b offset sport dport, offset + length b)

  unfoldable pub dissect_tcp : Frame → Bytes → ℕ → Option (Frame × ℕ)
  dissect_tcp f b offset = if ltb (length b - offset) 20 then some (f, offset) else do
    let sport = u16 b offset
    let dport = u16 b (offset + 2)
    let seq = decimal (u32 b (offset + 4))
    let ack = decimal (u32 b (offset + 8))
    let said = u16 b (offset + 12) / 4096 * 4
    let window = decimal (u16 b (offset + 14))
    let hdr_len = if ltb said 20 || ltb (length b) (offset + said) then 20 else said
    let flag_str = tcp_flags (u16 b (offset + 12) % 512)
    let summary =
        decimal sport
        ++ (text " → "
            ++ (decimal dport
                ++ (text " ["
                    ++ (flag_str
                        ++ (text "] seq="
                            ++ (seq ++ (text " ack=" ++ (ack ++ (text " win=" ++ window)))))))))
    opts ←
        if ltb 20 hdr_len
        then (do o ← slice b (offset + 20) (offset + hdr_len); parse_tcp_options o)
        else some []
    let option_field : Dict Bytes = if is_empty opts then [] else (text "options", opts) ∷ []
    let fields : Dict Bytes =
        (text "src_port", decimal sport)
        ∷ (text "dst_port", decimal dport)
        ∷ (text "seq", seq)
        ∷ (text "ack", ack)
        ∷ (text "hdr_len", decimal hdr_len)
        ∷ (text "flags", flag_str)
        ∷ (text "window", window)
        ∷ (text "checksum", text "0x" ++ hex_padded 4 (u16 b (offset + 16)))
        ∷ (text "urgent", decimal (u16 b (offset + 18)))
        ∷ option_field
    let g = add_layer f (text "TCP") summary fields offset hdr_len (text "#60a5fa")
    let h = set_meta (text "dport") (decimal dport) (set_meta (text "sport") (decimal sport) g)
    let k = set_meta (text "tcp_seq") seq (set_meta (text "tcp_flags") flag_str h)
    let m = set_protocol (text "TCP") summary k
    let payload = safe_slice b (offset + hdr_len) (length b)
    if length payload == 0
        then some (m, offset + hdr_len)
        else dissect_app_tcp m payload (offset + hdr_len) sport dport

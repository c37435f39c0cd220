-- ===== src/Tests/Frames.antt =====
-- Whole packets through the dissectors.
use flux_tap.Decode.Dissector.{new_dissector, dissect_link, dissect}
use flux_tap.Decode.Dissector.Panicking.{IsExact, dissect-IsExact}
use flux_tap.Decode.Ethernet.{dissect_ethertype, dissect_ethernet, vlan_tags}
use flux_tap.Decode.Frame.Keys.{flow_key_symm}
use flux_tap.Decode.Frame.{Frame, flow_key, u16, u32}
use flux_tap.Decode.Tls.{Md5}
use flux_tap.Decode.Ip.{dispatch_ip, dissect_ipv4}
use flux_tap.Decode.Transport.Options.{ReachesScale, parse_tcp_options-none_iff}
use flux_tap.Decode.Transport.Header.{option_text, option_step, options_loop, parse_tcp_options}
use flux_tap.Decode.Transport.{dissect_tcp}
use flux_tap.Pcap.Stream.{since_epoch}
use flux_tap.Prelude.Words.{Bytes, index, slice, uint16}
use flux_tap.Prelude.{ℕ, ◌≡◌, ◌↔◌, refl, none, [], ◌∷◌, ◌++◌}
use flux_tap.Text.Dict.{get, lookup}
use flux_tap.Text.{text, text_eq}

-- A digest that is always the same.
abbrev pub zero_md5 : Md5
zero_md5 = record {
  sum = λ s. 0 ∷ 0 ∷ 0 ∷ 0 ∷ 0 ∷ 0 ∷ 0 ∷ 0 ∷ 0 ∷ 0 ∷ 0 ∷ 0 ∷ 0 ∷ 0 ∷ 0 ∷ 0 ∷ [];
  length-sum = λ s. refl;
}

-- An Ethernet header, an IPv4 header, and a TCP header whose options are the given four bytes.
abbrev tcp_packet : Bytes → Bytes
tcp_packet options =
    (2 ∷ 0 ∷ 0 ∷ 0 ∷ 0 ∷ 1 ∷ 2 ∷ 0 ∷ 0 ∷ 0 ∷ 0 ∷ 2 ∷ 8 ∷ 0 ∷ [])
    ++ ((69 ∷ 0 ∷ 0 ∷ 44 ∷ 0 ∷ 0 ∷ 0 ∷ 0 ∷ 64 ∷ 6 ∷ 0 ∷ 0 ∷ 10 ∷ 0 ∷ 0 ∷ 1 ∷ 10 ∷ 0 ∷ 0 ∷ 2 ∷ [])
        ++ ((48 ∷ 57 ∷ 0 ∷ 80 ∷ 0 ∷ 0 ∷ 0 ∷ 1 ∷ 0 ∷ 0 ∷ 0 ∷ 0 ∷ 96 ∷ 2 ∷ 1 ∷ 0 ∷ 0 ∷ 0 ∷ 0 ∷ 0 ∷ [])
            ++ options))

-- Two no-operations, and a window scale of length 2.
abbrev bad_options : Bytes
bad_options = 1 ∷ 1 ∷ 3 ∷ 2 ∷ []

parse_tcp_options-none_iff_example :
    (parse_tcp_options bad_options ≡ none) ↔ ReachesScale bad_options 0
parse_tcp_options-none_iff_example = parse_tcp_options-none_iff bad_options

dissect-IsExact_example :
    IsExact
      (tcp_packet (1 ∷ 3 ∷ 3 ∷ 7 ∷ []))
      1
      (dissect zero_md5 new_dissector 1 (since_epoch 0) 58 58 1 (tcp_packet (1 ∷ 3 ∷ 3 ∷ 7 ∷ [])))
dissect-IsExact_example =
    dissect-IsExact zero_md5 new_dissector 1 (since_epoch 0) 58 58 1
      (tcp_packet (1 ∷ 3 ∷ 3 ∷ 7 ∷ []))

-- The same packet with the bad options stops the program.
dissect-bad_options :
    dissect zero_md5 new_dissector 1 (since_epoch 0) 58 58 1 (tcp_packet bad_options) ≡ none
unfolding dissect dissect_link dissect_ethernet dissect_ethertype vlan_tags dissect_ipv4 dispatch_ip
    dissect_tcp parse_tcp_options options_loop option_step option_text index slice u16 u32 uint16
dissect-bad_options = refl

abbrev empty_frame : Frame
empty_frame = record {
  number = 1;
  timestamp = since_epoch 0;
  cap_len = 0;
  orig_len = 0;
  len = 0;
  src = [];
  dst = [];
  protocol = [];
  info = [];
  layers = [];
  hex_dump = [];
  meta = [];
  flow_key = [];
  severity = [];
  tags = [];
}

abbrev request : Frame
request = record empty_frame {
  src = text "10.0.0.1";
  dst = text "10.0.0.2";
  protocol = text "TLS";
  meta =
      (text "sport", text "5000") ∷ (text "dport", text "53") ∷ (text "ip_proto", text "TCP") ∷ [];
}

abbrev reply : Frame
reply = record empty_frame {
  src = text "10.0.0.2";
  dst = text "10.0.0.1";
  protocol = text "TCP";
  meta =
      (text "sport", text "53") ∷ (text "dport", text "5000") ∷ (text "ip_proto", text "TCP") ∷ [];
}

reply-ports :
    (get reply.meta (text "sport") ≡ get request.meta (text "dport"))
    × (get reply.meta (text "dport") ≡ get request.meta (text "sport"))
    × (get reply.meta (text "ip_proto") ≡ get request.meta (text "ip_proto"))
unfolding get lookup text text_eq
reply-ports = (refl, refl, refl)

request_over_ip : get request.meta (text "ip_proto") ≡ [] → reply.protocol ≡ request.protocol
unfolding get lookup text text_eq
request_over_ip none_there = absurd (not_empty none_there)
  where
    not_empty : {c : ℕ} {s : Bytes} → (c ∷ s ≡ []) → ⊥
    not_empty e = cc

flow_key_symm_example : flow_key reply ≡ flow_key request
flow_key_symm_example =
    flow_key_symm request reply refl refl reply-ports.0 reply-ports.1 reply-ports.2 request_over_ip

-- A ClientHello of TLS 1.2 that is cut off behind its version.
abbrev short_hello : Bytes
short_hello = 1 ∷ 0 ∷ 0 ∷ 2 ∷ 3 ∷ 3 ∷ []

-- A record that holds it.
abbrev short_record : Bytes
short_record = 22 ∷ 3 ∷ 1 ∷ 0 ∷ 6 ∷ short_hello

-- ===== src/Demo/Lengths.antt =====
-- How long the packets of the demo capture are.
use flux_tap.Demo.Capture.{
  udp, tcp, quic, get_x, mixed_frames, scan_frames, filler, filler_frames, demo_frames,
}
use flux_tap.Demo.Packets.{
  client_ip, zero_bytes, eth_frame, arp_request, arp_reply, ipv4_udp, ipv4_tcp, ipv4_icmp,
  dns_response, dhcp_discover, http2_settings, tls_client_hello, tls_server_hello, tls_app_data,
}
use flux_tap.Demo.{encode_labels, encode_dns_name, dns_query}
use flux_tap.Pcap.Reader.{max_block}
use flux_tap.Prelude.Words.{Bytes, put_uint16, put_uint32}
use flux_tap.Prelude.{
  ℕ, zero, suc, ◌+◌, ◌-◌, ◌%◌, ◌/◌, ◌≤◌, ◌≡◌, refl, ap, [], ◌∷◌, ◌++◌, arith, length, length-append,
  Option-cases, inl, inr, All, All-append, ◌==◌, if-both,
}
use flux_tap.Text.Digits.{length-decimal}
use flux_tap.Text.Joined.{cut-eq-some, split_n-zero, split_n-nothing, split_n-there}
use flux_tap.Text.Split.{cut, split_n, split}
use flux_tap.Text.{text, decimal, has_prefix}

length-dot : (a : Bytes) → length (text "." ++ a) ≡ length a + 1
unfolding text
length-dot a = omega arith

length-encode_labels :
    (n : ℕ) (s : Bytes) → length (encode_labels (split_n n (text ".") s)) ≤ length s + 2
unfolding encode_labels
length-encode_labels zero s =
    rw (split_n-zero (text ".") s) (omega (arith, length-append s (0 ∷ [])))
length-encode_labels (suc n) s = elim (Option-cases (cut (text ".") s)) [
  | inl nothing ↦
      rw (split_n-nothing n (text ".") s nothing) (omega (arith, length-append s (0 ∷ [])))
  | inr ((b, a), there) ↦
      let whole = ap length (cut-eq-some (text ".") s there) in
      let dot = length-dot a in
      rw (split_n-there n (text ".") s there) (
        omega (
          arith,
          whole,
          dot,
          length-append b (text "." ++ a),
          length-append b (encode_labels (split_n n (text ".") a)),
          length-encode_labels n a,
        ))
]

length-dns_query : (name : Bytes) (qtype : ℕ) → length (dns_query name qtype) ≤ length name + 18
unfolding dns_query encode_dns_name put_uint16
length-dns_query name qtype = omega (
  arith,
  length-encode_labels (length name) name,
  length-append (encode_labels (split (text ".") name))
      ((qtype / 256 % 256) ∷ (qtype % 256) ∷ 0 ∷ 1 ∷ []),
)

length-udp :
    (s₀ s₁ s₂ s₃ d₀ d₁ d₂ d₃ sport dport : ℕ) (payload : Bytes)
    → length (udp (s₀ ∷ s₁ ∷ s₂ ∷ s₃ ∷ []) (d₀ ∷ d₁ ∷ d₂ ∷ d₃ ∷ []) sport dport payload)
      ≡ length payload + 42
unfolding eth_frame ipv4_udp zero_bytes put_uint16
length-udp s₀ s₁ s₂ s₃ d₀ d₁ d₂ d₃ sport dport payload = omega arith

length-tcp :
    (s₀ s₁ s₂ s₃ d₀ d₁ d₂ d₃ sport dport flags : ℕ) (payload : Bytes)
    → length (tcp (s₀ ∷ s₁ ∷ s₂ ∷ s₃ ∷ []) (d₀ ∷ d₁ ∷ d₂ ∷ d₃ ∷ []) sport dport flags payload)
      ≡ length payload + 54
unfolding eth_frame ipv4_tcp zero_bytes put_uint16 put_uint32
length-tcp s₀ s₁ s₂ s₃ d₀ d₁ d₂ d₃ sport dport flags payload = omega arith

-- A packet that a record can hold.
abbrev pub Fits : Bytes → Type 0
Fits f = length f ≤ max_block

scan_frames-Fits : (left i : ℕ) → All Fits (scan_frames left i)
unfolding scan_frames
scan_frames-Fits zero i = tt
scan_frames-Fits (suc left) i = (
  omega
      (arith, length-tcp 192 168 1 10 93 184 216 34 ((40000 + i) % 65536) ((20 + i) % 65536) 2 []),
  scan_frames-Fits left (i + 1),
)

length-host : (n : ℕ) → length (text "host" ++ (decimal n ++ text ".local")) ≤ n + 11
unfolding text
length-host n = omega (arith, length-decimal n, length-append (decimal n) (text ".local"))

length-quic : length quic ≡ 40
unfolding put_uint32 zero_bytes
length-quic = refl

length-icmp : (ip : Bytes) → length (eth_frame 0x0800 (ipv4_icmp client_ip ip)) ≡ length ip + 38
unfolding eth_frame ipv4_icmp zero_bytes put_uint16
length-icmp ip = omega (arith, length-append ip (8 ∷ 0 ∷ 0 ∷ 0 ∷ 0 ∷ 0 ∷ 0 ∷ 0 ∷ []))

length-app_data : length (tls_app_data 64) ≡ 69
unfolding tls_app_data put_uint16
length-app_data = refl

length-get : length get_x ≡ 32
unfolding text
length-get = refl

filler-Fits : (n : ℕ) → n ≤ 1000000 → Fits (filler n)
unfolding filler
filler-Fits n small =
    if-both Fits (n % 5 == 0) _ _
      (omega (
        arith,
        length-host n,
        length-dns_query (text "host" ++ (decimal n ++ text ".local")) 1,
        length-udp 192 168 1 10 8 8 8 8 ((40000 + n) % 65536) 53
            (dns_query (text "host" ++ (decimal n ++ text ".local")) 1),
      ))
      (if-both Fits (n % 5 == 1) _ _
        (omega (
          arith,
          length-app_data,
          length-tcp 192 168 1 10 93 184 216 34 (50000 + n % 1000) 443 0x18 (tls_app_data 64),
        ))
        (if-both Fits (n % 5 == 2) _ _
          (omega (
            arith,
            length-get,
            length-tcp 192 168 1 10 93 184 216 34 (51000 + n % 1000) 80 0x18 get_x,
          ))
          (if-both Fits (n % 5 == 3) _ _ (omega (arith, length-icmp (1 ∷ 1 ∷ 1 ∷ 1 ∷ []))) (
            omega (
              arith,
              length-quic,
              length-udp 192 168 1 10 93 184 216 34 (52000 + n % 1000) 443 quic,
            )))))

filler_frames-Fits : (left n : ℕ) → n + left ≤ 1000000 → All Fits (filler_frames left n)
unfolding filler_frames
filler_frames-Fits zero n small = tt
filler_frames-Fits (suc left) n small =
    (filler-Fits n (omega arith), filler_frames-Fits left (n + 1) (omega arith))

length-scan_frames : (left i : ℕ) → length (scan_frames left i) ≡ left
unfolding scan_frames
length-scan_frames zero i = refl
length-scan_frames (suc left) i = omega (arith, length-scan_frames left (i + 1))

length-filler_frames : (left n : ℕ) → length (filler_frames left n) ≡ left
unfolding filler_frames
length-filler_frames zero n = refl
length-filler_frames (suc left) n = omega (arith, length-filler_frames left (n + 1))

mixed_frames-Fits : All Fits mixed_frames
unfolding mixed_frames eth_frame ipv4_udp ipv4_tcp ipv4_icmp arp_request arp_reply dns_response
    dhcp_discover http2_settings tls_client_hello tls_server_hello dns_query encode_dns_name
    encode_labels put_uint16 put_uint32 zero_bytes text cut split_n has_prefix
mixed_frames-Fits = omega arith

pub demo_frames-Fits : (count : ℕ) → count ≤ 1000000 → All Fits (demo_frames count)
unfolding demo_frames
demo_frames-Fits count small =
    All-append Fits mixed_frames (scan_frames 35 0 ++ filler_frames (count - 49) 49)
      mixed_frames-Fits
      (All-append Fits (scan_frames 35 0) (filler_frames (count - 49) 49) (scan_frames-Fits 35 0)
        (filler_frames-Fits (count - 49) 49 (omega arith)))

length-mixed_frames : length mixed_frames ≡ 14
unfolding mixed_frames
length-mixed_frames = refl

pub length-demo_frames : (count : ℕ) → length (demo_frames count) ≡ 49 + (count - 49)
unfolding demo_frames
length-demo_frames count = omega (
  arith,
  length-mixed_frames,
  length-append mixed_frames (scan_frames 35 0 ++ filler_frames (count - 49) 49),
  length-append (scan_frames 35 0) (filler_frames (count - 49) 49),
  length-scan_frames 35 0,
  length-filler_frames (count - 49) 49,
)

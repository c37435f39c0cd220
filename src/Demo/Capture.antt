-- ===== src/Demo/Capture.antt =====
-- `writeDemoPCAP` of cmd/fluxtap/main.go, on a file that takes all that is written.
pub mod Reads
use flux_tap.Demo.Packets.{
  client_ip, server_ip, dns_ip, zero_bytes, eth_frame, arp_request, arp_reply, ipv4_udp, ipv4_tcp,
  ipv4_icmp, dns_response, dhcp_discover, http2_settings, tls_client_hello, tls_server_hello,
  tls_app_data,
}
use flux_tap.Demo.{dns_query}
use flux_tap.Pcap.Stream.{since_epoch, seconds32, micros}
use flux_tap.Prelude.Words.{Bytes, big, little, put_uint16, put_uint32}
use flux_tap.Prelude.{
  ℕ, zero, suc, ◌+◌, ◌-◌, ◌*◌, ◌%◌, List, [], ◌∷◌, ◌++◌, ◌==◌, if◌then◌else◌, length,
}
use flux_tap.Text.{text, decimal}

abbrev pub udp : Bytes → Bytes → ℕ → ℕ → Bytes → Bytes
udp src dst sport dport payload = eth_frame 0x0800 (ipv4_udp src dst sport dport payload)

abbrev pub tcp : Bytes → Bytes → ℕ → ℕ → ℕ → Bytes → Bytes
tcp src dst sport dport flags payload =
    eth_frame 0x0800 (ipv4_tcp src dst sport dport flags payload)

-- A long header of QUIC.
abbrev pub quic : Bytes
quic = 0xc0 ∷ (put_uint32 big 1 ++ zero_bytes 35)

-- The packets before the scan.
unfoldable pub mixed_frames : List Bytes
mixed_frames =
    eth_frame 0x0806 arp_request
    ∷ eth_frame 0x0806 arp_reply
    ∷ udp client_ip dns_ip 53000 53 (dns_query (text "example.com") 1)
    ∷ udp dns_ip client_ip 53 53000 (dns_response (text "example.com") server_ip)
    ∷ udp client_ip dns_ip 53001 53 (dns_query (text "api.github.com") 28)
    ∷ udp client_ip dns_ip 53002 53 (
        dns_query
          (text
            "longlabellonglabellonglabellonglabellonglabellonglabellonglabellonglabel.evil.test")
          1)
    ∷ udp (zero_bytes 4) (255 ∷ 255 ∷ 255 ∷ 255 ∷ []) 68 67 dhcp_discover
    ∷ tcp client_ip server_ip 49152 80 0x18 (
        text
          "GET /index.html HTTP/1.1\r\nHost: example.com\r\nUser-Agent: FluxTap/1.0\r\nAuthorization: Basic dXNlcjpwYXNz\r\nAccept: */*\r\n\r\n")
    ∷ tcp server_ip client_ip 80 49152 0x18 (
        text
          "HTTP/1.1 200 OK\r\nContent-Type: text/html\r\nContent-Length: 13\r\n\r\nHello, PCAP!\n")
    ∷ tcp client_ip server_ip 49153 8080 0x18
        (text "PRI * HTTP/2.0\r\n\r\nSM\r\n\r\n" ++ http2_settings)
    ∷ tcp client_ip server_ip 49154 443 0x18 (tls_client_hello (text "www.google.com"))
    ∷ tcp server_ip client_ip 443 49154 0x18 tls_server_hello
    ∷ udp client_ip server_ip 49155 443 quic
    ∷ eth_frame 0x0800 (ipv4_icmp client_ip server_ip)
    ∷ []

-- The loop of the scan, with as many rounds to go.
unfoldable pub scan_frames : ℕ → ℕ → List Bytes
scan_frames zero i = []
scan_frames (suc left) i =
    tcp client_ip server_ip ((40000 + i) % 65536) ((20 + i) % 65536) 0x02 []
    ∷ scan_frames left (i + 1)

abbrev pub get_x : Bytes
get_x = text "GET / HTTP/1.1\r\nHost: x.test\r\n\r\n"

-- A round of the loop that fills the capture.
unfoldable pub filler : ℕ → Bytes
filler n =
    if n % 5 == 0
    then udp client_ip dns_ip ((40000 + n) % 65536) 53
        (dns_query (text "host" ++ (decimal n ++ text ".local")) 1)
    else if n % 5 == 1
    then tcp client_ip server_ip (50000 + n % 1000) 443 0x18 (tls_app_data 64)
    else if n % 5 == 2
    then tcp client_ip server_ip (51000 + n % 1000) 80 0x18 get_x
    else if n % 5 == 3
    then eth_frame 0x0800 (ipv4_icmp client_ip (1 ∷ 1 ∷ 1 ∷ 1 ∷ []))
    else udp client_ip server_ip (52000 + n % 1000) 443 quic

-- The loop, with as many rounds to go.
unfoldable pub filler_frames : ℕ → ℕ → List Bytes
unfolding filler
filler_frames zero n = []
filler_frames (suc left) n = filler n ∷ filler_frames left (n + 1)

-- All packets, of which 49 come before the loop.
unfoldable pub demo_frames : ℕ → List Bytes
unfolding mixed_frames scan_frames filler_frames
demo_frames count = mixed_frames ++ (scan_frames 35 0 ++ filler_frames (count - 49) 49)

-- The global header.
unfoldable pub demo_header : Bytes
demo_header =
    put_uint32 little 0xa1b2c3d4
    ++ (put_uint16 little 2
        ++ (put_uint16 little 4
            ++ (zero_bytes 8 ++ (put_uint32 little 65535 ++ put_uint32 little 1))))

-- The closure `write` for the packets from the number `n` on, at a time in nanoseconds.
unfoldable pub demo_records : ℕ → ℕ → List Bytes → Bytes
demo_records ts n [] = []
demo_records ts n (f ∷ fs) =
    (put_uint32 little (seconds32 (since_epoch ts))
      ++ (put_uint32 little (micros (since_epoch ts))
          ++ (put_uint32 little (length f) ++ put_uint32 little (length f))))
    ++ (f ++ demo_records (ts + (5 + n % 17) * 1000000) (n + 1) fs)

-- `writeDemoPCAP`: what the file holds.
unfoldable pub write_demo_pcap : ℕ → ℕ → Bytes
unfolding demo_frames demo_header demo_records
write_demo_pcap ts count = demo_header ++ demo_records ts 0 (demo_frames count)

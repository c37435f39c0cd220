-- ===== src/Demo/Packets.antt =====
-- The packets of the demo capture in cmd/fluxtap/main.go. `make([]byte, n)` with fields put in is the
-- list of what the fields and the bytes between them hold.
use flux_tap.Demo.{encode_dns_name}
use flux_tap.Prelude.Words.{Bytes, big, put_uint16, put_uint32}
use flux_tap.Prelude.{ℕ, zero, suc, ◌+◌, ◌*◌, ◌/◌, ◌%◌, List, [], ◌∷◌, ◌++◌, length}

-- As many bytes of 0.
unfoldable pub zero_bytes : ℕ → Bytes
zero_bytes zero = []
zero_bytes (suc n) = 0 ∷ zero_bytes n

abbrev pub client_ip : Bytes
client_ip = 192 ∷ 168 ∷ 1 ∷ 10 ∷ []

abbrev pub server_ip : Bytes
server_ip = 93 ∷ 184 ∷ 216 ∷ 34 ∷ []

abbrev pub dns_ip : Bytes
dns_ip = 8 ∷ 8 ∷ 8 ∷ 8 ∷ []

abbrev pub client_mac : Bytes
client_mac = 0x11 ∷ 0x22 ∷ 0x33 ∷ 0x44 ∷ 0x55 ∷ 0x66 ∷ []

abbrev pub server_mac : Bytes
server_mac = 0xaa ∷ 0xbb ∷ 0xcc ∷ 0xdd ∷ 0xee ∷ 0xff ∷ []

-- `ethFrame`.
unfoldable pub eth_frame : ℕ → Bytes → Bytes
eth_frame ether_type payload = server_mac ++ (client_mac ++ (put_uint16 big ether_type ++ payload))

-- The first eight bytes of `arpRequest` and `arpReply`.
abbrev arp_header : ℕ → Bytes
arp_header op = put_uint16 big 1 ++ (put_uint16 big 0x0800 ++ ((6 ∷ 4 ∷ []) ++ put_uint16 big op))

unfoldable pub arp_request : Bytes
arp_request = arp_header 1 ++ (client_mac ++ (client_ip ++ (zero_bytes 6 ++ server_ip)))

unfoldable pub arp_reply : Bytes
arp_reply = arp_header 2 ++ (server_mac ++ (server_ip ++ (client_mac ++ client_ip)))

-- The IPv4 header of all three functions below, of 20 bytes.
abbrev ipv4_header : ℕ → ℕ → Bytes → Bytes → Bytes
ipv4_header total proto src dst =
    (0x45 ∷ 0 ∷ [])
    ++ (put_uint16 big total ++ (zero_bytes 4 ++ ((64 ∷ proto ∷ 0 ∷ 0 ∷ []) ++ (src ++ dst))))

-- `ipv4udp`.
unfoldable pub ipv4_udp : Bytes → Bytes → ℕ → ℕ → Bytes → Bytes
ipv4_udp src dst sport dport payload =
    let udp_len = 8 + length payload in
    ipv4_header (20 + udp_len) 17 src dst
    ++ (put_uint16 big sport
        ++ (put_uint16 big dport ++ (put_uint16 big udp_len ++ ((0 ∷ 0 ∷ []) ++ payload))))

-- `ipv4tcp`.
unfoldable pub ipv4_tcp : Bytes → Bytes → ℕ → ℕ → ℕ → Bytes → Bytes
ipv4_tcp src dst sport dport flags payload =
    ipv4_header (20 + 20 + length payload) 6 src dst
    ++ (put_uint16 big sport
        ++ (put_uint16 big dport
            ++ (put_uint32 big 1000
                ++ (put_uint32 big 2000
                    ++ ((0x50 ∷ flags ∷ [])
                        ++ (put_uint16 big 65535 ++ (zero_bytes 4 ++ payload)))))))

-- `ipv4icmp`.
unfoldable pub ipv4_icmp : Bytes → Bytes → Bytes
ipv4_icmp src dst = ipv4_header 28 1 src dst ++ (8 ∷ zero_bytes 7)

-- `dnsResponse`, for the four numbers of the address.
unfoldable pub dns_response : Bytes → Bytes → Bytes
dns_response name ip =
    (0x12 ∷ 0x34 ∷ 0x81 ∷ 0x80 ∷ 0 ∷ 1 ∷ 0 ∷ 1 ∷ 0 ∷ 0 ∷ 0 ∷ 0 ∷ [])
    ++ (encode_dns_name name
        ++ (put_uint16 big 1
            ++ (put_uint16 big 1
                ++ (encode_dns_name name
                    ++ (put_uint16 big 1
                        ++ (put_uint16 big 1
                            ++ (put_uint32 big 60 ++ (put_uint16 big 4 ++ ip))))))))

-- `dhcpDiscover`.
unfoldable pub dhcp_discover : Bytes
dhcp_discover =
    (1 ∷ 1 ∷ 6 ∷ 0 ∷ [])
    ++ (put_uint32 big 0xdeadbeef
        ++ (zero_bytes 20
            ++ (client_mac
                ++ (zero_bytes 202 ++ (put_uint32 big 0x63825363 ++ (53 ∷ 1 ∷ 1 ∷ 255 ∷ []))))))

-- `http2Settings`.
unfoldable pub http2_settings : Bytes
http2_settings = (0 ∷ 0 ∷ 6 ∷ 4 ∷ zero_bytes 5) ++ (put_uint16 big 3 ++ put_uint32 big 100)

-- `buildSNIExtension`.
unfoldable pub build_sni_extension : Bytes → Bytes
build_sni_extension host =
    put_uint16 big 0
    ++ (put_uint16 big (5 + length host)
        ++ (put_uint16 big (3 + length host) ++ (0 ∷ (put_uint16 big (length host) ++ host))))

-- The handshake header and the record header around a hello.
abbrev in_record : ℕ → ℕ → Bytes → Bytes
in_record kind minor hello =
    (22 ∷ 3 ∷ minor ∷ [])
    ++ (put_uint16 big (4 + length hello)
        ++ ((kind
              ∷ (length hello / 65536 % 256)
              ∷ (length hello / 256 % 256)
              ∷ (length hello % 256)
              ∷ [])
            ++ hello))

-- The loop over the cipher suites.
unfoldable pub put_all : List ℕ → Bytes
put_all [] = []
put_all (c ∷ cs) = put_uint16 big c ++ put_all cs

abbrev pub cipher_suites : List ℕ
cipher_suites = 0x1301 ∷ 0x1302 ∷ 0xc02f ∷ 0xc030 ∷ 0x009c ∷ []

-- `tlsClientHello`.
unfoldable pub tls_client_hello : Bytes → Bytes
unfolding build_sni_extension put_all
tls_client_hello sni =
    let groups = 0 ∷ 0x0a ∷ 0 ∷ 4 ∷ 0 ∷ 2 ∷ 0 ∷ 0x17 ∷ [] in
    let formats = 0 ∷ 0x0b ∷ 0 ∷ 2 ∷ 1 ∷ 0 ∷ [] in
    let exts = build_sni_extension sni ++ (groups ++ formats) in
    in_record 1 1 (
      (3 ∷ 3 ∷ zero_bytes 32)
      ++ (0
          ∷ (put_uint16 big (2 * length cipher_suites)
              ++ (put_all cipher_suites
                  ++ ((1 ∷ 0 ∷ []) ++ (put_uint16 big (length exts) ++ exts))))))

-- `tlsServerHello`.
unfoldable pub tls_server_hello : Bytes
tls_server_hello = in_record 2 3 ((3 ∷ 3 ∷ zero_bytes 32) ++ (0 ∷ 0xc0 ∷ 0x2f ∷ 0 ∷ []))

-- The loop of `tlsAppData` over the bytes from `i` on.
unfoldable pub counting : ℕ → ℕ → Bytes
counting zero i = []
counting (suc n) i = (i % 256) ∷ counting n (i + 1)

-- `tlsAppData`.
unfoldable pub tls_app_data : ℕ → Bytes
unfolding counting
tls_app_data n = (23 ∷ 3 ∷ 3 ∷ []) ++ (put_uint16 big n ++ counting n 0)

-- ===== src/Demo.antt =====
-- cmd/fluxtap/main.go: the demo capture, and here its DNS query.
pub mod Capture
pub mod Lengths
pub mod Names
pub mod Packets
use flux_tap.Prelude.Words.{Bytes, big, put_uint16}
use flux_tap.Prelude.{ℕ, ◌%◌, List, [], ◌∷◌, ◌++◌, length}
use flux_tap.Text.Split.{split}
use flux_tap.Text.{text}

-- The loop of `encodeDNSName` over the labels, and the byte behind it.
unfoldable pub encode_labels : List Bytes → Bytes
encode_labels [] = 0 ∷ []
encode_labels (p ∷ ps) = length p % 256 ∷ (p ++ encode_labels ps)

unfoldable pub encode_dns_name : Bytes → Bytes
unfolding encode_labels
encode_dns_name name = encode_labels (split (text ".") name)

-- The first twelve bytes of `dnsQuery`.
abbrev pub query_header : Bytes
query_header = 0x12 ∷ 0x34 ∷ 1 ∷ 0 ∷ 0 ∷ 1 ∷ 0 ∷ 0 ∷ 0 ∷ 0 ∷ 0 ∷ 0 ∷ []

unfoldable pub dns_query : Bytes → ℕ → Bytes
unfolding encode_dns_name
dns_query name qtype =
    query_header ++ (encode_dns_name name ++ (put_uint16 big qtype ++ put_uint16 big 1))

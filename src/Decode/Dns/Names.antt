-- ===== src/Decode/Dns/Names.antt =====
-- `readDNSName` and the names of the record types of internal/decode/dns.go.
use flux_tap.Decode.Frame.{u16}
use flux_tap.Prelude.Panics.{◌>>=◌}
use flux_tap.Prelude.Words.{Bytes, index, slice}
use flux_tap.Prelude.{
  ℕ, zero, suc, ◌+◌, ◌/◌, ◌%◌, Bool, true, false, Option, some, List, [], ◌∷◌, ◌++◌, ltb, leb, ◌==◌,
  if◌then◌else◌, length,
}
use flux_tap.Text.{text, decimal, join}

-- What one round of `readDNSName` does: break at a place, follow a pointer, or take a label.
pub data NameStep : Type 0 where
  stop : ℕ → NameStep
  jump : ℕ → NameStep
  label : Bytes → ℕ → NameStep

unfoldable pub name_step : Bytes → ℕ → Option NameStep
name_step b pos =
    if ltb pos (length b)
    then (do
      l ← index b pos
      if l == 0
          then some (stop (pos + 1))
          else if l / 64 % 4 == 3
          then (if leb (length b) (pos + 1)
              then some (stop pos)
              else some (jump (u16 b pos % 16384)))
          else if ltb (length b) (pos + 1 + l)
          then some (stop (pos + 1))
          else do s ← slice b (pos + 1) (pos + 1 + l); some (label s (pos + 1 + l)))
    else some (stop pos)

abbrev pub name_end : Bool → ℕ → ℕ → List Bytes → Bytes × ℕ
name_end jumped start pos parts = (join parts (text "."), if jumped then start else pos)

abbrev pub after_name_step :
    (ℕ → Bool → ℕ → List Bytes → Option (Bytes × ℕ))
    → ℕ
    → Bool
    → ℕ
    → List Bytes
    → NameStep
    → Option (Bytes × ℕ)
after_name_step loop pos jumped start parts (stop p) = some (name_end jumped start p parts)
after_name_step loop pos jumped start parts (jump p) =
    loop p true (if jumped then start else pos + 2) parts
after_name_step loop pos jumped start parts (label s p) = loop p jumped start (parts ++ s ∷ [])

-- The loop of `readDNSName`; the number is that of the rounds left, 64 at first.
unfoldable pub name_loop : ℕ → Bytes → ℕ → Bool → ℕ → List Bytes → Option (Bytes × ℕ)
name_loop zero b pos jumped start parts = some (name_end jumped start pos parts)
name_loop (suc n) b pos jumped start parts = do
  step ← name_step b pos
  after_name_step (name_loop n b) pos jumped start parts step

unfoldable pub read_dns_name : Bytes → ℕ → Option (Bytes × ℕ)
read_dns_name b pos = name_loop 64 b pos false pos []

unfoldable pub dns_type_name : ℕ → Bytes
dns_type_name t =
    if t == 1
    then text "A"
    else if t == 2
    then text "NS"
    else if t == 5
    then text "CNAME"
    else if t == 6
    then text "SOA"
    else if t == 12
    then text "PTR"
    else if t == 15
    then text "MX"
    else if t == 16
    then text "TXT"
    else if t == 28
    then text "AAAA"
    else if t == 33
    then text "SRV"
    else if t == 41
    then text "OPT"
    else if t == 43
    then text "DS"
    else if t == 46
    then text "RRSIG"
    else if t == 47
    then text "NSEC"
    else if t == 48
    then text "DNSKEY"
    else if t == 255
    then text "ANY"
    else if t == 65
    then text "HTTPS"
    else if t == 64
    then text "SVCB"
    else text "TYPE" ++ decimal t

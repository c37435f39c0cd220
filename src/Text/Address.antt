-- ===== src/Text/Address.antt =====
-- `net.IP.String()`.
use flux_tap.Prelude.Words.{Bytes}
use flux_tap.Prelude.{
  ℕ, suc, ◌+◌, ◌*◌, ◌&&◌, List, [], ◌∷◌, ◌++◌, map, ltb, leb, ◌==◌, if◌then◌else◌, length, take,
  drop,
}
use flux_tap.Text.{text, text_eq, decimal, hex, join}

-- The 16-bit groups of an address.
groups : Bytes → List ℕ
groups [] = []
groups (a ∷ []) = []
groups (a ∷ b ∷ bs) = (a * 256 + b) ∷ groups bs

zero_run : List ℕ → ℕ
zero_run [] = 0
zero_run (g ∷ gs) = let more = zero_run gs in if g == 0 then suc more else 0

-- Where the longest run of zero groups begins, and its length, if that is at least 2; the first of
-- equals.
longest_run : ℕ → List ℕ → ℕ × ℕ → ℕ × ℕ
unfolding zero_run
longest_run i [] best = best
longest_run i (g ∷ gs) best =
    let run = zero_run (g ∷ gs) in
    longest_run (i + 1) gs (if leb 2 run && ltb best.1 run then (i, run) else best)

group_texts : List ℕ → Bytes
group_texts gs = join (map hex gs) (text ":")

ipv6_string : List ℕ → Bytes
unfolding longest_run group_texts
ipv6_string gs =
    let (start, run) = longest_run 0 gs (0, 0) in
    if run == 0
    then group_texts gs
    else group_texts (take start gs) ++ (text "::" ++ group_texts (drop (start + run) gs))

ipv4_string : Bytes → Bytes
ipv4_string b = join (map decimal b) (text ".")

-- Every caller has 4 or 16 bytes. Four bytes, or an IPv4 address in its IPv6 form, are dotted.
unfoldable pub ip_string : Bytes → Bytes
unfolding ipv4_string ipv6_string groups text_eq
ip_string b =
    if length b == 0
    then text "<nil>"
    else if length b == 4
    then ipv4_string b
    else if length b == 16
    then (if text_eq (take 12 b) (0 ∷ 0 ∷ 0 ∷ 0 ∷ 0 ∷ 0 ∷ 0 ∷ 0 ∷ 0 ∷ 0 ∷ 255 ∷ 255 ∷ [])
        then ipv4_string (drop 12 b)
        else ipv6_string (groups b))
    else text "?"

-- ===== src/Decode/Tls/Ja3.antt =====
-- `buildJA3` of internal/decode/tls.go: the fingerprint of a ClientHello.
pub mod Safety
use flux_tap.Decode.Frame.{u16}
use flux_tap.Prelude.Panics.{◌>>=◌}
use flux_tap.Prelude.Words.{Bytes, index, slice}
use flux_tap.Prelude.{
  ℕ, zero, suc, ◌+◌, ◌-◌, ◌*◌, ◌/◌, ◌%◌, Bool, ◌&&◌, ◌||◌, not, Option, none, some, List, [], ◌∷◌,
  ◌++◌, ltb, leb, ◌==◌, if◌then◌else◌, length,
}
use flux_tap.Text.{text, decimal, join}

-- `isGREASE`: the low half of each byte is 10.
unfoldable pub is_grease : ℕ → Bool
is_grease v = v % 16 == 10 && v / 256 % 16 == 10

-- The 16-bit numbers from a place on, as many as are given, without those of GREASE.
unfoldable pub numbers : ℕ → Bytes → ℕ → List Bytes
numbers zero b pos = []
numbers (suc n) b pos =
    let v = u16 b pos in (if is_grease v then [] else decimal v ∷ []) ++ numbers n b (pos + 2)

-- The bytes from a place on, as many as are given.
unfoldable pub formats : ℕ → Bytes → ℕ → Option (List Bytes)
formats zero b pos = some []
formats (suc n) b pos = do p ← index b pos; ps ← formats n b (pos + 1); some (decimal p ∷ ps)

pub record Fingerprint : Type 0 where
  pub exts : List Bytes
  pub curves : List Bytes
  pub points : List Bytes

abbrev pub least : ℕ → ℕ → ℕ
least a b = if ltb a b then a else b

-- The groups of an extension of length `el` at `pos`: i = 2, 4, … while i+1 < gl+2 and i+1 < el.
unfoldable pub groups : Bytes → ℕ → ℕ → List Bytes
groups b pos el = numbers ((least (u16 b pos + 2) el - 2) / 2) b (pos + 2)

-- The point formats: i = 1, 2, … while i ≤ n and i < el.
unfoldable pub point_formats : Bytes → ℕ → ℕ → Option (List Bytes)
point_formats b pos el = do n ← index b pos; formats (least n (el - 1)) b (pos + 1)

unfoldable pub ja3_extension : Bytes → ℕ → ℕ → ℕ → Fingerprint → Option Fingerprint
ja3_extension b eid pos el s = do
  points ← if eid == 11 && leb 1 el then point_formats b pos el else some []
  some (record {
    exts = s.exts ++ (if is_grease eid then [] else decimal eid ∷ []);
    curves = s.curves ++ (if eid == 10 && leb 2 el then groups b pos el else []);
    points = s.points ++ points;
  })

-- The loop over the extensions before `end`, on fuel; each round takes four bytes.
unfoldable pub ja3_extensions : ℕ → Bytes → ℕ → ℕ → Fingerprint → Option Fingerprint
ja3_extensions zero b end pos s = none
ja3_extensions (suc n) b end pos s =
    let el = u16 b (pos + 2) in
    if leb (pos + 4) end && leb (pos + 4 + el) end
    then (do
      s' ← ja3_extension b (u16 b pos) (pos + 4) el s
      ja3_extensions n b end (pos + 4 + el) s')
    else some s

abbrev ja3_text : ℕ → List Bytes → Fingerprint → Bytes
ja3_text version suites s =
    decimal version
    ++ (text ","
        ++ (join suites (text "-")
            ++ (text ","
                ++ (join s.exts (text "-")
                    ++ (text ","
                        ++ (join s.curves (text "-") ++ (text "," ++ join s.points (text "-"))))))))

-- The fields of a ClientHello.
unfoldable pub ja3_body : Bytes → Option Bytes
ja3_body b = if leb (length b) 34 then some [] else do
  session_len ← index b 34
  let pos = 35 + session_len
  let cs_len = u16 b pos
  let after = pos + 2 + cs_len
  if ltb (length b) (pos + 2) || leb (length b) after then some [] else do
    comp_len ← index b after
    let at = after + 1 + comp_len
    let said = at + 2 + u16 b at
    let none_yet : Fingerprint = record { exts = []; curves = []; points = [] }
    s ←
        if leb (at + 2) (length b)
        then ja3_extensions (suc (length b)) b (least (length b) said) (at + 2) none_yet
        else some none_yet
    some (ja3_text (u16 b 0) (numbers (cs_len / 2) b (pos + 2)) s)

unfoldable pub build_ja3 : Bytes → Option Bytes
build_ja3 hs = if ltb (length hs) 4 then some [] else do
  ht ← index hs 0
  if not (ht == 1) then some [] else do
    rest ← slice hs 4 (length hs)
    a1 ← index hs 1
    a2 ← index hs 2
    a3 ← index hs 3
    let hs_len = 65536 * a1 + 256 * a2 + a3
    body ← if ltb hs_len (length rest) then slice rest 0 hs_len else some rest
    ja3_body body

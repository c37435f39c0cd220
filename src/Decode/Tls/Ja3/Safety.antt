-- ===== src/Decode/Tls/Ja3/Safety.antt =====
-- The reads and the loops of `buildJA3` of internal/decode/tls.go.
use flux_tap.Decode.Frame.{u16}
use flux_tap.Decode.Tls.Ja3.{
  Fingerprint, formats, point_formats, ja3_extension, ja3_extensions, ja3_body, build_ja3, least,
}
use flux_tap.Prelude.Panics.{Runs, returns, Runs-bind, Runs-if, Runs-index, Runs-slice, Runs-map}
use flux_tap.Prelude.Words.{Bytes}
use flux_tap.Prelude.{
  ℕ, zero, suc, ◌+◌, ◌-◌, ◌*◌, ◌≤◌, ◌<◌, not, ◌&&◌, ◌||◌, List, arith, tests, ltb, leb, ◌==◌,
  length,
}

abbrev Any : {A : Type 0} → A → Type 0
Any a = Unit {0}

formats-Runs :
    (n : ℕ) (b : Bytes) (pos : ℕ)
    → pos + n ≤ length b
    → Runs ⊥ (Any {A = List Bytes}) (formats n b pos)
unfolding formats
formats-Runs zero b pos h = returns _ tt
formats-Runs (suc n) b pos h =
    Runs-bind _ (Runs-index b pos (omega arith))
      λ _ _. Runs-bind _ (formats-Runs n b (pos + 1) (omega arith)) λ _ _. returns _ tt

ja3_extension-Runs :
    (b : Bytes) (eid pos el : ℕ) (s : Fingerprint)
    → pos + el ≤ length b
    → Runs ⊥ (Any {A = Fingerprint}) (ja3_extension b eid pos el s)
unfolding ja3_extension point_formats
ja3_extension-Runs b eid pos el s h =
    Runs-bind {Q = Any} _
      (Runs-if (eid == 11 && leb 1 el)
        (λ c.
          let some_byte : 1 ≤ el = ground arith in
          Runs-bind _ (Runs-index b pos (omega arith))
            λ n _. formats-Runs (least n (el - 1)) b (pos + 1) (ground arith))
        λ _. returns _ tt)
      λ _ _. returns _ tt

ja3_extensions-Runs :
    (n : ℕ) (b : Bytes) (end pos : ℕ) (s : Fingerprint)
    → end ≤ length b
    → end + 4 < pos + n
    → pos ≤ end + 4
    → Runs ⊥ (Any {A = Fingerprint}) (ja3_extensions n b end pos s)
unfolding ja3_extensions
ja3_extensions-Runs zero b end pos s inside enough h = absurd (omega arith)
ja3_extensions-Runs (suc n) b end pos s inside enough h =
    let el = u16 b (pos + 2) in
    Runs-if (leb (pos + 4) end && leb (pos + 4 + el) end)
      (λ c.
        let fits : pos + 4 + el ≤ end = ground arith in
        Runs-bind _ (ja3_extension-Runs b _ (pos + 4) el s (omega arith))
          λ s' _. ja3_extensions-Runs n b end (pos + 4 + el) s' inside (omega arith) (omega arith))
      λ _. returns _ tt

ja3_body-Runs : (b : Bytes) → Runs ⊥ (Any {A = Bytes}) (ja3_body b)
unfolding ja3_body
ja3_body-Runs b =
    Runs-if (leb (length b) 34) (λ _. returns _ tt)
      λ d. Runs-bind _ (Runs-index b 34 (omega tests)) λ session_len _.
        let pos = 35 + session_len in
        let after = pos + 2 + u16 b pos in
        Runs-if (ltb (length b) (pos + 2) || leb (length b) after) (λ _. returns _ tt)
          λ e.
            let more : after < length b = ground arith in
            Runs-bind _ (Runs-index b after more) λ comp_len _.
              let at = after + 1 + comp_len in
              Runs-bind {Q = Any} _
                (Runs-if (leb (at + 2) (length b))
                  (λ i.
                    let within : at + 2 ≤ length b = omega tests in
                    let low : at + 2 ≤ least (length b) (at + 2 + u16 b at) = ground arith in
                    let high : least (length b) (at + 2 + u16 b at) ≤ length b = ground arith in
                    ja3_extensions-Runs (suc (length b)) b _ (at + 2) _ high (omega arith)
                      (omega arith))
                  λ _. returns _ tt)
                λ _ _. returns _ tt

-- `buildJA3` never panics, whatever the handshake, and returns a text: its loops end, and every
-- read is in range.
pub build_ja3-Runs : (hs : Bytes) → Runs ⊥ (Any {A = Bytes}) (build_ja3 hs)
unfolding build_ja3
build_ja3-Runs hs =
    Runs-if (ltb (length hs) 4) (λ _. returns _ tt)
      λ c. Runs-bind _ (Runs-index hs 0 (omega tests)) λ ht _.
        Runs-if (not (ht == 1)) (λ _. returns _ tt)
          λ _. Runs-bind _ (Runs-slice hs 4 (length hs) (omega tests) (omega arith)) λ rest _.
            Runs-bind _ (Runs-index hs 1 (omega tests)) λ a1 _.
              Runs-bind _ (Runs-index hs 2 (omega tests)) λ a2 _.
                Runs-bind _ (Runs-index hs 3 (omega tests)) λ a3 _.
                  let hs_len = 65536 * a1 + 256 * a2 + a3 in
                  Runs-bind {Q = Any} _
                    (Runs-if (ltb hs_len (length rest))
                      (λ d.
                        Runs-map (λ x. x) (λ _ _. tt)
                          (Runs-slice rest 0 hs_len (omega arith) (omega tests)))
                      λ _. returns _ tt)
                    λ body _. ja3_body-Runs body

-- ===== src/Decode/Dhcp/Safety.antt =====
-- On what `dissectDHCP` of internal/decode/dns.go panics, and where its layers lie.
use flux_tap.Decode.Dissected.{IsDissected, HasLayersIn, add_layer-HasLayersIn}
use flux_tap.Decode.Dhcp.{
  DhcpStep, finished, more, dhcp_step, after_dhcp_step, dhcp_options, dissect_dhcp,
}
use flux_tap.Decode.Frame.{Frame, u32}
use flux_tap.Text.{text}
use flux_tap.Prelude.Panics.{Runs, returns, Runs-bind, Runs-if, Runs-index, Runs-slice}
use flux_tap.Prelude.Words.{Bytes}
use flux_tap.Prelude.{
  ℕ, zero, suc, ◌+◌, ◌-◌, ◌≤◌, ◌<◌, ◌≡◌, ◌&&◌, Option, some, arith, ltb, leb, if◌then◌else◌, length,
  tests, ◌==◌,
}

-- A round over the options of a DHCP message goes on, and stops inside it.
abbrev DhcpIn : ℕ → DhcpStep → Type 0
DhcpIn i (finished msg) = Unit
DhcpIn i (more j msg) = i < j

dhcp_step-Runs : (b : Bytes) (i : ℕ) (msg : Bytes) → Runs ⊥ (DhcpIn i) (dhcp_step b i msg)
unfolding dhcp_step
dhcp_step-Runs b i msg =
    Runs-if (ltb i (length b))
      (λ p. Runs-bind _ (Runs-index b i (omega tests)) λ code _.
        Runs-if (code == 255) (λ _. returns _ tt)
          λ _.
            Runs-if (code == 0) (λ _. returns _ (omega arith))
              λ _.
                Runs-if (leb (length b) (i + 1)) (λ _. returns _ tt)
                  λ q. Runs-bind _ (Runs-index b (i + 1) (omega tests)) λ l _.
                    Runs-if (ltb (length b) (i + 2 + l)) (λ _. returns _ tt)
                      λ r.
                        Runs-if (code == 53 && l == 1)
                          (λ s.
                            Runs-bind _ (Runs-index b (i + 2) (ground arith))
                              λ t _. returns _ (omega arith))
                          λ _. returns _ (omega arith))
      λ _. returns _ tt

dhcp_step-end :
    (b : Bytes) (i : ℕ) (msg : Bytes) → length b ≤ i → dhcp_step b i msg ≡ some (finished msg)
unfolding dhcp_step
dhcp_step-end b i msg h = ground arith

after_dhcp_step-Runs :
    (b : Bytes) (loop : ℕ → Bytes → Option Bytes) (i : ℕ) (s : DhcpStep)
    → DhcpIn i s
    → ((j : ℕ) (msg : Bytes) → i < j → Runs ⊥ (λ (r : Bytes). Unit {0}) (loop j msg))
    → Runs ⊥ (λ (r : Bytes). Unit {0}) (after_dhcp_step loop s)
after_dhcp_step-Runs b loop i (finished msg) h k = returns _ tt
after_dhcp_step-Runs b loop i (more j msg) h k = k j msg h

dhcp_options-Runs :
    (m : ℕ) (b : Bytes) (i : ℕ) (msg : Bytes)
    → length b < i + m
    → Runs ⊥ (λ (r : Bytes). Unit {0}) (dhcp_options (suc m) b i msg)
unfolding dhcp_options
dhcp_options-Runs zero b i msg h = rw (dhcp_step-end b i msg (omega arith)) (returns _ tt)
dhcp_options-Runs (suc m) b i msg h = Runs-bind _ (dhcp_step-Runs b i msg) λ s k.
    after_dhcp_step-Runs b (dhcp_options (suc m) b) i s k
      λ j t l. dhcp_options-Runs m b j t (omega arith)

-- `dissectDHCP` panics on no payload; its loop over the options ends.
pub dissect_dhcp-Runs :
    (n : ℕ) (f : Frame) (b : Bytes) (offset : ℕ)
    → HasLayersIn n f
    → offset + length b ≤ n
    → Runs ⊥ (IsDissected n) (dissect_dhcp f b offset)
unfolding dissect_dhcp
dissect_dhcp-Runs n f b offset h fits =
    Runs-if (ltb (length b) 240)
      (λ _. returns _ (add_layer-HasLayersIn n _ _ _ _ offset (length b) _ h fits, fits))
      λ long. Runs-bind _ (Runs-index b 0 (omega tests)) λ op _.
        Runs-bind _ (Runs-slice b 12 16 (omega arith) (omega tests)) λ ciaddr _.
          Runs-bind _ (Runs-slice b 16 20 (omega arith) (omega tests)) λ yiaddr _.
            Runs-bind _ (Runs-slice b 28 34 (omega arith) (omega tests)) λ chaddr _.
              Runs-bind _ (options (omega tests)) λ msg _.
                returns _ (add_layer-HasLayersIn n _ _ _ _ offset (length b) _ h fits, fits)
  where
    options :
        240 ≤ length b
        → Runs ⊥
            (λ (r : Bytes). Unit {0})
            (if ltb 240 (length b) && u32 b 236 == 0x63825363
              then dhcp_options (length b) b 240 (text "unknown")
              else some (text "unknown"))
    options p =
        let e : length b ≡ suc (length b - 1) = omega arith in
        Runs-if (ltb 240 (length b) && u32 b 236 == 0x63825363)
          (λ _. rw e (dhcp_options-Runs (length b - 1) b 240 (text "unknown") (omega arith)))
          λ _. returns _ tt

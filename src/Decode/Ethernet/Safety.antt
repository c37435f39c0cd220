-- ===== src/Decode/Ethernet/Safety.antt =====
-- On what the dissectors of internal/decode/eth.go panic, and where their layers lie.
use flux_tap.Decode.Dissected.{IsDissected, HasLayersIn, add_layer-HasLayersIn}
use flux_tap.Decode.Ethernet.{
  dissect_arp, Tagged, returned, untagged, vlan_tags, dissect_network, dissect_ethertype,
  dissect_ethernet, dissect_linux_sll, dissect_linux_sll2,
}
use flux_tap.Decode.Frame.{Frame, u16}
use flux_tap.Decode.Ip.Safety.{dissect_ipv4-Runs, dissect_ipv6-Runs}
use flux_tap.Decode.BadOptions.{HasBadNetwork, ipv4, ipv6, HasBadTagged, bare, tag}
use flux_tap.Decode.Tls.{Md5}
use flux_tap.Prelude.Panics.{Runs, returns, Runs-bind, Runs-if, Runs-index, Runs-slice, Runs-map}
use flux_tap.Prelude.Words.{Bytes}
use flux_tap.Prelude.{
  ℕ, zero, suc, ◌≡◌, true, ◌⊎◌, subst, ◌+◌, ◌-◌, ◌≤◌, ◌<◌, ◌||◌, Option, [], arith, ltb, tests,
  ◌==◌, length,
}

-- The place behind the tags, where bad options are bad options behind the tags from the start.
abbrev IsTagged : Bytes → Type 0 → Tagged → Type 0
IsTagged b P (returned f off) = HasLayersIn (length b) f × (off ≤ length b)
IsTagged b P (untagged f off etype) =
    HasLayersIn (length b) f × (off ≤ length b) × (HasBadNetwork b off etype → P)

IsTagged-map :
    {P P' : Type 0} (b : Bytes) (t : Tagged) → (P → P') → IsTagged b P t → IsTagged b P' t
IsTagged-map b (returned f off) g k = k
IsTagged-map b (untagged f off etype) g (h, inside, p) = (h, inside, λ bad. g (p bad))

vlan_tags-Runs :
    (fuel : ℕ) (f : Frame) (b : Bytes) (offset etype : ℕ)
    → HasLayersIn (length b) f
    → offset ≤ length b
    → length b < offset + fuel
    → Runs ⊥ (IsTagged b (HasBadTagged b offset etype)) (vlan_tags fuel f b offset etype)
unfolding vlan_tags
vlan_tags-Runs zero f b offset etype h inside m = absurd (omega arith)
vlan_tags-Runs (suc fuel) f b offset etype h inside m =
    Runs-if (etype == 0x8100 || etype == 0x88a8)
      (λ tagged.
        Runs-if (ltb (length b - offset) 4) (λ _. returns _ (h, inside))
          λ long.
            Runs-map (λ p. p) (λ t. IsTagged-map b t (tag (either tagged) (omega tests)))
              (vlan_tags-Runs fuel _ b (offset + 4) (u16 b (offset + 2))
                (add_layer-HasLayersIn (length b) f _ _ _ offset 4 _ h (omega tests)) (omega tests)
                (omega tests)))
      λ _. returns _ (h, inside, bare)
  where
    either : (etype == 0x8100 || etype == 0x88a8) ≡ true → (etype ≡ 0x8100) ⊎ (etype ≡ 0x88a8)
    either e = ground arith

module _ (f : Frame) (b : Bytes) (offset : ℕ) (h : HasLayersIn (length b) f)
    (inside : offset ≤ length b) where
  -- `dissectARP` panics on no packet.
  pub dissect_arp-Runs : {P : Type 0} → Runs P (IsDissected (length b)) (dissect_arp f b offset)
  unfolding dissect_arp
  dissect_arp-Runs =
      Runs-if (ltb (length b - offset) 28) (λ _. returns _ (h, inside))
        λ long. Runs-bind _ (Runs-index b (offset + 4) (omega tests)) λ _ _.
          Runs-bind _ (Runs-index b (offset + 5) (omega tests)) λ _ _.
            Runs-bind _ (Runs-slice b (offset + 8) (offset + 14) (omega arith) (omega tests)) λ _ _.
              Runs-bind _ (Runs-slice b (offset + 14) (offset + 18) (omega arith) (omega tests))
                λ _ _.
                  Runs-bind _ (Runs-slice b (offset + 18) (offset + 24) (omega arith) (omega tests))
                    λ _ _.
                      Runs-bind _
                        (Runs-slice b (offset + 24) (offset + 28) (omega arith) (omega tests))
                        λ _ _. returns _ (
                          add_layer-HasLayersIn (length b) _ _ _ _ offset 28 _ h (omega tests),
                          omega tests,
                        )

  dissect_network-Runs :
      (md5 : Md5) (etype : ℕ) (other : Option (Frame × ℕ))
      → Runs (HasBadNetwork b offset etype) (IsDissected (length b)) other
      → Runs
          (HasBadNetwork b offset etype)
          (IsDissected (length b))
          (dissect_network md5 f b offset etype other)
  dissect_network-Runs md5 etype other k =
      Runs-if (etype == 0x0800)
        (λ is_v4.
          let same : 0x0800 ≡ etype = omega tests in
          Runs-map (λ bad. subst (HasBadNetwork b offset) same (ipv4 bad)) (λ _ q. q)
            (dissect_ipv4-Runs md5 f b offset h inside))
        λ _.
          Runs-if (etype == 0x86dd)
            (λ is_v6.
              let same : 0x86dd ≡ etype = omega tests in
              Runs-map (λ bad. subst (HasBadNetwork b offset) same (ipv6 bad)) (λ _ q. q)
                (dissect_ipv6-Runs md5 f b offset h inside))
            λ _. Runs-if (etype == 0x0806) (λ _. dissect_arp-Runs) λ _. k

dissect_ethertype-Runs :
    {P : Type 0} (md5 : Md5) (b : Bytes) (tagged : Tagged)
    → IsTagged b P tagged
    → Runs P (IsDissected (length b)) (dissect_ethertype md5 b tagged)
unfolding dissect_ethertype
dissect_ethertype-Runs md5 b (returned f offset) k = returns _ k
dissect_ethertype-Runs md5 b (untagged f offset etype) (h, inside, p) =
    Runs-map p (λ _ q. q)
      (dissect_network-Runs f b offset h inside md5 etype _ (
        Runs-if (etype == 0x88cc)
          (λ _. returns _ (
            add_layer-HasLayersIn (length b) f _ _ [] offset (length b - offset) _ h (omega arith),
            inside,
          ))
          λ _. returns _ (
            add_layer-HasLayersIn (length b) f _ _ [] offset (length b - offset) _ h (omega arith),
            inside,
          )))

module _ (md5 : Md5) (f : Frame) (b : Bytes) (offset : ℕ) (h : HasLayersIn (length b) f)
    (inside : offset ≤ length b) where
  -- `dissectEthernet` panics only on bad options of a TCP header behind its VLAN tags; its loop over
  -- the tags ends.
  pub dissect_ethernet-Runs :
      Runs
        (HasBadTagged b (offset + 14) (u16 b (offset + 12)))
        (IsDissected (length b))
        (dissect_ethernet md5 f b offset)
  unfolding dissect_ethernet
  dissect_ethernet-Runs =
      Runs-if (ltb (length b - offset) 14) (λ _. returns _ (h, inside))
        λ long. Runs-bind _ (Runs-slice b offset (offset + 6) (omega arith) (omega tests)) λ _ _.
          Runs-bind _ (Runs-slice b (offset + 6) (offset + 12) (omega arith) (omega tests)) λ _ _.
            Runs-bind _
              (Runs-map (λ p. absurd p) (λ _ q. q)
                (vlan_tags-Runs (suc (length b)) _ b (offset + 14) (u16 b (offset + 12))
                  (add_layer-HasLayersIn (length b) _ _ _ _ offset 14 _ h (omega tests))
                  (omega tests) (omega arith)))
              λ tagged k. dissect_ethertype-Runs md5 b tagged k

  pub dissect_linux_sll-Runs :
      Runs
        (HasBadNetwork b (offset + 16) (u16 b (offset + 14)))
        (IsDissected (length b))
        (dissect_linux_sll md5 f b offset)
  unfolding dissect_linux_sll
  dissect_linux_sll-Runs =
      Runs-if (ltb (length b - offset) 16) (λ _. returns _ (h, inside))
        λ long.
          let kept = add_layer-HasLayersIn (length b) f _ _ _ offset 16 _ h (omega tests) in
          let room : offset + 16 ≤ length b = omega tests in
          dissect_network-Runs _ b (offset + 16) kept room md5 (u16 b (offset + 14)) _
            (returns _ (kept, room))

  pub dissect_linux_sll2-Runs :
      Runs
        (HasBadNetwork b (offset + 20) (u16 b offset))
        (IsDissected (length b))
        (dissect_linux_sll2 md5 f b offset)
  unfolding dissect_linux_sll2
  dissect_linux_sll2-Runs =
      Runs-if (ltb (length b - offset) 20) (λ _. returns _ (h, inside))
        λ long. Runs-bind _ (Runs-index b (offset + 10) (omega tests)) λ _ _.
          Runs-bind _ (Runs-index b (offset + 11) (omega tests)) λ _ _.
            let kept = add_layer-HasLayersIn (length b) f _ _ _ offset 20 _ h (omega tests) in
            let room : offset + 20 ≤ length b = omega tests in
            dissect_network-Runs _ b (offset + 20) kept room md5 (u16 b offset) _
              (returns _ (kept, room))

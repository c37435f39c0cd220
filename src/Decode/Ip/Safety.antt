-- ===== src/Decode/Ip/Safety.antt =====
-- On what the dissectors of internal/decode/ip.go panic, and where their layers lie.
use flux_tap.Decode.Dissected.{IsDissected, HasLayersIn, add_layer-HasLayersIn}
use flux_tap.Decode.Frame.{Frame}
use flux_tap.Decode.Ip.{dissect_icmp, dissect_icmpv6, dispatch_ip, dissect_ipv4, dissect_ipv6}
use flux_tap.Decode.BadOptions.{HasBadTcp, HasBadIpv4, HasBadIpv6}
use flux_tap.Decode.Transport.Safety.{dissect_udp-Runs, dissect_tcp-Runs}
use flux_tap.Decode.Tls.{Md5}
use flux_tap.Prelude.Panics.{
  Runs, returns, Runs-bind, Runs-if, Runs-index, Runs-read, Runs-slice, Runs-map,
}
use flux_tap.Prelude.Words.{Bytes}
use flux_tap.Prelude.{
  ℕ, ◌+◌, ◌-◌, ◌*◌, ◌%◌, ◌≤◌, ◌||◌, [], arith, ltb, tests, ◌==◌, length, ◌≡◌, ap, ◌∙◌, some,
}

module _ {P : Type 0} (f : Frame) (b : Bytes) (offset : ℕ) (h : HasLayersIn (length b) f)
    (inside : offset ≤ length b) where
  dissect_icmp-Runs : Runs P (IsDissected (length b)) (dissect_icmp f b offset)
  unfolding dissect_icmp
  dissect_icmp-Runs =
      Runs-if (ltb (length b - offset) 8) (λ _. returns _ (h, inside))
        λ long. Runs-bind _ (Runs-index b offset (omega tests)) λ typ _.
          Runs-bind _ (Runs-index b (offset + 1) (omega tests)) λ code _. returns _ (
            add_layer-HasLayersIn (length b) f _ _ _ offset (length b - offset) _ h (omega arith),
            omega tests,
          )

  dissect_icmpv6-Runs : Runs P (IsDissected (length b)) (dissect_icmpv6 f b offset)
  unfolding dissect_icmpv6
  dissect_icmpv6-Runs =
      Runs-if (ltb (length b - offset) 4) (λ _. returns _ (h, inside))
        λ long. Runs-bind _ (Runs-index b offset (omega tests)) λ typ _.
          Runs-bind _ (Runs-index b (offset + 1) (omega tests)) λ code _. returns _ (
            add_layer-HasLayersIn (length b) f _ _ _ offset (length b - offset) _ h (omega arith),
            omega tests,
          )

module _ (md5 : Md5) (f : Frame) (b : Bytes) (offset : ℕ) (h : HasLayersIn (length b) f)
    (inside : offset ≤ length b) where
  pub dispatch_ip-Runs :
      (proto : ℕ)
      → Runs
          ((proto ≡ 6) × HasBadTcp b offset)
          (IsDissected (length b))
          (dispatch_ip md5 f b offset proto)
  unfolding dispatch_ip
  dispatch_ip-Runs proto =
      Runs-if (proto == 1) (λ _. dissect_icmp-Runs f b offset h inside)
        λ _.
          Runs-if (proto == 58) (λ _. dissect_icmpv6-Runs f b offset h inside)
            λ _.
              Runs-if (proto == 6)
                (λ tcp.
                  Runs-map (λ bad. (omega tests, bad)) (λ _ q. q)
                    (dissect_tcp-Runs f b offset h inside md5))
                λ _.
                  Runs-if (proto == 17)
                    (λ _.
                      Runs-map (λ p. absurd p) (λ _ q. q) (dissect_udp-Runs f b offset h inside))
                    λ _.
                      Runs-if (proto == 47)
                        (λ _. returns _ (
                          add_layer-HasLayersIn (length b) f _ _ [] offset (length b - offset) _ h
                              (omega arith),
                          inside,
                        ))
                        λ _.
                          Runs-if (proto == 50)
                            (λ _. returns _ (
                              add_layer-HasLayersIn (length b) f _ _ [] offset (length b - offset) _
                                  h (omega arith),
                              inside,
                            ))
                            λ _. returns _ (
                              add_layer-HasLayersIn (length b) f _ _ [] offset (length b - offset) _
                                  h (omega arith),
                              inside,
                            )

module _ (md5 : Md5) (f : Frame) (b : Bytes) (offset : ℕ) (h : HasLayersIn (length b) f)
    (inside : offset ≤ length b) where
  -- `dissectIPv4` panics only on bad options of the TCP header behind its own.
  pub dissect_ipv4-Runs :
      Runs (HasBadIpv4 b offset) (IsDissected (length b)) (dissect_ipv4 md5 f b offset)
  unfolding dissect_ipv4
  dissect_ipv4-Runs =
      Runs-if (ltb (length b - offset) 20) (λ _. returns _ (h, inside))
        λ long. Runs-bind _ (Runs-read b offset (omega tests)) λ ver_ihl first.
          Runs-if (ltb (ver_ihl % 16 * 4) 20 || ltb (length b) (offset + ver_ihl % 16 * 4))
            (λ _. returns _ (h, inside))
            λ fits.
              let room : offset + ver_ihl % 16 * 4 ≤ length b = ground arith in
              Runs-bind _ (Runs-index b (offset + 1) (omega tests)) λ tos _.
                Runs-bind _ (Runs-index b (offset + 8) (omega tests)) λ ttl _.
                  Runs-bind _ (Runs-read b (offset + 9) (omega tests)) λ proto read.
                    Runs-bind _
                      (Runs-slice b (offset + 12) (offset + 16) (omega arith) (omega tests))
                      λ src _.
                        Runs-bind _
                          (Runs-slice b (offset + 16) (offset + 20) (omega arith) (omega tests))
                          λ dst _.
                            Runs-map
                              (λ bad. record {
                                ver_ihl = ver_ihl;
                                first = first;
                                wide = ground arith;
                                protocol = read ∙ ap some bad.0;
                                tcp = bad.1;
                              })
                              (λ _ q. q)
                              (dispatch_ip-Runs md5 _ b (offset + ver_ihl % 16 * 4)
                                (add_layer-HasLayersIn (length b) _ _ _ _ offset (ver_ihl % 16 * 4)
                                  _ h room)
                                room proto)

  -- `dissectIPv6` panics only on bad options of the TCP header behind its own.
  pub dissect_ipv6-Runs :
      Runs (HasBadIpv6 b offset) (IsDissected (length b)) (dissect_ipv6 md5 f b offset)
  unfolding dissect_ipv6
  dissect_ipv6-Runs =
      Runs-if (ltb (length b - offset) 40) (λ _. returns _ (h, inside))
        λ long.
          let room : offset + 40 ≤ length b = omega tests in
          Runs-bind _ (Runs-read b (offset + 6) (omega tests)) λ next read.
            Runs-bind _ (Runs-index b (offset + 7) (omega tests)) λ hop _.
              Runs-bind _ (Runs-slice b (offset + 8) (offset + 24) (omega arith) (omega tests))
                λ src _.
                  Runs-bind _ (Runs-slice b (offset + 24) (offset + 40) (omega arith) (omega tests))
                    λ dst _.
                      Runs-map (λ bad. record { next = read ∙ ap some bad.0; tcp = bad.1 })
                        (λ _ q. q)
                        (dispatch_ip-Runs md5 _ b (offset + 40)
                          (add_layer-HasLayersIn (length b) _ _ _ _ offset 40 _ h room) room next)

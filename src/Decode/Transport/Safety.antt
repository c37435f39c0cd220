-- ===== src/Decode/Transport/Safety.antt =====
-- On what UDP and TCP of internal/decode/tcpudp.go panic, and where their layers lie.
use flux_tap.Decode.Dissected.{IsDissected, HasLayersIn, add_layer-HasLayersIn}
use flux_tap.Decode.Dhcp.Safety.{dissect_dhcp-Runs}
use flux_tap.Decode.Dns.Safety.{dissect_dns-Runs}
use flux_tap.Decode.Quic.{dissect_quic-Runs}
use flux_tap.Decode.Frame.{Frame, safe_slice}
use flux_tap.Decode.Http.Safety.{dissect_http-Runs, dissect_http2-Runs}
use flux_tap.Decode.BadOptions.{HasBadTcp, tcp_length}
use flux_tap.Decode.Transport.Options.{ReachesScale, parse_tcp_options-Runs}
use flux_tap.Decode.Tls.Safety.{dissect_tls-Runs}
use flux_tap.Decode.Tls.{Md5}
use flux_tap.Decode.Transport.Signatures.{
  looks_like_http, looks_like_http2, looks_like_tls, looks_like_quic, looks_like_dns, http2_preface,
}
use flux_tap.Decode.Transport.Header.{parse_tcp_options}
use flux_tap.Decode.Transport.{
  dissect_by_port, dissect_ssh, dissect_app_tcp, dissect_app_udp, dissect_tcp, dissect_udp, port_is,
}
use flux_tap.Prelude.Panics.{◌>>=◌, Runs, returns, Runs-bind, Runs-if, Runs-index, Runs-map}
use flux_tap.Prelude.Words.{Bytes, slice, slice_in_range}
use flux_tap.Prelude.{
  ℕ, ◌+◌, ◌-◌, ◌≤◌, ◌<◌, ◌≡◌, Bool, true, false, ◌&&◌, ◌||◌, some, [], arith, ltb, leb, tests, ◌==◌,
  if◌then◌else◌, length, drop, length-take, length-drop, ap, sym, ◌∙◌,
}
use flux_tap.Text.{text, has_prefix}

length-safe_slice :
    (b : Bytes) (off : ℕ) → off ≤ length b → length (safe_slice b off (length b)) ≡ length b - off
unfolding safe_slice
length-safe_slice b off h =
    ground (arith, length-take (length b - off) (drop off b), length-drop off b)

looks_like_tls-Runs : (b : Bytes) → Runs ⊥ (λ (r : Bool). Unit {0}) (looks_like_tls b)
unfolding looks_like_tls
looks_like_tls-Runs b =
    Runs-if (ltb (length b) 5) (λ _. returns _ tt)
      λ long. Runs-bind _ (Runs-index b 0 (omega tests)) λ ct _.
        Runs-bind _ (Runs-index b 1 (omega tests))
          λ maj _. Runs-bind _ (Runs-index b 2 (omega tests)) λ minv _. returns _ tt

looks_like_http2-Runs : (b : Bytes) → Runs ⊥ (λ (r : Bool). Unit {0}) (looks_like_http2 b)
unfolding looks_like_http2
looks_like_http2-Runs b =
    Runs-if (has_prefix b http2_preface) (λ _. returns _ tt)
      λ _.
        Runs-if (leb 9 (length b))
          (λ long. Runs-bind _ (Runs-index b 3 (omega tests)) λ t _.
            Runs-bind _ (Runs-index b 0 (omega tests)) λ b0 _.
              Runs-bind _ (Runs-index b 1 (omega tests))
                λ b1 _. Runs-bind _ (Runs-index b 2 (omega tests)) λ b2 _. returns _ tt)
          λ _. returns _ tt

looks_like_quic-Runs :
    (b : Bytes) → 0 < length b → Runs ⊥ (λ (r : Bool). Unit {0}) (looks_like_quic b)
unfolding looks_like_quic
looks_like_quic-Runs b h =
    Runs-if (ltb (length b) 5) (λ _. returns _ tt)
      λ long. Runs-bind _ (Runs-index b 0 h) λ flags _. returns _ tt

module _ (n : ℕ) (f : Frame) (b : Bytes) (offset sport dport : ℕ) (some_bytes : 0 < length b)
    (h : HasLayersIn n f) (fits : offset + length b ≤ n) where
  dissect_by_port-HasLayersIn : HasLayersIn n (dissect_by_port f b offset sport dport)
  unfolding dissect_by_port
  dissect_by_port-HasLayersIn =
      if-HasLayersIn (sport == 443 || dport == 443 || (sport == 8443 || dport == 8443)) _ _
        (add_layer-HasLayersIn n f _ _ _ offset (length b) _ h fits)
        (if-HasLayersIn (sport == 80 || dport == 80 || (sport == 8080 || dport == 8080)) _ _
          (add_layer-HasLayersIn n f _ _ _ offset (length b) _ h fits)
          (add_layer-HasLayersIn n f _ _ _ offset (length b) _ h fits))
    where
      if-HasLayersIn :
          (c : Bool) (x y : Frame)
          → HasLayersIn n x
          → HasLayersIn n y
          → HasLayersIn n (if c then x else y)
      if-HasLayersIn true x y p q = p
      if-HasLayersIn false x y p q = q

  dissect_app_udp-Runs : Runs ⊥ (IsDissected n) (dissect_app_udp f b offset sport dport)
  unfolding dissect_app_udp
  dissect_app_udp-Runs =
      Runs-if (port_is sport dport 53 || port_is sport dport 5353)
        (λ _. dissect_dns-Runs n f b offset (dport == 5353 || sport == 5353) h fits)
        λ _.
          Runs-if (port_is sport dport 67 || port_is sport dport 68)
            (λ _. dissect_dhcp-Runs n f b offset h fits)
            λ _.
              Runs-if (port_is sport dport 123)
                (λ _. returns _ (add_layer-HasLayersIn n f _ _ _ offset (length b) _ h fits, fits))
                λ _. Runs-bind _ (looks_like_quic-Runs b some_bytes) λ quic _.
                  Runs-if quic (λ _. dissect_quic-Runs n f b offset some_bytes h fits)
                    λ _.
                      Runs-if (looks_like_dns b && (port_is sport dport 53 || ltb 12 (length b)))
                        (λ _. dissect_dns-Runs n f b offset false h fits)
                        λ _.
                          returns _
                            (add_layer-HasLayersIn n f _ _ _ offset (length b) _ h fits, fits)

  dissect_app_tcp-Runs :
      (md5 : Md5) → Runs ⊥ (IsDissected n) (dissect_app_tcp md5 f b offset sport dport)
  unfolding dissect_app_tcp dissect_ssh
  dissect_app_tcp-Runs md5 = Runs-bind _ (looks_like_tls-Runs b) λ tls _.
      Runs-bind _ (looks_like_http2-Runs b) λ http2 _.
        Runs-if tls (λ _. dissect_tls-Runs md5 n f b offset h fits)
          λ _.
            Runs-if http2 (λ _. dissect_http2-Runs n f b offset h fits)
              λ _.
                Runs-if (looks_like_http b) (λ _. dissect_http-Runs n f b offset h fits)
                  λ _.
                    Runs-if (has_prefix b (text "SSH-"))
                      (λ _.
                        returns _
                          (add_layer-HasLayersIn n f _ _ _ offset (length b) _ h fits, fits))
                      λ _. returns _ (dissect_by_port-HasLayersIn, fits)

module _ (f : Frame) (b : Bytes) (offset : ℕ) (h : HasLayersIn (length b) f)
    (inside : offset ≤ length b) where
  -- `dissectUDP` panics on no packet.
  pub dissect_udp-Runs : Runs ⊥ (IsDissected (length b)) (dissect_udp f b offset)
  unfolding dissect_udp
  dissect_udp-Runs =
      Runs-if (ltb (length b - offset) 8) (λ _. returns _ (h, inside))
        λ long.
          let kept = add_layer-HasLayersIn (length b) f _ _ _ offset 8 _ h (omega tests) in
          let payload = length-safe_slice b (offset + 8) (omega tests) in
          Runs-if (length (safe_slice b (offset + 8) (length b)) == 0)
            (λ _. returns _ (kept, omega tests))
            λ some_bytes.
              dissect_app_udp-Runs (length b) _ _ (offset + 8) _ _ (ground arith) kept
                (omega (tests, payload))

  -- `dissectTCP` panics only on bad options of the header that it reads.
  pub dissect_tcp-Runs :
      (md5 : Md5) → Runs (HasBadTcp b offset) (IsDissected (length b)) (dissect_tcp md5 f b offset)
  unfolding dissect_tcp
  dissect_tcp-Runs md5 =
      Runs-if (ltb (length b - offset) 20) (λ _. returns _ (h, inside))
        λ long.
          let said = tcp_length b offset in
          let hdr_len = if ltb said 20 || ltb (length b) (offset + said) then 20 else said in
          let room : offset + hdr_len ≤ length b = ground arith in
          Runs-bind _ (options hdr_len room (ground arith)) λ opts _.
            let kept = add_layer-HasLayersIn (length b) f _ _ _ offset hdr_len _ h room in
            let payload = length-safe_slice b (offset + hdr_len) room in
            Runs-if (length (safe_slice b (offset + hdr_len) (length b)) == 0)
              (λ _. returns _ (kept, room))
              λ some_bytes.
                Runs-map (λ p. absurd p) (λ _ q. q)
                  (dissect_app_tcp-Runs (length b) _ _ (offset + hdr_len) _ _ (ground arith) kept
                    (omega (arith, payload)) md5)
    where
      bad :
          (hdr_len : ℕ) (o : Bytes)
          → hdr_len ≡ tcp_length b offset
          → 20 < hdr_len
          → offset + hdr_len ≤ length b
          → slice b (offset + 20) (offset + hdr_len) ≡ some o
          → ReachesScale o 0
          → HasBadTcp b offset
      bad hdr_len o said wide room e r = record {
        options = o;
        longer = omega (arith, said);
        fits = omega (arith, said);
        held = sym (ap (λ n. slice b (offset + 20) (offset + n)) said) ∙ e;
        reaches = r;
      }

      options :
          (hdr_len : ℕ)
          → offset + hdr_len ≤ length b
          → (20 < hdr_len → hdr_len ≡ tcp_length b offset)
          → Runs
              (HasBadTcp b offset)
              (λ (r : Bytes). Unit {0})
              (if ltb 20 hdr_len
                then slice b (offset + 20) (offset + hdr_len) >>= parse_tcp_options
                else some [])
      options hdr_len room said =
          Runs-if (ltb 20 hdr_len)
            (λ p.
              let wide : 20 < hdr_len = omega tests in
              let (o, e, _) =
                slice_in_range b (offset + 20) (offset + hdr_len) (omega tests) room in
              rw e (
                Runs-map (bad hdr_len o (said wide) wide room e) (λ _ u. u)
                  (parse_tcp_options-Runs o)))
            λ _. returns _ tt

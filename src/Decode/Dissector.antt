-- ===== src/Decode/Dissector.antt =====
-- `Dissector.Dissect` of internal/decode/frame.go, and on what it panics.
pub mod Panicking
use flux_tap.Decode.Dissected.{IsDissected, HasLayersIn}
use flux_tap.Decode.Ethernet.Safety.{
  dissect_ethernet-Runs, dissect_linux_sll-Runs, dissect_linux_sll2-Runs,
}
use flux_tap.Decode.Ethernet.{dissect_ethernet, dissect_linux_sll, dissect_linux_sll2}
use flux_tap.Decode.Frame.{Frame, add_layer, top_protocol, build_info, flow_key, hex_dump}
use flux_tap.Decode.Ip.Safety.{dissect_ipv4-Runs, dissect_ipv6-Runs}
use flux_tap.Decode.Ip.{dissect_ipv4, dissect_ipv6}
use flux_tap.Decode.BadOptions.{HasBadOptions, ethernet, linux_sll, linux_sll2, raw_ipv4, raw_ipv6}
use flux_tap.Decode.Tls.{Md5}
use flux_tap.Pcap.Stream.{Instant}
use flux_tap.Prelude.Panics.{◌>>=◌, Runs, returns, Runs-bind, Runs-if, Runs-map, Runs-read}
use flux_tap.Prelude.Words.{Bytes, index}
use flux_tap.Prelude.{
  ℕ, ◌/◌, ◌≡◌, refl, ◌⊎◌, subst, Bool, true, ◌&&◌, ◌||◌, Option, some, [], ◌∷◌, ◌++◌, ltb, tests,
  arith, ◌==◌, if◌then◌else◌, length, take,
}
use flux_tap.Text.Dict.{Dict}
use flux_tap.Text.{text, decimal, is_empty}

pub record Dissector : Type 0 where
  pub include_hex : Bool
  pub max_hex : ℕ

-- `NewDissector`.
abbrev pub new_dissector : Dissector
new_dissector = record { include_hex = true; max_hex = 512 }

-- The frame before any layer, with the bytes printed if that is asked for.
unfoldable pub start_frame : Dissector → ℕ → Instant → ℕ → ℕ → Bytes → Frame
start_frame d number ts cap_len orig_len b = record {
  number = number;
  timestamp = ts;
  cap_len = cap_len;
  orig_len = orig_len;
  len = length b;
  src = [];
  dst = [];
  protocol = [];
  info = [];
  layers = [];
  hex_dump =
      if d.include_hex
      then hex_dump
          (take (if ltb 0 d.max_hex && ltb d.max_hex (length b) then d.max_hex else length b) b) 0
      else [];
  meta = [];
  flow_key = [];
  severity = [];
  tags = [];
}

-- The end of `Dissect`: what the layers did not say.
unfoldable pub finish_frame : Frame → Frame
finish_frame f =
    let g = if is_empty f.protocol then record f { protocol = top_protocol f } else f in
    let h = if is_empty g.info then record g { info = build_info g } else g in
    record h { flow_key = flow_key h }

module _ (md5 : Md5) where
  -- A packet that begins with an IP header, of the version that its first bits say.
  dissect_raw : Frame → Bytes → Option (Frame × ℕ)
  dissect_raw f b =
      if ltb 0 (length b)
      then (do
        first ← index b 0
        if first / 16 == 4
            then dissect_ipv4 md5 f b 0
            else if first / 16 == 6
            then dissect_ipv6 md5 f b 0
            else some (f, 0))
      else some (f, 0)

  -- The switch on the link type.
  unfoldable pub dissect_link : Frame → ℕ → Bytes → Option (Frame × ℕ)
  unfolding dissect_raw
  dissect_link f link_type b =
      if link_type == 1 || link_type == 0
      then dissect_ethernet md5 f b 0
      else if link_type == 113
      then dissect_linux_sll md5 f b 0
      else if link_type == 276
      then dissect_linux_sll2 md5 f b 0
      else if link_type == 101
      then dissect_raw f b
      else (let summary =
            text "linktype=" ++ (decimal link_type ++ (text " len=" ++ decimal (length b))) in
          let fields : Dict Bytes = (text "link_type", decimal link_type) ∷ [] in
          some (add_layer f (text "Raw") summary fields 0 (length b) (text "#64748b"), 0))

  -- `Dissect`; `none` is a panic.
  unfoldable pub dissect : Dissector → ℕ → Instant → ℕ → ℕ → ℕ → Bytes → Option Frame
  dissect d number ts cap_len orig_len link_type b = do
    (f, _) ← dissect_link (start_frame d number ts cap_len orig_len b) link_type b
    some (finish_frame f)

  dissect_raw-Runs :
      (f : Frame) (b : Bytes)
      → HasLayersIn (length b) f
      → Runs (HasBadOptions b 101) (IsDissected (length b)) (dissect_raw f b)
  unfolding dissect_raw
  dissect_raw-Runs f b h =
      Runs-if (ltb 0 (length b))
        (λ p. Runs-bind _ (Runs-read b 0 (omega tests)) λ first read.
          Runs-if (first / 16 == 4)
            (λ v4.
              Runs-map (raw_ipv4 first read (omega tests)) (λ _ q. q)
                (dissect_ipv4-Runs md5 f b 0 h (omega arith)))
            λ _.
              Runs-if (first / 16 == 6)
                (λ v6.
                  Runs-map (raw_ipv6 first read (omega tests)) (λ _ q. q)
                    (dissect_ipv6-Runs md5 f b 0 h (omega arith)))
                λ _. returns _ (h, omega arith))
        λ _. returns _ (h, omega arith)

  dissect_link-Runs :
      (f : Frame) (link_type : ℕ) (b : Bytes)
      → HasLayersIn (length b) f
      → f.layers ≡ []
      → Runs (HasBadOptions b link_type) (IsDissected (length b)) (dissect_link f link_type b)
  unfolding dissect_link add_layer
  dissect_link-Runs f link_type b h none_yet =
      Runs-if (link_type == 1 || link_type == 0)
        (λ is_ethernet.
          Runs-map (ethernet (either is_ethernet)) (λ _ q. q)
            (dissect_ethernet-Runs md5 f b 0 h (omega arith)))
        λ _.
          Runs-if (link_type == 113)
            (λ is_sll.
              let same : 113 ≡ link_type = omega tests in
              Runs-map (λ bad. subst (HasBadOptions b) same (linux_sll bad)) (λ _ q. q)
                (dissect_linux_sll-Runs md5 f b 0 h (omega arith)))
            λ _.
              Runs-if (link_type == 276)
                (λ is_sll2.
                  let same : 276 ≡ link_type = omega tests in
                  Runs-map (λ bad. subst (HasBadOptions b) same (linux_sll2 bad)) (λ _ q. q)
                    (dissect_linux_sll2-Runs md5 f b 0 h (omega arith)))
                λ _.
                  Runs-if (link_type == 101)
                    (λ is_raw.
                      let same : 101 ≡ link_type = omega tests in
                      Runs-map (subst (HasBadOptions b) same) (λ _ q. q) (dissect_raw-Runs f b h))
                    λ _. returns _ (rw none_yet (omega arith, tt), omega arith)
    where
      either : (link_type == 1 || link_type == 0) ≡ true → (link_type ≡ 1) ⊎ (link_type ≡ 0)
      either e = ground arith

  finish_frame-layers : (f : Frame) → (finish_frame f).layers ≡ f.layers
  unfolding finish_frame
  finish_frame-layers f = ground arith

  -- Whatever the packet, its link type and the settings, `Dissect` returns a frame whose layers
  -- all lie in the packet; or the walk from its link layer, by the fields of its own headers, comes
  -- to a TCP header whose options are such that `parseTCPOptions` panics: the walk over them comes to
  -- a window scale option of length 2 that ends them.
  pub dissect-Runs :
      (d : Dissector) (number : ℕ) (ts : Instant) (cap_len orig_len link_type : ℕ) (b : Bytes)
      → Runs
          (HasBadOptions b link_type)
          (HasLayersIn (length b))
          (dissect d number ts cap_len orig_len link_type b)
  unfolding dissect start_frame
  dissect-Runs d number ts cap_len orig_len link_type b =
      Runs-bind _ (dissect_link-Runs _ link_type b tt refl)
        λ r k. returns _ (rw finish_frame-layers k.0)

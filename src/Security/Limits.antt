-- ===== src/Security/Limits.antt =====
-- The limits of the analyzer of internal/security/analyzer.go.
use flux_tap.Decode.Frame.{Layer, Frame}
use flux_tap.Prelude.Words.{Bytes}
use flux_tap.Prelude.{
  ℕ, ◌-◌, ◌/◌, ◌≤◌, ◌<◌, ◌≡◌, ◌&&◌, List, [], ◌∷◌, arith, ltb, ◌==◌, length, length-append,
  length-drop, if-both,
}
use flux_tap.Security.{
  Finding, Analyzer, Inspection, bump, make_room, add, mark, check_scan, check_tunnel, check_auth,
  check_tls, each, tag_icmp, observe, is_syn, source, is_weak,
}
use flux_tap.Text.Dict.{Dict, get, tally}
use flux_tap.Text.{text, text_eq, has_prefix, to_lower}

-- At most `limit` findings, which is not 0, and at most 10000 sources counted for each rule.
pub record IsWithin (a : Analyzer) : Type 0 where
  pub few : length a.findings ≤ a.limit
  pub positive : 0 < a.limit
  pub syn_sources : length a.syn_count ≤ 10000
  pub dns_sources : length a.dns_long ≤ 10000

bump-le : (m : Dict ℕ) (k : Bytes) → length m ≤ 10000 → length (bump m k) ≤ 10000
unfolding bump
bump-le m k h = ground arith

length-make_room :
    (limit : ℕ) (findings : List Finding)
    → 0 < limit
    → length findings ≤ limit
    → length (make_room limit findings) < limit
unfolding make_room
length-make_room limit findings p h =
    ground (arith, length-drop (length findings - limit / 2) findings)

add-IsWithin :
    (severity rule message : Bytes) (s : Inspection)
    → IsWithin s.analyzer
    → IsWithin (add severity rule message s).analyzer
unfolding add
add-IsWithin severity rule message s v = record {
  few = omega (
    arith,
    length-append {0},
    length-make_room s.analyzer.limit s.analyzer.findings v.positive v.few,
  );
  positive = v.positive;
  syn_sources = v.syn_sources;
  dns_sources = v.dns_sources;
}

abbrev Keeps : (Inspection → Inspection) → Type 0
Keeps step = (s : Inspection) → IsWithin s.analyzer → IsWithin (step s).analyzer

check_scan-IsWithin : Keeps check_scan
unfolding check_scan
check_scan-IsWithin s v =
    let counted : IsWithin
        (record s.analyzer { syn_count = bump s.analyzer.syn_count (source s.frame) }) =
      record {
        few = v.few;
        positive = v.positive;
        syn_sources = bump-le _ _ v.syn_sources;
        dns_sources = v.dns_sources;
      } in
    if-both (λ (r : Inspection). IsWithin r.analyzer) (is_syn s.frame) _ _
      (if-both (λ (r : Inspection). IsWithin r.analyzer)
        (tally (bump s.analyzer.syn_count (source s.frame)) (source s.frame) == 30) _ _
        (add-IsWithin _ _ _ _ counted) counted)
      v

check_tunnel-IsWithin : Keeps check_tunnel
unfolding check_tunnel mark
check_tunnel-IsWithin s v =
    let counted : IsWithin
        (record s.analyzer { dns_long = bump s.analyzer.dns_long (source s.frame) }) =
      record {
        few = v.few;
        positive = v.positive;
        syn_sources = v.syn_sources;
        dns_sources = bump-le _ _ v.dns_sources;
      } in
    if-both (λ (r : Inspection). IsWithin r.analyzer)
      (ltb 60 (length (get s.frame.meta (text "dns_qry")))) _ _
      (if-both (λ (r : Inspection). IsWithin r.analyzer)
        (tally (bump s.analyzer.dns_long (source s.frame)) (source s.frame) == 3) _ _
        (add-IsWithin _ _ _ _ counted) counted)
      v

check_auth-IsWithin : (l : Layer) → Keeps (check_auth l)
unfolding check_auth mark
check_auth-IsWithin l s v =
    if-both (λ (r : Inspection). IsWithin r.analyzer)
      (text_eq l.name (text "HTTP")
        && has_prefix (to_lower (get l.fields (text "hdr_authorization"))) (text "basic "))
      _ _ (add-IsWithin _ _ _ s v) v

check_tls-IsWithin : (l : Layer) → Keeps (check_tls l)
unfolding check_tls mark
check_tls-IsWithin l s v =
    if-both (λ (r : Inspection). IsWithin r.analyzer)
      (text_eq l.name (text "TLS") && is_weak (get l.fields (text "client_version"))) _ _
      (add-IsWithin _ _ _ s v) v

each-IsWithin :
    (check : Layer → Inspection → Inspection) (ls : List Layer)
    → ((l : Layer) → Keeps (check l))
    → Keeps (each check ls)
each-IsWithin check [] k s v = v
each-IsWithin check (l ∷ ls) k s v = each-IsWithin check ls k (check l s) (k l s v)

tag_icmp-analyzer : (s : Inspection) → (tag_icmp s).analyzer ≡ s.analyzer
unfolding tag_icmp
tag_icmp-analyzer s = ground arith

-- Whatever frames come, the analyzer holds at most `limit` findings and counts at most 10000
-- sources for the scan and for the tunnel heuristic.
pub observe-IsWithin : (a : Analyzer) (f : Frame) → IsWithin a → IsWithin (observe a f).analyzer
unfolding observe
observe-IsWithin a f v = rw tag_icmp-analyzer (
    each-IsWithin check_tls f.layers check_tls-IsWithin _ (
      each-IsWithin check_auth f.layers check_auth-IsWithin _
        (check_tunnel-IsWithin _ (check_scan-IsWithin _ v))))

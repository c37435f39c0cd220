-- ===== src/Security.antt =====
-- internal/security/analyzer.go: the heuristics over frames. The lock is not modelled: calls happen
-- one after the other. A frame is changed where the source writes through its pointer.
pub mod Limits
pub mod Scans
use flux_tap.Decode.Frame.{Layer, Frame, add_tags}
use flux_tap.Pcap.Stream.{Instant}
use flux_tap.Prelude.Words.{Bytes}
use flux_tap.Prelude.{
  ℕ, ◌+◌, ◌-◌, ◌/◌, Bool, not, ◌&&◌, ◌||◌, List, [], ◌∷◌, ◌++◌, leb, ltb, ◌==◌, if◌then◌else◌,
  length, take, drop,
}
use flux_tap.Text.Dict.{Dict, insert, get, tally}
use flux_tap.Text.{text, text_eq, is_empty, contains, has_prefix, to_lower}

pub record Finding : Type 0 where
  pub time : Instant
  pub frame_no : ℕ
  pub severity : Bytes
  pub rule : Bytes
  pub message : Bytes
  pub src : Bytes
  pub dst : Bytes

pub record Analyzer : Type 0 where
  pub findings : List Finding
  pub syn_count : Dict ℕ
  pub dns_long : Dict ℕ
  pub limit : ℕ

-- `New`.
abbrev pub new_analyzer : Analyzer
new_analyzer = record { findings = []; syn_count = []; dns_long = []; limit = 500 }

-- What `Observe` works on: the analyzer, the frame, and the findings raised.
pub record Inspection : Type 0 where
  pub analyzer : Analyzer
  pub frame : Frame
  pub raised : List Finding

-- `m[k]++`, and the whole map but for the key forgotten once it holds more than 10000.
unfoldable pub bump : Dict ℕ → Bytes → Dict ℕ
bump m k =
    let m' = insert k (tally m k + 1) m in
    if ltb 10000 (length m') then (k, tally m' k) ∷ [] else m'

unfoldable pub trunc : Bytes → ℕ → Bytes
trunc s n = if leb (length s) n then s else take n s ++ text "…"

-- A full list of findings keeps its last `limit/2`.
unfoldable pub make_room : ℕ → List Finding → List Finding
make_room limit findings =
    if leb limit (length findings) then drop (length findings - limit / 2) findings else findings

-- `a.add`, in `raised = append(raised, a.add(…))`.
unfoldable pub add : Bytes → Bytes → Bytes → Inspection → Inspection
add severity rule message s =
    let a = s.analyzer in
    let f = s.frame in
    let finding : Finding = record {
      time = f.timestamp;
      frame_no = f.number;
      severity = severity;
      rule = rule;
      message = message;
      src = get f.meta (text "ip_src");
      dst = get f.meta (text "ip_dst");
    } in
    record s {
      analyzer = record a { findings = make_room a.limit a.findings ++ finding ∷ [] };
      raised = s.raised ++ finding ∷ [];
    }

-- `f.Severity = severity; f.Tags = append(f.Tags, tag)`.
unfoldable pub mark : Bytes → Bytes → Inspection → Inspection
mark severity tag s =
    let f = s.frame in
    record s { frame = record f { severity = severity; tags = f.tags ++ tag ∷ [] } }

abbrev pub source : Frame → Bytes
source f = get f.meta (text "ip_src")

abbrev pub is_syn : Frame → Bool
is_syn f =
    let flags = get f.meta (text "tcp_flags") in
    contains flags (text "SYN") && not (contains flags (text "ACK"))

unfoldable pub check_scan : Inspection → Inspection
check_scan s =
    let a = s.analyzer in
    let src = source s.frame in
    let counts = bump a.syn_count src in
    let counted = record s { analyzer = record a { syn_count = counts } } in
    if is_syn s.frame
    then (if tally counts src == 30
        then add (text "alert") (text "port_scan")
            (text "Possible SYN scan: " ++ (src ++ text " opened many SYNs")) counted
        else counted)
    else s

unfoldable pub check_tunnel : Inspection → Inspection
check_tunnel s =
    let a = s.analyzer in
    let src = source s.frame in
    let q = get s.frame.meta (text "dns_qry") in
    let counts = bump a.dns_long src in
    let counted = record s { analyzer = record a { dns_long = counts } } in
    let message =
      text "Long DNS labels from " ++ (src ++ (text " (possible tunneling): " ++ trunc q 80)) in
    if ltb 60 (length q)
    then mark (text "warn") (text "dns-tunnel-hint") (
        if tally counts src == 3
        then add (text "warn") (text "dns_tunnel") message counted
        else counted)
    else s

-- One round of the loop over the layers that looks for HTTP Basic authentication.
unfoldable pub check_auth : Layer → Inspection → Inspection
check_auth l s =
    let auth = get l.fields (text "hdr_authorization") in
    if text_eq l.name (text "HTTP") && has_prefix (to_lower auth) (text "basic ")
    then mark (text "alert") (text "credential-leak")
        (add (text "alert") (text "cleartext_auth") (text "HTTP Basic auth over cleartext") s)
    else s

unfoldable pub is_weak : Bytes → Bool
is_weak v = text_eq v (text "SSL 3.0") || text_eq v (text "TLS 1.0") || text_eq v (text "TLS 1.1")

-- The same for the version of TLS.
unfoldable pub check_tls : Layer → Inspection → Inspection
check_tls l s =
    let v = get l.fields (text "client_version") in
    if text_eq l.name (text "TLS") && is_weak v
    then mark (text "warn") (text "weak-tls")
        (add (text "warn") (text "weak_tls") (text "Outdated TLS version: " ++ v) s)
    else s

abbrev pub each : (Layer → Inspection → Inspection) → List Layer → Inspection → Inspection
each check [] s = s
each check (l ∷ ls) s = each check ls (check l s)

unfoldable pub tag_icmp : Inspection → Inspection
tag_icmp s =
    if text_eq s.frame.protocol (text "ICMP") && not (is_empty s.frame.info)
    then record s { frame = add_tags (text "icmp" ∷ []) s.frame }
    else s

-- `Observe`: the analyzer and the frame as it leaves them, and the findings that it returns.
unfoldable pub observe : Analyzer → Frame → Inspection
observe a f =
    let s = check_tunnel (check_scan (record { analyzer = a; frame = f; raised = [] })) in
    tag_icmp (each check_tls f.layers (each check_auth f.layers s))

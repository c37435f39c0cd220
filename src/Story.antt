-- ===== src/Story.antt =====
-- internal/story/story.go: the story told from the findings and the sessions. `sort.Slice` is a
-- parameter, as is the time.
pub mod Chapters
pub mod Rules
use flux_tap.Pcap.Stream.{Instant, since_epoch, before_epoch}
use flux_tap.Prelude.Words.{Bytes}
use flux_tap.Prelude.{
  ℕ, suc, ◌+◌, Bool, true, false, Option, none, some, List, [], ◌∷◌, ◌++◌, ltb, ◌==◌, if◌then◌else◌,
  length,
}
use flux_tap.Security.{Finding}
use flux_tap.Session.{Session}
use flux_tap.Text.Dict.{Dict, lookup, insert, get}
use flux_tap.Text.{text, text_eq, is_empty, decimal, join}

pub record Chapter : Type 0 where
  pub number : ℕ
  pub title : Bytes
  pub body : Bytes
  pub severity : Bytes
  pub rule : Bytes
  pub frame_no : ℕ
  pub time : Instant
  pub src : Bytes
  pub dst : Bytes
  pub session_key : Bytes

pub record Story : Type 0 where
  pub title : Bytes
  pub summary : Bytes
  pub markdown : Bytes
  pub chapters : List Chapter
  pub findings : ℕ
  pub sessions : ℕ
  pub generated : Instant

rule_title : Dict Bytes
rule_title =
    (text "port_scan", text "Recon — SYN scan")
    ∷ (text "dns_tunnel", text "Covert channel — DNS tunnel hint")
    ∷ (text "cleartext_auth", text "Credential exposure — cleartext Basic auth")
    ∷ (text "weak_tls", text "Weak cryptography — outdated TLS")
    ∷ []

rule_body : Dict Bytes
rule_body =
    (
      text "port_scan",
      text
          "An endpoint opened a burst of SYN connections — classic port-scan footprint. Pivot to the source and freeze the session player on early SYNs.",
    )
    ∷ (
      text "dns_tunnel",
      text
          "Unusually long DNS labels suggest tunneling or exfil. Correlate with the resolver conversation in Session Player.",
    )
    ∷ (
      text "cleartext_auth",
      text
          "HTTP Basic credentials crossed the wire without TLS. Treat the account as burned until rotated.",
    )
    ∷ (
      text "weak_tls",
      text
          "A peer negotiated a deprecated TLS version. Downgrade attacks and passive decryption become realistic.",
    )
    ∷ []

-- `Equal` and `Before` of `time.Time`.
unfoldable pub same_instant : Instant → Instant → Bool
same_instant (since_epoch m) (since_epoch n) = m == n
same_instant (before_epoch m) (before_epoch n) = m == n
same_instant _ _ = false

unfoldable pub is_before : Instant → Instant → Bool
is_before (since_epoch m) (since_epoch n) = ltb m n
is_before (before_epoch m) (before_epoch n) = ltb n m
is_before (before_epoch m) (since_epoch n) = true
is_before (since_epoch m) (before_epoch n) = false

-- The comparison that `sort.Slice` is given.
unfoldable pub is_earlier : Finding → Finding → Bool
unfolding same_instant is_before
is_earlier f g =
    if same_instant f.time g.time then ltb f.frame_no g.frame_no else is_before f.time g.time

-- A round of `indexSessions`; a `nil` is `none`.
abbrev index_session : Option Session → Dict Bytes → Dict Bytes
index_session none m = m
index_session (some s) m = insert s.dst s.key (
    insert s.src s.key
      (insert (s.dst ++ (text "|" ++ s.src)) s.key (insert (s.src ++ (text "|" ++ s.dst)) s.key m)))

unfoldable pub index_onto : Dict Bytes → List (Option Session) → Dict Bytes
index_onto m [] = m
index_onto m (s ∷ ss) = index_onto (index_session s m) ss

unfoldable pub index_sessions : List (Option Session) → Dict Bytes
unfolding index_onto
index_sessions ss = index_onto [] ss

abbrev or_key : Option Bytes → Bytes → Bytes
or_key none other = other
or_key (some k) other = k

unfoldable pub match_session : Dict Bytes → Bytes → Bytes → Bytes
match_session m src dst =
    or_key (lookup (src ++ (text "|" ++ dst)) m) (or_key (lookup src m) (get m dst))

abbrev pub is_seen : Bytes → List Bytes → Bool
is_seen r [] = false
is_seen r (s ∷ ss) = if text_eq s r then true else is_seen r ss

-- `uniqueRules`, with the rules seen so far.
unfoldable pub unique_after : List Bytes → List Finding → List Bytes
unique_after seen [] = []
unique_after seen (f ∷ fs) =
    let again = is_seen f.rule seen in
    let rest = unique_after (if again then seen else f.rule ∷ seen) fs in
    if again then rest else f.rule ∷ rest

unfoldable pub unique_rules : List Finding → List Bytes
unfolding unique_after
unique_rules fs = unique_after [] fs

-- The chapter of a finding.
unfoldable pub chapter : Dict Bytes → ℕ → Finding → Chapter
unfolding rule_title rule_body match_session
chapter sessions number f =
    let title = get rule_title f.rule in
    let body = get rule_body f.rule in
    record {
      number = number;
      title = if is_empty title then text "Signal — " ++ f.rule else title;
      body = if is_empty body then f.message else body ++ (text "\n\nEvidence: " ++ f.message);
      severity = f.severity;
      rule = f.rule;
      frame_no = f.frame_no;
      time = f.time;
      src = f.src;
      dst = f.dst;
      session_key = match_session sessions f.src f.dst;
    }

unfoldable pub chapters_from : Dict Bytes → ℕ → List Finding → List Chapter
unfolding chapter
chapters_from sessions number [] = []
chapters_from sessions number (f ∷ fs) =
    chapter sessions number f ∷ chapters_from sessions (suc number) fs

-- A round of `renderMarkdown`.
chapter_markdown : Chapter → Bytes
chapter_markdown c =
    text "## "
    ++ (decimal c.number ++ (text ". " ++ (c.title ++ text "\n\n")))
    ++ (text "- **severity:** " ++ (c.severity ++ text "\n"))
    ++ (text "- **rule:** `" ++ (c.rule ++ text "`\n"))
    ++ (text "- **frame:** #" ++ (decimal c.frame_no ++ text "\n"))
    ++ (text "- **path:** `" ++ (c.src ++ (text "` → `" ++ (c.dst ++ text "`\n"))))
    ++ (if is_empty c.session_key
        then []
        else text "- **session:** `" ++ (c.session_key ++ text "`\n"))
    ++ (text "\n" ++ (c.body ++ text "\n\n"))

chapters_markdown : List Chapter → Bytes
unfolding chapter_markdown
chapters_markdown [] = []
chapters_markdown (c ∷ cs) = chapter_markdown c ++ chapters_markdown cs

unfoldable pub render_markdown : Bytes → Bytes → List Chapter → Bytes
unfolding chapters_markdown
render_markdown title summary cs =
    text "# " ++ (title ++ (text "\n\n" ++ (summary ++ (text "\n\n" ++ chapters_markdown cs))))

story_title : List Chapter → Bytes
story_title [] = text "Quiet wire"
story_title (c ∷ cs) = text "Incident reel · " ++ (decimal (length (c ∷ cs)) ++ text " chapters")

story_summary : List Chapter → List Bytes → Bytes
story_summary [] rules = text "No security chapters yet — keep tapping."
story_summary (c ∷ cs) rules =
    decimal (length (c ∷ cs))
    ++ (text " findings across "
        ++ (join rules (text " → ")
            ++ text ". Open a chapter to jump the Session Player / packet table."))

module _ (sort : (Finding → Finding → Bool) → List Finding → List Finding) where
  -- `Build`, at the time `now`.
  unfoldable pub build : Instant → List Finding → List (Option Session) → Story
  unfolding story_title story_summary render_markdown chapters_from unique_rules index_sessions
  build now findings sessions =
      let sorted = sort is_earlier findings in
      let chapters = chapters_from (index_sessions sessions) 1 sorted in
      let title = story_title chapters in
      let summary = story_summary chapters (unique_rules sorted) in
      record {
        title = title;
        summary = summary;
        markdown = render_markdown title summary chapters;
        chapters = chapters;
        findings = length sorted;
        sessions = length sessions;
        generated = now;
      }

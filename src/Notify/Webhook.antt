-- ===== src/Notify/Webhook.antt =====
-- internal/notify/webhook.go: findings posted to a URL. The HTTP client, json.Marshal and the time
-- that is printed are parameters; requests are the address that is dialled and the body.
pub mod Sends
use flux_tap.Notify.Cooldown.{key, is_recent}
use flux_tap.Notify.Redact.{Regexp, redact_secrets}
use flux_tap.Notify.{
  Refusal, empty_url, invalid_url, missing_host, not_https, bad_scheme, host_not_allowed,
  blocked_address, lookup_failed, no_addresses, Url, Net, Dial, refused, address, panicked,
  validate_shape, pin_webhook_dial, validate_webhook_url,
}
use flux_tap.Prelude.Panics.{◌>>=◌}
use flux_tap.Prelude.Words.{Bytes}
use flux_tap.Prelude.{
  ℕ, ◌+◌, Bool, ◌||◌, not, Option, none, some, [], ◌∷◌, ◌++◌, ltb, leb, if◌then◌else◌, length,
}
use flux_tap.Security.{Finding}
use flux_tap.Text.Dict.{Dict, lookup, insert}
use flux_tap.Text.Split.{cut}
use flux_tap.Text.{text, is_empty, decimal, trim_space}

pub record Webhook : Type 0 where
  pub url : Bytes
  pub seen : Dict ℕ
  pub sent : ℕ
  pub last : Bytes
  pub dry : Bool

-- The texts of the errors of internal/notify/ssrf.go.
unfoldable pub refusal_text : Refusal → Bytes
refusal_text empty_url = text "empty webhook URL"
refusal_text invalid_url = text "invalid webhook URL"
refusal_text missing_host = text "webhook URL missing host"
refusal_text not_https = text "webhook URL must use https (http only allowed for localhost)"
refusal_text bad_scheme = text "webhook URL scheme must be https"
refusal_text host_not_allowed = text "webhook URL host is not allowed"
refusal_text blocked_address = text "webhook URL resolves to a blocked address"
refusal_text lookup_failed = text "webhook URL host lookup failed"
refusal_text no_addresses = text "webhook URL host has no addresses"

unfoldable pub enabled : Webhook → Bool
enabled w = not (is_empty w.url)

-- `maskURL`.
unfoldable pub mask_url : Bytes → Bytes
mask_url [] = []
mask_url (c ∷ u) = elim (cut (text "://") (c ∷ u)) [
  | none ↦ text "***"
  | some (scheme, rest) ↦ elim (cut (text "/") rest) [
    | some (host, path) ↦ scheme ++ (text "://" ++ (host ++ text "/***"))
    | none ↦ scheme ++ (text "://" ++ text "***")
  ]
]

pub record WebhookStatus : Type 0 where
  pub enabled : Bool
  pub url : Bytes
  pub sent : ℕ
  pub last : Bytes
  pub dry_run : Bool

-- What is posted: a finding with its time and its text, or a text.
pub data Payload : Type 0 where
  finding_payload : Finding → Bytes → Bytes → Payload
  text_payload : Bytes → Payload

-- `json.Marshal`, with the text of its error, and `Format(time.RFC3339Nano)`.
pub record Json : Type 0 where
  pub marshal : Payload → Option Bytes
  pub marshal_error : Payload → Bytes
  pub format_time : Finding → Bytes

-- What a call comes to: the error of `http.NewRequest`, and the status of the response, if there is
-- one.
pub record Answer : Type 0 where
  pub request_error : Option Bytes
  pub status : Option ℕ

-- The error of `post`, and the request that was made.
pub record Posted : Type 0 where
  pub error : Option Bytes
  pub request : Option (Bytes × Bytes)

-- A call of `NotifyFinding`: the times of `time.Since`, of the entry in `seen` and of the entry in the
-- new map, and the time that is printed.
pub record Alert : Type 0 where
  pub finding : Finding
  pub asked : ℕ
  pub marked : ℕ
  pub reset : ℕ
  pub finished : Bytes
  pub answer : Answer

pub record Notified : Type 0 where
  pub webhook : Webhook
  pub request : Option (Bytes × Bytes)

abbrev status_error : Option ℕ → Option Bytes
status_error none = some (text "webhook transport error")
status_error (some n) = if leb 300 n then some (text "webhook HTTP " ++ decimal n) else none

-- The text of a finding.
unfoldable pub alert_text : Finding → Bytes
alert_text f =
    text "[FluxTap] "
    ++ (f.severity
        ++ (text " "
            ++ (f.rule
                ++ (text ": "
                    ++ (f.message
                        ++ (text " ("
                            ++ (f.src
                                ++ (text " → "
                                    ++ (f.dst ++ (text ") frame #" ++ decimal f.frame_no))))))))))

-- The entry of a key, and no other key once there are more than 2000.
unfoldable pub remember : Bytes → ℕ → ℕ → Dict ℕ → Dict ℕ
remember k marked reset seen =
    let seen' = insert k marked seen in if ltb 2000 (length seen') then (k, reset) ∷ [] else seen'

module _ (net : Net) (replace : Regexp) (json : Json) where
  abbrev usable : Bytes → Bytes
  usable u = if is_empty u then u else (elim (validate_shape net u) [ none ↦ u | some e ↦ [] ])

  -- `NewWebhook`, with the variable of the environment.
  unfoldable pub new_webhook : Bytes → Bytes → Bool → Webhook
  new_webhook env_url url dry =
      let given = trim_space url in
      record {
        url = usable (if is_empty given then trim_space env_url else given);
        seen = [];
        sent = 0;
        last = [];
        dry = dry;
      }

  -- `CheckRedirect` behind as many requests; `none` lets the client go on.
  unfoldable pub check_redirect : ℕ → Bytes → Option Bytes
  check_redirect via u =
      if leb 3 via
      then some (text "too many redirects")
      else elim (validate_webhook_url net u) [ none ↦ none | some e ↦ some (refusal_text e) ]

  unfoldable pub webhook_status : Webhook → WebhookStatus
  webhook_status w = record {
    enabled = enabled w;
    url = mask_url w.url;
    sent = w.sent;
    last = redact_secrets replace w.last;
    dry_run = w.dry;
  }

  abbrev failed : Bytes → Option Posted
  failed e = some (record { error = some e; request = none })

  -- The request itself; a URL that cannot be parsed is the use of a nil pointer.
  abbrev request_to : Answer → Bytes → Bytes → Option Url → Option Posted
  request_to answer dialled body none = none
  request_to answer dialled body (some u) =
      some (record { error = status_error answer.status; request = some (dialled, body) })

  abbrev build_request : Answer → Webhook → Bytes → Bytes → Option Bytes → Option Posted
  build_request answer w dialled body (some e) = failed (text "webhook request: " ++ e)
  build_request answer w dialled body none = request_to answer dialled body (net.parse_url w.url)

  abbrev encode : Answer → Webhook → Payload → Bytes → Option Bytes → Option Posted
  encode answer w payload dialled none = failed (json.marshal_error payload)
  encode answer w payload dialled (some body) =
      build_request answer w dialled body answer.request_error

  abbrev post_to : Answer → Webhook → Payload → Dial → Option Posted
  post_to answer w payload (refused e) = failed (refusal_text e)
  post_to answer w payload panicked = none
  post_to answer w payload (address dialled) =
      encode answer w payload dialled (json.marshal payload)

  abbrev dry_run : Option Refusal → Option Posted
  dry_run (some e) = failed (refusal_text e)
  dry_run none = some (record { error = none; request = none })

  -- `post`; `none` is a panic.
  unfoldable pub post : Answer → Webhook → Payload → Option Posted
  post answer w payload =
      if w.dry
      then dry_run (validate_shape net w.url)
      else post_to answer w payload (pin_webhook_dial net w.url)

  -- What is kept of a post.
  abbrev pub delivered : Finding → Bytes → Option Bytes → Webhook → Webhook
  delivered f finished (some e) w = record w { last = text "err: " ++ redact_secrets replace e }
  delivered f finished none w = record w {
    sent = w.sent + 1;
    last = f.rule ++ (text " @ " ++ finished);
  }

  -- `NotifyFinding`; `none` is a panic.
  unfoldable pub notify_finding : Alert → Webhook → Option Notified
  notify_finding c w =
      let k = key c.finding in
      let payload = finding_payload c.finding (json.format_time c.finding) (alert_text c.finding) in
      let marked = record w { seen = remember k c.marked c.reset w.seen } in
      if not (enabled w) || is_recent c.asked (lookup k w.seen)
      then some (record { webhook = w; request = none })
      else (do
        p ← post c.answer marked payload
        some (record {
          webhook = delivered c.finding c.finished p.error marked;
          request = p.request;
        }))

  -- `NotifyText`.
  unfoldable pub notify_text : Answer → Webhook → Bytes → Option Posted
  notify_text answer w message =
      if enabled w
      then post answer w (text_payload message)
      else failed (text "webhook not configured")

-- ===== src/Tests/Messages.antt =====
-- Messages to Telegram and to a webhook, and what they tell of secrets.
use flux_tap.Notify.Redact.Hidden.{redact_secrets-Hidden}
use flux_tap.Notify.Redact.{Regexp, telegram_host, hide_path, redact_secrets}
use flux_tap.Notify.Telegram.Escaped.{plain, plain-escape_md}
use flux_tap.Notify.Telegram.Spaced.{attempts, IsSpaced, IsTimed, attempts-IsSpaced}
use flux_tap.Notify.Telegram.{Telegram, Call, escape_md}
use flux_tap.Notify.Webhook.Sends.{IsNotified, notify_finding-Runs}
use flux_tap.Notify.Webhook.{Webhook, Json, Alert, notify_finding}
use flux_tap.Prelude.Panics.{Runs}
use flux_tap.Prelude.Words.{Bytes}
use flux_tap.Prelude.{ℕ, ◌*◌, ◌≡◌, refl, true, false, none, some, List, [], ◌∷◌, arith, All}
use flux_tap.Tests.Programs.{net, finding}
use flux_tap.Text.Split.{cut}
use flux_tap.Text.{text, contains}
use flux_tap.Pcap.Stream.{second}

-- No secret is matched.
abbrev pub no_match : Regexp
no_match pattern template s = s

abbrev leak : Bytes
leak = text "Post https://api.telegram.org/bot1:x/sendMessage: EOF"

leak-hidden :
    cut telegram_host (redact_secrets no_match leak) ≡ some (text "Post https://", text "***")
unfolding cut redact_secrets hide_path text contains
leak-hidden = refl

redact_secrets-Hidden_example : ◌≡◌ {A = Bytes} (text "***") (text "***")
redact_secrets-Hidden_example =
    redact_secrets-Hidden no_match leak (text "Post https://") (text "***") leak-hidden

plain-escape_md_example : plain (escape_md (text "port_scan *[\\`")) ≡ some (text "port_scan *[\\`")
plain-escape_md_example = plain-escape_md (text "port_scan *[\\`")

abbrev pub telegram : Telegram
telegram = record {
  token = text "1:x";
  chat_id = text "12345";
  seen = [];
  sent = 0;
  last = [];
  dry = false;
}

abbrev call_at : ℕ → Call
call_at now = record {
  finding = finding 1 (text "port_scan");
  asked = now;
  marked = now;
  finished = [];
  reply = record { is_built = true; status = some 200 };
}

-- Three findings of one key, of which the second comes too early.
abbrev calls : List Call
calls = call_at 0 ∷ call_at (59 * second) ∷ call_at (61 * second) ∷ []

abbrev pub body : Bytes → Bytes → Bytes
body chat message = message

calls-IsTimed : All IsTimed calls
calls-IsTimed = (omega arith, (omega arith, (omega arith, tt)))

attempts-IsSpaced_example : IsSpaced (attempts no_match body calls telegram)
attempts-IsSpaced_example = attempts-IsSpaced no_match body calls telegram calls-IsTimed

abbrev pub json : Json
json = record {
  marshal = λ p. some (text "{}");
  marshal_error = λ p. [];
  format_time = λ f. text "1970-01-01T00:00:07Z";
}

abbrev pub webhook : Webhook
webhook = record {
  url = text "https://hooks.example/x";
  seen = [];
  sent = 0;
  last = [];
  dry = false;
}

abbrev alert : Alert
alert = record {
  finding = finding 1 (text "port_scan");
  asked = 0;
  marked = 0;
  reset = 0;
  finished = [];
  answer = record { request_error = none; status = some 500 };
}

notify_finding-Runs_example :
    Runs
      (net.parse_url webhook.url ≡ none)
      (IsNotified net alert webhook)
      (notify_finding net no_match json alert webhook)
notify_finding-Runs_example = notify_finding-Runs net no_match json refl alert webhook (omega arith)

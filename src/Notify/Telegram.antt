-- ===== src/Notify/Telegram.antt =====
-- internal/notify/telegram.go: the messages to a chat. Requests are what is given to the HTTP client,
-- whose answers are a parameter, and so are json.Marshal and the time that is printed.
pub mod Escaped
pub mod Spaced
use flux_tap.Notify.Cooldown.{key, is_recent}
use flux_tap.Notify.Redact.{Regexp, redact_secrets}
use flux_tap.Prelude.Words.{Bytes}
use flux_tap.Prelude.{
  ℕ, ◌+◌, ◌-◌, Bool, true, false, ◌&&◌, ◌||◌, not, Option, none, some, [], ◌∷◌, ◌++◌, leb, ◌==◌,
  if◌then◌else◌, length, take, drop,
}
use flux_tap.Security.{Finding}
use flux_tap.Text.Dict.{Dict, lookup, insert}
use flux_tap.Text.{text, text_eq, is_empty, decimal, trim_space}

pub record Telegram : Type 0 where
  pub token : Bytes
  pub chat_id : Bytes
  pub seen : Dict ℕ
  pub sent : ℕ
  pub last : Bytes
  pub dry : Bool

-- `NewTelegram`, with the variables of the environment.
unfoldable pub new_telegram : Bytes → Bytes → Bytes → Bytes → Bool → Telegram
new_telegram env_token env_chat token chat dry = record {
  token = trim_space (if is_empty token then env_token else token);
  chat_id = trim_space (if is_empty chat then env_chat else chat);
  seen = [];
  sent = 0;
  last = [];
  dry = dry;
}

unfoldable pub enabled : Telegram → Bool
enabled t = not (is_empty t.token) && not (is_empty t.chat_id)

abbrev pub is_special : ℕ → Bool
is_special c = c == b'_' || c == b'*' || c == b'`' || c == b'['

-- The replacer of `escapeMD`.
unfoldable pub escape_md : Bytes → Bytes
escape_md [] = []
escape_md (c ∷ s) = let rest = escape_md s in if is_special c then b'\\' ∷ c ∷ rest else c ∷ rest

-- `mask`.
unfoldable pub mask : Bytes → Bytes
mask s = if leb (length s) 4 then text "****" else take 2 s ++ (text "…" ++ drop (length s - 2) s)

-- `Status`.
pub record TelegramStatus : Type 0 where
  pub enabled : Bool
  pub chat : Bytes
  pub sent : ℕ
  pub last : Bytes
  pub dry_run : Bool

-- What a call of `client.Do` comes to: whether the request could be built, and the status of the
-- response, if there is one.
pub record Reply : Type 0 where
  pub is_built : Bool
  pub status : Option ℕ

-- The error of `send`, and the URL and the body of the request that was made.
pub record Attempt : Type 0 where
  pub error : Option Bytes
  pub request : Option (Bytes × Bytes)

-- A call of `NotifyFinding`: the times of `time.Since` and of the entry in `seen`, and the time that
-- is printed.
pub record Call : Type 0 where
  pub finding : Finding
  pub asked : ℕ
  pub marked : ℕ
  pub finished : Bytes
  pub reply : Reply

pub record Notified : Type 0 where
  pub telegram : Telegram
  pub tried : Bool
  pub request : Option (Bytes × Bytes)

abbrev status_error : Option ℕ → Option Bytes
status_error none = some (text "telegram transport error")
status_error (some n) = if leb 300 n then some (text "telegram HTTP " ++ decimal n) else none

-- The bytes of U+FE0F, with which the sign is drawn in colour.
abbrev variation : Bytes
variation = 0xef ∷ 0xb8 ∷ 0x8f ∷ []

-- The text of `NotifyFinding`.
unfoldable pub finding_text : Telegram → Finding → Bytes
finding_text t f =
    let icon = if text_eq f.severity (text "alert") then text "🚨" else text "⚠" ++ variation in
    let dry = if t.dry then text " _(dry-run)_" else [] in
    icon
    ++ (text " *FluxTap*"
        ++ (dry
            ++ (text "\n*"
                ++ (escape_md f.severity
                    ++ (text "* · `"
                        ++ (escape_md f.rule
                            ++ (text "`\n"
                                ++ (escape_md f.message
                                    ++ (text "\n`"
                                        ++ (escape_md f.src
                                            ++ (text "` → `"
                                                ++ (escape_md f.dst
                                                    ++ (text "`\nframe #"
                                                        ++ decimal f.frame_no)))))))))))))

module _ (replace : Regexp) (marshal : Bytes → Bytes → Bytes) where
  unfoldable pub telegram_status : Telegram → TelegramStatus
  telegram_status t = record {
    enabled = enabled t;
    chat = mask t.chat_id;
    sent = t.sent;
    last = redact_secrets replace t.last;
    dry_run = t.dry;
  }

  -- `send`, where `marshal chat text` is the body.
  unfoldable pub send : Reply → Telegram → Bytes → Attempt
  send reply t message =
      let url = text "https://api.telegram.org/bot" ++ (t.token ++ text "/sendMessage") in
      if t.dry
      then record { error = none; request = none }
      else if reply.is_built
      then record {
        error = status_error reply.status;
        request = some (url, marshal t.chat_id message);
      }
      else record { error = some (text "telegram request build failed"); request = none }

  -- What is kept of an attempt.
  abbrev pub delivered : Finding → Bytes → Option Bytes → Telegram → Telegram
  delivered f finished (some e) t = record t { last = text "err: " ++ redact_secrets replace e }
  delivered f finished none t = record t {
    sent = t.sent + 1;
    last = f.rule ++ (text " @ " ++ finished);
  }

  -- `NotifyFinding`.
  unfoldable pub notify_finding : Call → Telegram → Notified
  notify_finding c t =
      if not (enabled t) || is_recent c.asked (lookup (key c.finding) t.seen)
      then record { telegram = t; tried = false; request = none }
      else (let marked = record t { seen = insert (key c.finding) c.marked t.seen } in
          let attempt = send c.reply marked (finding_text marked c.finding) in
          record {
            telegram = delivered c.finding c.finished attempt.error marked;
            tried = true;
            request = attempt.request;
          })

  -- `NotifyText`.
  unfoldable pub notify_text : Reply → Telegram → Bytes → Attempt
  notify_text reply t message =
      if enabled t
      then send reply t (text "⚡ *FluxTap*\n" ++ escape_md message)
      else record { error = some (text "telegram not configured"); request = none }

-- ===== src/Web/Control.antt =====
-- The handlers of internal/web/server.go that look a thing up or change the run: `auth`,
-- `handleControl`, `handlePacket`, `handleSession`, the tests of the notifications, and the commands
-- of `handleWS`. What json.Unmarshal reads is a parameter.
pub mod Authorized
use flux_tap.Decode.Frame.{Frame}
use flux_tap.Engine.Control.{pause, resume, stop}
use flux_tap.Engine.Status.{Panel, Status, status}
use flux_tap.Engine.{find_frame}
use flux_tap.Notify.Redact.{Regexp}
use flux_tap.Notify.Telegram.{Reply, TelegramStatus, telegram_status}
use flux_tap.Notify.Webhook.{Json, Answer, WebhookStatus, webhook_status}
use flux_tap.Notify.{Net}
use flux_tap.Prelude.Panics.{◌>>=◌}
use flux_tap.Prelude.Words.{Bytes}
use flux_tap.Prelude.{ℕ, not, Option, none, some, List, [], ◌∷◌, if◌then◌else◌, take}
use flux_tap.Session.{Session, get_session}
use flux_tap.Text.{text, text_eq, is_empty}
use flux_tap.Web.{Server, Request, authorize}

pub data Body : Type 0 where
  message : Bytes → Body
  status_body : Status → Body
  frame_body : Frame → Body
  session_body : Session → Body
  telegram_body : TelegramStatus → Body
  webhook_body : WebhookStatus → Body

pub record Response : Type 0 where
  pub code : ℕ
  pub body : Body

abbrev pub http_error : ℕ → Bytes → Response
http_error code e = record { code = code; body = message e }

-- A handler answers, and may change what it serves.
abbrev pub Handler : Type 0
Handler = Panel → Response × Panel

-- `auth`.
unfoldable pub auth : (Bytes → Bytes) → Server → Request → Handler → Handler
auth lower s r handler p =
    if authorize lower s r then handler p else (http_error 401 (text "unauthorized"), p)

-- `Pause`, `Resume` and `Stop`; `none` for another word.
unfoldable pub act : Bytes → Panel → Option Panel
act action p =
    if text_eq action (text "pause")
    then some (record p { run = pause p.run })
    else if text_eq action (text "resume")
    then some (record p { run = resume p.run })
    else if text_eq action (text "stop")
    then some (record p { run = stop p.run })
    else none

-- The commands that a socket sends until it fails; one that cannot be parsed is `none`.
unfoldable pub obey : List (Option Bytes) → Panel → Panel
obey [] p = p
obey (none ∷ commands) p = obey commands p
obey (some c ∷ commands) p = obey commands (elim (act c p) [ none ↦ p | some p' ↦ p' ])

-- `handleWS` of a socket that could be upgraded: what the commands leave, or `none` for 401.
unfoldable pub handle_ws :
    (Bytes → Bytes) → Server → Request → List (Option Bytes) → Panel → Option Panel
unfolding obey
handle_ws lower s r commands p = if authorize lower s r then some (obey commands p) else none

-- `handlePacket`, for the number that was parsed.
unfoldable pub handle_packet : ℕ → Handler
handle_packet number p = elim (find_frame number p.run.tap.engine.frames) [
  | none ↦ (http_error 404 (text "not found"), p)
  | some f ↦ (record { code = 200; body = frame_body f }, p)
]

-- `handleSession`.
unfoldable pub handle_session : Bytes → Handler
handle_session key p =
    if is_empty key
    then (http_error 400 (text "key required"), p)
    else elim (get_session key p.run.tap.sessions) [
      | none ↦ (http_error 404 (text "not found"), p)
      | some s ↦ (record { code = 200; body = session_body s }, p)
    ]

module _ (net : Net) (replace : Regexp) (json : Json) (marshal : Bytes → Bytes → Bytes) where
  abbrev status_of : Panel → Response
  status_of p = record { code = 200; body = status_body (status net replace json marshal p) }

  abbrev acted : Panel → Option Panel → Response × Panel
  acted p none = (http_error 400 (text "unknown action"), p)
  acted p (some p') = (status_of p', p')

  -- `handleControl`, where `action` reads the body, of which 4096 bytes are taken.
  unfoldable pub handle_control : (Bytes → Bytes) → Bytes → Bytes → Handler
  unfolding act
  handle_control action method body p =
      if text_eq method (text "POST")
      then acted p (act (action (take 4096 body)) p)
      else (http_error 405 (text "POST required"), p)

  -- The answer to a test: its error, or what it shows.
  abbrev tested : Panel → Body → Option Bytes → Response × Panel
  tested p shown (some e) = (http_error 400 e, p)
  tested p shown none = (record { code = 200; body = shown }, p)

  -- `handleTelegramTest`; a request that it makes is no part of the answer.
  unfoldable pub handle_telegram_test : Reply → Bytes → Handler
  handle_telegram_test reply method p =
      if text_eq method (text "POST")
      then tested p (telegram_body (telegram_status replace marshal p.telegram))
          (flux_tap.Notify.Telegram.notify_text replace marshal reply p.telegram
            (text "test ping from FluxTap dashboard")).error
      else (http_error 405 (text "POST required"), p)

  -- `handleWebhookTest`; `none` is a panic.
  unfoldable pub handle_webhook_test : Answer → Bytes → Panel → Option (Response × Panel)
  handle_webhook_test answer method p =
      if text_eq method (text "POST")
      then (do
        posted ←
            flux_tap.Notify.Webhook.notify_text net replace json answer p.webhook
              (text "test ping from FluxTap dashboard")
        some (tested p (webhook_body (webhook_status net replace json p.webhook)) posted.error))
      else some (http_error 405 (text "POST required"), p)

-- ===== src/Notify/Redact.antt =====
-- internal/notify/redact.go: secrets in the texts of errors. The package regexp is a parameter.
pub mod Hidden
use flux_tap.Prelude.Words.{Bytes}
use flux_tap.Prelude.{none, some, ◌++◌, if◌then◌else◌}
use flux_tap.Text.Split.{cut}
use flux_tap.Text.{text, is_empty, contains}

-- `regexp.MustCompile(pattern).ReplaceAllString(s, template)`.
abbrev pub Regexp : Type 0
Regexp = Bytes → Bytes → Bytes → Bytes

abbrev pub telegram_host : Bytes
telegram_host = text "api.telegram.org/"

abbrev pub tg_bot_token_re : Bytes
tg_bot_token_re = text "(?i)bot\\d+:[A-Za-z0-9_-]{20,}"

abbrev pub bearer_re : Bytes
bearer_re = text "(?i)(bearer\\s+)[A-Za-z0-9._\\-+=/]{8,}"

-- The end of `RedactSecrets`.
unfoldable pub hide_path : Bytes → Bytes
hide_path s = elim (cut telegram_host s) [
  | none ↦ s
  | some (before, after) ↦
      if contains (telegram_host ++ after) (text "/")
      then before ++ text "api.telegram.org/***"
      else s
]

-- `RedactSecrets`.
unfoldable pub redact_secrets : Regexp → Bytes → Bytes
redact_secrets replace s =
    if is_empty s
    then s
    else hide_path
        (replace bearer_re (text "${1}***") (replace tg_bot_token_re (text "bot***:***") s))

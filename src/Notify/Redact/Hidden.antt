-- ===== src/Notify/Redact/Hidden.antt =====
-- What `RedactSecrets` leaves of a URL of Telegram, which holds the token of the bot.
use flux_tap.Notify.Redact.{Regexp, telegram_host, hide_path, redact_secrets}
use flux_tap.Prelude.Words.{Bytes}
use flux_tap.Prelude.{
  [], ◌∷◌, ◌≡◌, refl, sym, ap, ◌∙◌, true, none, some, ◌++◌, arith, Option-cases, inl, inr, some-eq,
  if◌then◌else◌, Option,
}
use flux_tap.Text.Joined.{cut-first}
use flux_tap.Text.Split.{cut}
use flux_tap.Text.{text, contains}

-- The host has a slash.
host-slash : (s : Bytes) → contains (telegram_host ++ s) (text "/") ≡ true
unfolding contains text
host-slash s = ground arith

hide_path-nothing : (s : Bytes) → cut telegram_host s ≡ none → hide_path s ≡ s
unfolding hide_path
hide_path-nothing s nothing =
    ap
      (λ (o : Option (Bytes × Bytes)). elim o as (λ _. Bytes) [
        | none ↦ s
        | some (before, after) ↦
            if contains (telegram_host ++ after) (text "/")
            then before ++ text "api.telegram.org/***"
            else s
      ])
      nothing

hide_path-there :
    (s before after : Bytes)
    → cut telegram_host s ≡ some (before, after)
    → hide_path s ≡ before ++ text "api.telegram.org/***"
unfolding hide_path
hide_path-there s before after there =
    ap
      (λ (o : Option (Bytes × Bytes)). elim o as (λ _. Bytes) [
        | none ↦ s
        | some (before, after) ↦
            if contains (telegram_host ++ after) (text "/")
            then before ++ text "api.telegram.org/***"
            else s
      ])
      there
    ∙ rw (host-slash after) refl

-- What is behind the host then.
cut-hidden :
    (s before after : Bytes)
    → cut telegram_host s ≡ some (before, after)
    → cut telegram_host (before ++ text "api.telegram.org/***") ≡ some (before, text "***")
unfolding text
cut-hidden s before after there =
    cut-first b'a' (text "pi.telegram.org/") s before after (text "***") there

hide_path-Hidden : (s b a : Bytes) → cut telegram_host (hide_path s) ≡ some (b, a) → a ≡ text "***"
hide_path-Hidden s b a e = elim (Option-cases (cut telegram_host s)) [
  | inl nothing ↦
      let found = sym nothing ∙ ap (cut telegram_host) (sym (hide_path-nothing s nothing)) ∙ e in
      absurd (ground arith)
  | inr ((before, after), there) ↦
      let found =
        sym (cut-hidden s before after there)
        ∙ ap (cut telegram_host) (sym (hide_path-there s before after there))
        ∙ e in
      sym (ap (λ r. r.1) (some-eq found))
]

-- Whatever text comes and whatever the regular expressions replace in it: where `RedactSecrets`
-- leaves the host of Telegram in the text, only three stars stand behind its first place, so that
-- no token that stood behind it is left.
pub redact_secrets-Hidden :
    (replace : Regexp) (s b a : Bytes)
    → cut telegram_host (redact_secrets replace s) ≡ some (b, a)
    → a ≡ text "***"
unfolding redact_secrets
redact_secrets-Hidden replace [] b a e = absurd (nowhere e)
  where
    nowhere : cut telegram_host [] ≡ some (b, a) → ⊥
    nowhere e = unfold cut in cc e
redact_secrets-Hidden replace (c ∷ s) b a e = hide_path-Hidden _ b a e

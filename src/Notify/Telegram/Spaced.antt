-- ===== src/Notify/Telegram/Spaced.antt =====
-- How often `NotifyFinding` sends a finding.
use flux_tap.Notify.Cooldown.{key, cooldown, is_recent}
use flux_tap.Notify.Redact.{Regexp}
use flux_tap.Notify.Telegram.{Telegram, Call, delivered, notify_finding, enabled}
use flux_tap.Security.{Finding}
use flux_tap.Prelude.Words.{Bytes}
use flux_tap.Prelude.{
  ℕ, ◌+◌, ◌≤◌, ◌≡◌, ◌⊎◌, refl, ap, sym, ◌∙◌, true, false, ◌||◌, not, Option, none, some, List, [],
  ◌∷◌, arith, All, Bool-cases, inl, inr, if◌then◌else◌,
}
use flux_tap.Text.Dict.{lookup, insert, lookup-insert}
use flux_tap.Text.{text_eq, text_eq_iff}

-- The clock does not go back within a call.
abbrev pub IsTimed : Call → Type 0
IsTimed c = c.asked ≤ c.marked

-- Messages behind one with the key `k` at the time `m`.
abbrev IsLater : Bytes → ℕ → Bytes × ℕ → Type 0
IsLater k m a = k ≡ a.0 → m + cooldown ≤ a.1

-- No two messages with the same key are nearer than the wait.
abbrev pub IsSpaced : List (Bytes × ℕ) → Type 0
IsSpaced [] = Unit
IsSpaced ((k, m) ∷ later) = All (IsLater k m) later × IsSpaced later

module _ (replace : Regexp) (marshal : Bytes → Bytes → Bytes) where
  -- The keys and times of the messages that a run of calls tries to send.
  unfoldable pub attempts : List Call → Telegram → List (Bytes × ℕ)
  attempts [] t = []
  attempts (c ∷ cs) t =
      let r = notify_finding replace marshal c t in
      let later = attempts cs r.telegram in
      if r.tried then (key c.finding, c.marked) ∷ later else later

  -- A call either does nothing, or the last message with its key is not recent, and its own time is
  -- entered.
  notify_finding-cases :
      (c : Call) (t : Telegram)
      → ((notify_finding replace marshal c t).tried ≡ false)
          × ((notify_finding replace marshal c t).telegram.seen ≡ t.seen)
        ⊎ ((notify_finding replace marshal c t).tried ≡ true)
          × (is_recent c.asked (lookup (key c.finding) t.seen) ≡ false)
          × ((notify_finding replace marshal c t).telegram.seen
              ≡ insert (key c.finding) c.marked t.seen)
  unfolding notify_finding
  notify_finding-cases c t =
      elim (Bool-cases (not (enabled t) || is_recent c.asked (lookup (key c.finding) t.seen))) [
        | inl quiet ↦ inl (rw quiet refl, rw quiet refl)
        | inr told ↦
            inr (rw told refl, ground arith, rw told (delivered-seen c.finding c.finished _ _))
      ]
    where
      delivered-seen :
          (f : Finding) (finished : Bytes) (e : Option Bytes) (u : Telegram)
          → (delivered replace marshal f finished e u).seen ≡ u.seen
      delivered-seen f finished none u = refl
      delivered-seen f finished (some e) u = refl

  attempts-quiet :
      (c : Call) (cs : List Call) (t : Telegram)
      → (notify_finding replace marshal c t).tried ≡ false
      → attempts (c ∷ cs) t ≡ attempts cs (notify_finding replace marshal c t).telegram
  unfolding attempts
  attempts-quiet c cs t e = rw e refl

  attempts-tried :
      (c : Call) (cs : List Call) (t : Telegram)
      → (notify_finding replace marshal c t).tried ≡ true
      → attempts (c ∷ cs) t
        ≡ (key c.finding, c.marked) ∷ attempts cs (notify_finding replace marshal c t).telegram
  unfolding attempts
  attempts-tried c cs t e = rw e refl

  -- A message that is not recent is a wait later.
  waited :
      (k : Bytes) (m m' : ℕ) (c : Call) (t : Telegram)
      → lookup k t.seen ≡ some m'
      → m ≤ m'
      → IsTimed c
      → is_recent c.asked (lookup (key c.finding) t.seen) ≡ false
      → IsLater k m (key c.finding, c.marked)
  waited k m m' c t old h timed fresh same =
      let far : is_recent c.asked (some m') ≡ false =
        ap (is_recent c.asked) (sym old ∙ ap (λ j. lookup j t.seen) same) ∙ fresh in
      ground arith

  -- Behind a message, all with its key are later.
  attempts-IsLater :
      (k : Bytes) (m m' : ℕ) (cs : List Call) (t : Telegram)
      → lookup k t.seen ≡ some m'
      → m ≤ m'
      → All IsTimed cs
      → All (IsLater k m) (attempts cs t)
  attempts-IsLater k m m' [] t old h timed = attempts-nil t
    where
      attempts-nil : (t : Telegram) → All (IsLater k m) (attempts [] t)
      attempts-nil t = unfold attempts in tt
  attempts-IsLater k m m' (c ∷ cs) t old h timed = elim (notify_finding-cases c t) [
    | inl (quiet, same) ↦
        rw (attempts-quiet c cs t quiet)
          (attempts-IsLater k m m' cs _ (ap (lookup k) same ∙ old) h timed.1)
    | inr (tried, fresh, entered) ↦
        let first = waited k m m' c t old h timed.0 fresh in
        rw (attempts-tried c cs t tried) (
          first,
          elim (Bool-cases (text_eq (key c.finding) k)) [
            | inl same ↦
                attempts-IsLater k m c.marked cs _
                  (ap (lookup k) entered
                    ∙ lookup-insert (key c.finding) k c.marked t.seen
                    ∙ rw same refl)
                  (omega (arith, first (sym ((text_eq_iff (key c.finding) k).0 same)))) timed.1
            | inr other ↦
                attempts-IsLater k m m' cs _
                  (ap (lookup k) entered
                    ∙ lookup-insert (key c.finding) k c.marked t.seen
                    ∙ rw other old)
                  h timed.1
          ],
        )
  ]

  -- However many findings come, and whatever the answers to the messages: two messages that are
  -- tried for the same rule, source and destination are entered a minute apart at least, if the
  -- clock does not go back within a call.
  pub attempts-IsSpaced :
      (cs : List Call) (t : Telegram) → All IsTimed cs → IsSpaced (attempts cs t)
  attempts-IsSpaced [] t timed = attempts-nil t
    where
      attempts-nil : (t : Telegram) → IsSpaced (attempts [] t)
      attempts-nil t = unfold attempts in tt
  attempts-IsSpaced (c ∷ cs) t timed = elim (notify_finding-cases c t) [
    | inl (quiet, same) ↦ rw (attempts-quiet c cs t quiet) (attempts-IsSpaced cs _ timed.1)
    | inr (tried, fresh, entered) ↦ rw (attempts-tried c cs t tried) (
      attempts-IsLater (key c.finding) c.marked c.marked cs _
          (ap (lookup (key c.finding)) entered
            ∙ lookup-insert (key c.finding) (key c.finding) c.marked t.seen
            ∙ rw ((text_eq_iff (key c.finding) (key c.finding)).1 refl) refl)
          (omega arith) timed.1,
      attempts-IsSpaced cs _ timed.1,
    )
  ]

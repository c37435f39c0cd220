-- ===== src/Notify/Webhook/Sends.antt =====
-- What `NotifyFinding` of the webhook sends, and what it remembers.
use flux_tap.Notify.Cooldown.{key, is_recent}
use flux_tap.Notify.Guard.{IsAllowed, Outcome, is_refused, is_allowed}
use flux_tap.Notify.Guard.Pinned.{pin_webhook_dial-Outcome}
use flux_tap.Notify.Redact.{Regexp}
use flux_tap.Notify.Webhook.{
  Webhook, Payload, Json, Answer, Posted, Alert, Notified, enabled, remember, post, post_to, encode,
  build_request, request_to, dry_run, delivered, notify_finding,
}
use flux_tap.Notify.{
  Refusal, Url, Net, Dial, address, refused, panicked, pin_webhook_dial, validate_shape, dial,
}
use flux_tap.Prelude.Panics.{Runs, returns, panics, Runs-bind, Runs-if}
use flux_tap.Prelude.Words.{Bytes}
use flux_tap.Prelude.{
  ℕ, ◌≤◌, ◌≡◌, refl, subst, true, false, ◌||◌, not, Option, none, some, arith, length,
}
use flux_tap.Security.{Finding}
use flux_tap.Text.{text}
use flux_tap.Text.Dict.{Dict, lookup}

module _ (net : Net) where
  -- A request goes where the guard lets it go.
  abbrev pub IsGuarded : Bytes → Option (Bytes × Bytes) → Type 0
  IsGuarded raw none = Unit
  IsGuarded raw (some (dialled, body)) = IsAllowed net raw (address dialled)

  -- A request was made to an allowed address, and not in a dry run.
  pub record IsSafe (w : Webhook) (request : Option (Bytes × Bytes)) : Type 0 where
    pub guarded : IsGuarded w.url request
    pub silent : w.dry ≡ true → request ≡ none

  -- What a call leaves.
  pub record IsNotified (c : Alert) (w : Webhook) (r : Notified) : Type 0 where
    pub safe : IsSafe w r.request
    pub few : length r.webhook.seen ≤ 2000
    pub waits :
        is_recent c.asked (lookup (key c.finding) w.seen) ≡ true
        → r ≡ record { webhook = w; request = none }

  let_through :
      {raw a : Bytes} {d : Dial} → Outcome net raw d → d ≡ address a → IsAllowed net raw (address a)
  let_through (is_refused e) q = absurd (ground arith)
  let_through {raw} (is_allowed d h) q = subst (IsAllowed net raw) q h

  no_panic : {raw : Bytes} {d : Dial} → Outcome net raw d → d ≡ panicked → ⊥
  unfolding dial
  no_panic (is_refused e) q = cc
  no_panic (is_allowed d h) q = cc h.dialled

  module _ (replace : Regexp) (json : Json) (no_name : net.parse_ip (text "localhost") ≡ none) where
    nothing-IsSafe : (w : Webhook) → IsSafe w none
    nothing-IsSafe w = record { guarded = tt; silent = λ dry. refl }

    dry_run-Runs :
        {P : Type 0} (w : Webhook) (o : Option Refusal)
        → Runs P (λ (p : Posted). IsSafe w p.request) (dry_run net replace json o)
    dry_run-Runs w none = returns _ (nothing-IsSafe w)
    dry_run-Runs w (some e) = returns _ (nothing-IsSafe w)

    request_to-Runs :
        (answer : Answer) (w : Webhook) (dialled body : Bytes) (o : Option Url)
        → net.parse_url w.url ≡ o
        → w.dry ≡ false
        → IsAllowed net w.url (address dialled)
        → Runs
            (net.parse_url w.url ≡ none)
            (λ (p : Posted). IsSafe w p.request)
            (request_to net replace json answer dialled body o)
    request_to-Runs answer w dialled body none e wet h = panics e
    request_to-Runs answer w dialled body (some u) e wet h =
        returns _ (record { guarded = h; silent = λ dry. absurd (ground arith) })

    build_request-Runs :
        (answer : Answer) (w : Webhook) (dialled body : Bytes) (o : Option Bytes)
        → w.dry ≡ false
        → IsAllowed net w.url (address dialled)
        → Runs
            (net.parse_url w.url ≡ none)
            (λ (p : Posted). IsSafe w p.request)
            (build_request net replace json answer w dialled body o)
    build_request-Runs answer w dialled body (some e) wet h = returns _ (nothing-IsSafe w)
    build_request-Runs answer w dialled body none wet h =
        request_to-Runs answer w dialled body (net.parse_url w.url) refl wet h

    encode-Runs :
        (answer : Answer) (w : Webhook) (payload : Payload) (dialled : Bytes) (o : Option Bytes)
        → w.dry ≡ false
        → IsAllowed net w.url (address dialled)
        → Runs
            (net.parse_url w.url ≡ none)
            (λ (p : Posted). IsSafe w p.request)
            (encode net replace json answer w payload dialled o)
    encode-Runs answer w payload dialled none wet h = returns _ (nothing-IsSafe w)
    encode-Runs answer w payload dialled (some body) wet h =
        build_request-Runs answer w dialled body answer.request_error wet h

    post_to-Runs :
        (answer : Answer) (w : Webhook) (payload : Payload) (d : Dial)
        → w.dry ≡ false
        → Outcome net w.url d
        → Runs
            (net.parse_url w.url ≡ none)
            (λ (p : Posted). IsSafe w p.request)
            (post_to net replace json answer w payload d)
    post_to-Runs answer w payload (refused e) wet o = returns _ (nothing-IsSafe w)
    post_to-Runs answer w payload (address dialled) wet o =
        encode-Runs answer w payload dialled (json.marshal payload) wet (let_through o refl)
    post_to-Runs answer w payload panicked wet o = absurd (no_panic o refl)

    -- A post goes where the guard lets it go.
    post-Runs :
        (answer : Answer) (w : Webhook) (payload : Payload)
        → Runs
            (net.parse_url w.url ≡ none)
            (λ (p : Posted). IsSafe w p.request)
            (post net replace json answer w payload)
    unfolding post
    post-Runs answer w payload =
        Runs-if w.dry (λ dry. dry_run-Runs w (validate_shape net w.url))
          λ wet.
            post_to-Runs answer w payload (pin_webhook_dial net w.url) wet
              (pin_webhook_dial-Outcome net no_name w.url)

    delivered-seen :
        (f : Finding) (finished : Bytes) (e : Option Bytes) (w : Webhook)
        → (delivered net replace json f finished e w).seen ≡ w.seen
    delivered-seen f finished none w = refl
    delivered-seen f finished (some e) w = refl

    length-remember :
        (k : Bytes) (marked reset : ℕ) (seen : Dict ℕ)
        → length (remember k marked reset seen) ≤ 2000
    unfolding remember
    length-remember k marked reset seen = ground arith

    -- However many findings come: a call of `NotifyFinding` keeps at most 2000 keys. It makes no
    -- request for a finding whose key was entered less than a minute ago, and changes nothing then;
    -- in a dry run it makes none. Any other goes to a loopback address, if the URL is of HTTP and
    -- names this machine; or, if it is of HTTPS, to the public address that stands in it, or to the
    -- first that its name resolves to, where all of them are public; at the port of the URL or of its
    -- scheme. It panics only where the URL cannot be parsed as it is kept. `ParseIP` does not take
    -- "localhost" for an address, and at most 2000 keys are kept before.
    pub notify_finding-Runs :
        (c : Alert) (w : Webhook)
        → length w.seen ≤ 2000
        → Runs (net.parse_url w.url ≡ none) (IsNotified c w) (notify_finding net replace json c w)
    unfolding notify_finding
    notify_finding-Runs c w few =
        Runs-if (not (enabled w) || is_recent c.asked (lookup (key c.finding) w.seen))
          (λ quiet.
            returns _ (record { safe = nothing-IsSafe w; few = few; waits = λ recent. refl }))
          λ told. Runs-bind _ (post-Runs c.answer _ _) λ p safe. returns _ (record {
            safe = record { guarded = safe.guarded; silent = safe.silent };
            few =
                rw (delivered-seen c.finding c.finished p.error _)
                  (length-remember (key c.finding) c.marked c.reset w.seen);
            waits = λ recent. absurd (ground arith);
          })

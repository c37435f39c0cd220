-- ===== src/Web/Control/Authorized.antt =====
-- Who may change the run from the dashboard.
use flux_tap.Engine.Control.{pause, resume, stop}
use flux_tap.Engine.Status.{Panel}
use flux_tap.Notify.Redact.{Regexp}
use flux_tap.Notify.Webhook.{Json}
use flux_tap.Notify.{Net}
use flux_tap.Prelude.Words.{Bytes}
use flux_tap.Prelude.{
  ℕ, ◌≤◌, if-cases, some-eq, subst, Option-cases, ◌≡◌, ◌≢◌, refl, inl, inr, true, some, arith,
  Bool-cases, take,
}
use flux_tap.Text.{text, text_eq}
use flux_tap.Web.Control.{Response, auth, act, handle_control}
use flux_tap.Web.{Server, Request, authorize}

-- What one of the three words does.
pub data Acts (p : Panel) : Bytes → Panel → Type 0 where
  pauses : {a : Bytes} → text_eq a (text "pause") ≡ true → Acts p a (record p { run = pause p.run })
  resumes :
      {a : Bytes} → text_eq a (text "resume") ≡ true → Acts p a (record p { run = resume p.run })
  stops : {a : Bytes} → text_eq a (text "stop") ≡ true → Acts p a (record p { run = stop p.run })

module _ (net : Net) (replace : Regexp) (json : Json) (marshal : Bytes → Bytes → Bytes)
    (lower : Bytes → Bytes) (action : Bytes → Bytes) where
  -- A request that was refused, or one that was let in and acted on.
  pub data Controlled (s : Server) (r : Request) (method body : Bytes) (p : Panel)
      : Response × Panel → Type 0 where
    is_refused : {answer : Response} → answer.code ≢ 200 → Controlled s r method body p (answer, p)
    is_done :
        {answer : Response} {p' : Panel}
        → answer.code ≡ 200
        → authorize lower s r ≡ true
        → text_eq method (text "POST") ≡ true
        → Acts p (action (take 4096 body)) p'
        → Controlled s r method body p (answer, p')

  -- `Pause`, `Resume` and `Stop` are reached by these words only.
  act-Acts : (a : Bytes) (p p' : Panel) → act a p ≡ some p' → Acts p a p'
  unfolding act
  act-Acts a p p' e = elim (if-cases (text_eq a (text "pause")) _ _ e) [
    | inl (word, done) ↦ subst (Acts p a) (some-eq done) (pauses word)
    | inr (other, e) ↦ elim (if-cases (text_eq a (text "resume")) _ _ e) [
      | inl (word, done) ↦ subst (Acts p a) (some-eq done) (resumes word)
      | inr (other, e) ↦ elim (if-cases (text_eq a (text "stop")) _ _ e) [
        | inl (word, done) ↦ subst (Acts p a) (some-eq done) (stops word)
        | inr (other, e) ↦ absurd (ground arith)
      ]
    ]
  ]

  not_ok : (n : ℕ) → 400 ≤ n → n ≢ 200
  not_ok n h e = omega arith

  -- A request to `/api/control` is answered with 200 only if it is let in, is a POST, and its body
  -- holds one of the three words, and then it does what the word says and nothing else. Any other
  -- answer leaves all as it was.
  pub handle_control-Controlled :
      (s : Server) (r : Request) (method body : Bytes) (p : Panel)
      → Controlled s r method body p
          (auth lower s r (handle_control net replace json marshal action method body) p)
  unfolding auth handle_control
  handle_control-Controlled s r method body p = elim (Bool-cases (authorize lower s r)) [
    | inr stranger ↦ rw stranger (is_refused (not_ok 401 (omega arith)))
    | inl known ↦ rw known (elim (Bool-cases (text_eq method (text "POST"))) [
      | inr other ↦ rw other (is_refused (not_ok 405 (omega arith)))
      | inl post ↦ rw post (elim (Option-cases (act (action (take 4096 body)) p)) [
        | inl nothing ↦ rw nothing (is_refused (not_ok 400 (omega arith)))
        | inr (p', went) ↦
            rw went (is_done refl known post (act-Acts (action (take 4096 body)) p p' went))
      ])
    ])
  ]

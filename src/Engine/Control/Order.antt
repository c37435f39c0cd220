-- ===== src/Engine/Control/Order.antt =====
-- Pausing changes nothing of what `Run` computes: it is the loop over the packets.
use flux_tap.Decode.Tls.{Md5}
use flux_tap.Engine.Control.{
  Phase, Ending, IsOver, pause, resume, choosing, gated, waiting, reading, done, failed, Run, begin,
  after_packet, Turn, see_stop, go_on, pass, leave, hold, wake, timer, take, eof, fault, turn,
  pause_called, resume_called, stop_called, stalls, supplies, Reach, here, next,
}
use flux_tap.Engine.Ingest.{Tap, Clock, ingest, run_loop}
use flux_tap.Filter.{Folding, Numbers}
use flux_tap.Pcap.Reader.{Packet}
use flux_tap.Prelude.Panics.{◌>>=◌}
use flux_tap.Prelude.Words.{Bytes}
use flux_tap.Prelude.{
  ℕ, ◌+◌, ◌≡◌, refl, sym, ap, ◌∙◌, Bool, true, false, ◌&&◌, Option, some, List, [], ◌∷◌, arith, ltb,
  leb, if◌then◌else◌, Bool-cases, inl, inr,
}

module _ (md5 : Md5) (fold : Folding) {R : Type 0} (real : Numbers R)
    (write : Bytes → Bytes → Bytes × Bool) (max : ℕ) where
  -- What the loop over the packets still makes of a run.
  abbrev outcome : Phase → Run → Option Tap
  outcome done r = some r.tap
  outcome failed r = some r.tap
  outcome choosing r = run_loop md5 fold real write max r.matched r.rest r.tap
  outcome gated r = run_loop md5 fold real write max r.matched r.rest r.tap
  outcome waiting r = run_loop md5 fold real write max r.matched r.rest r.tap
  outcome reading r = run_loop md5 fold real write max r.matched r.rest r.tap

  after_packet-outcome :
      (t : Tap) (ps : List (Clock × Packet)) (r : Run)
      → outcome (after_packet max t ps r).phase (after_packet max t ps r) ≡ (
          if ltb 0 max && leb max (r.matched + 1)
          then some t
          else run_loop md5 fold real write max (r.matched + 1) ps t)
  unfolding after_packet
  after_packet-outcome t ps r = elim (Bool-cases (ltb 0 max && leb max (r.matched + 1))) [
    | inl full ↦ rw full refl
    | inr more ↦ rw more refl
  ]

  run_loop-take :
      (clock : Clock) (p : Packet) (ps : List (Clock × Packet)) (matched : ℕ) (t t' : Tap)
      → ingest md5 fold real write clock p t ≡ some t'
      → run_loop md5 fold real write max matched ((clock, p) ∷ ps) t ≡ (
          if ltb 0 max && leb max (matched + 1)
          then some t'
          else run_loop md5 fold real write max (matched + 1) ps t')
  unfolding run_loop
  run_loop-take clock p ps matched t t' went =
      ap
        (λ m. m >>= λ u.
          if ltb 0 max && leb max (matched + 1)
          then some u
          else run_loop md5 fold real write max (matched + 1) ps u)
        went

  run_loop-nil : (matched : ℕ) (t : Tap) → run_loop md5 fold real write max matched [] t ≡ some t
  unfolding run_loop
  run_loop-nil matched t = refl

  -- `Stop` is never taken back.
  Turn-stopped :
      {r u : Run} → Turn md5 fold real write max r u → u.stopped ≡ false → r.stopped ≡ false
  unfolding after_packet
  Turn-stopped (see_stop r at closed) h = h
  Turn-stopped (go_on r at open_) h = h
  Turn-stopped (pass r at open_) h = h
  Turn-stopped (leave r at p closed) h = h
  Turn-stopped (hold r at p open_) h = h
  Turn-stopped (wake r at closed) h = h
  Turn-stopped (timer r at) h = h
  Turn-stopped (take r clock p ps t at free e went) h = ground arith
  Turn-stopped (eof r at free e b) h = h
  Turn-stopped (fault r at free e b) h = h

  Turn-outcome :
      {r u : Run}
      → Turn md5 fold real write max r u
      → r.stopped ≡ false
      → outcome r.phase r ≡ outcome u.phase u
  Turn-outcome (see_stop r at closed) h = absurd (ground arith)
  Turn-outcome (leave r at p closed) h = absurd (ground arith)
  Turn-outcome (wake r at closed) h = absurd (ground arith)
  Turn-outcome (go_on r at open_) h = ap (λ p. outcome p r) at
  Turn-outcome (pass r at open_) h = ap (λ p. outcome p r) at
  Turn-outcome (hold r at p open_) h = ap (λ p. outcome p r) at
  Turn-outcome (timer r at) h = ap (λ p. outcome p r) at
  Turn-outcome (take r clock p ps t at free e went) h =
      ap (λ q. outcome q r) at
      ∙ ap (λ qs. run_loop md5 fold real write max r.matched qs r.tap) e
      ∙ run_loop-take clock p ps r.matched r.tap t went
      ∙ sym (after_packet-outcome t ps r)
  Turn-outcome (eof r at free e b) h =
      ap (λ q. outcome q r) at
      ∙ ap (λ qs. run_loop md5 fold real write max r.matched qs r.tap) e
      ∙ run_loop-nil r.matched r.tap
  Turn-outcome (fault r at free e b) h =
      ap (λ q. outcome q r) at
      ∙ ap (λ qs. run_loop md5 fold real write max r.matched qs r.tap) e
      ∙ run_loop-nil r.matched r.tap

  -- What the loop makes of a run stays as it is.
  Reach-outcome :
      {s u : Run}
      → Reach md5 fold real write max s u
      → u.stopped ≡ false
      → outcome s.phase s ≡ outcome u.phase u
  Reach-outcome here h = refl
  Reach-outcome (next reach (turn t)) h =
      let h' = Turn-stopped t h in Reach-outcome reach h' ∙ Turn-outcome t h'
  Reach-outcome (next reach (pause_called r)) h = Reach-outcome reach h ∙ same r.phase
    where
      same : (p : Phase) → outcome p r ≡ outcome p (pause r)
      same p = ground arith
  Reach-outcome (next reach (resume_called r)) h = Reach-outcome reach h ∙ same r.phase
    where
      same : (p : Phase) → outcome p r ≡ outcome p (resume r)
      same p = ground arith
  Reach-outcome (next reach (stop_called r)) h = absurd (ground arith)
  Reach-outcome (next reach (stalls r)) h = Reach-outcome reach h ∙ same r.phase
    where
      same : (p : Phase) → outcome p r ≡ outcome p (record r { blocked = true })
      same p = ground arith
  Reach-outcome (next reach (supplies r)) h = Reach-outcome reach h ∙ same r.phase
    where
      same : (p : Phase) → outcome p r ≡ outcome p (record r { blocked = false })
      same p = ground arith

  -- However often and whenever `Run` is paused and resumed and its source falls silent, once it is over without `Stop` it has
  -- taken the packets of its source as the loop over them does: the same ones, in the same order,
  -- each once, up to the maximum.
  pub Reach-run_loop :
      {u : Run} (paused : Bool) (ps : List (Clock × Packet)) (ending : Ending) (t : Tap)
      → Reach md5 fold real write max (begin paused false ps ending t) u
      → u.stopped ≡ false
      → IsOver u.phase
      → run_loop md5 fold real write max 0 ps t ≡ some u.tap
  unfolding begin
  Reach-run_loop {u} paused ps ending t reach h over = Reach-outcome reach h ∙ ended u.phase over
    where
      ended : (p : Phase) → IsOver p → outcome p u ≡ some u.tap
      ended p k = ground arith

-- ===== src/Engine/Control/Holds.antt =====
-- `Pause` holds `Run`.
use flux_tap.Decode.Tls.{Md5}
use flux_tap.Engine.Control.{
  Phase, reading, Run, after_packet, pause, Turn, see_stop, go_on, pass, leave, hold, wake, timer,
  take, eof, fault, turn, pause_called, resume_called, stop_called, stalls, supplies, NeverResumes,
  Reach, here, next,
}
use flux_tap.Filter.{Folding, Numbers}
use flux_tap.Prelude.Words.{Bytes}
use flux_tap.Prelude.{ℕ, ◌+◌, ◌≤◌, ◌≡◌, refl, Bool, true, arith, length, ap}

-- The packets that may still be taken while paused.
abbrev pub held : Phase → ℕ
held reading = 1
held _ = 0

module _ (md5 : Md5) (fold : Folding) {R : Type 0} (real : Numbers R)
    (write : Bytes → Bytes → Bytes × Bool) (max : ℕ) where
  Turn-held :
      {r u : Run}
      → Turn md5 fold real write max r u
      → r.paused ≡ true
      → (length r.rest + held u.phase ≤ length u.rest + held r.phase) × (u.paused ≡ true)
  unfolding after_packet
  Turn-held (see_stop r at open_) h = ground arith
  Turn-held (go_on r at open_) h = ground arith
  Turn-held (pass r at open_) h = absurd (ground arith)
  Turn-held (leave r at p open_) h = ground arith
  Turn-held (hold r at p open_) h = ground arith
  Turn-held (wake r at open_) h = ground arith
  Turn-held (timer r at) h = ground arith
  Turn-held (take r clock p ps t at free e went) h = ground (arith, ap length e)
  Turn-held (eof r at free e b) h = ground arith
  Turn-held (fault r at free e b) h = ground arith

  Reach-held :
      {s u : Run} (reach : Reach md5 fold real write max s u)
      → NeverResumes md5 fold real write max reach
      → s.paused ≡ true
      → (length s.rest + held u.phase ≤ length u.rest + held s.phase) × (u.paused ≡ true)
  unfolding NeverResumes
  Reach-held here quiet h = (omega arith, h)
  Reach-held (next reach (turn t)) quiet h =
      let (packets, paused) = Reach-held reach quiet h in
      let (one, paused') = Turn-held t paused in (omega arith, paused')
  Reach-held (next reach (pause_called r)) quiet h =
      let (packets, paused) = Reach-held reach quiet h in (packets, refl)
  Reach-held (next reach (resume_called r)) quiet h = absurd quiet
  Reach-held (next reach (stop_called r)) quiet h = Reach-held reach quiet h
  Reach-held (next reach (stalls r)) quiet h = Reach-held reach quiet h
  Reach-held (next reach (supplies r)) quiet h = Reach-held reach quiet h

  -- From `Pause` until `Resume`, however many turns `Run` takes, it takes no packet, except for the
  -- one that it is reading when `Pause` is called.
  pub pause-Holds :
      (s u : Run) (reach : Reach md5 fold real write max (pause s) u)
      → NeverResumes md5 fold real write max reach
      → length s.rest ≤ length u.rest + held s.phase
  pause-Holds s u reach quiet = omega (arith, (Reach-held reach quiet refl).0)

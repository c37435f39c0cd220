-- ===== src/Engine/Control/Ends.antt =====
-- `Stop` ends `Run`.
use flux_tap.Decode.Tls.{Md5}
use flux_tap.Engine.Control.{
  Phase, Ending, at_eof, at_fault, at_panic, Standing, is_over, moves, blocks, crashes, Step,
  choosing, gated, waiting, reading, done, failed, Run, after_packet, stop, Turn, see_stop, go_on,
  pass, leave, hold, wake, timer, take, eof, fault, turn, pause_called, resume_called, stop_called,
  stalls, supplies, Reach, here, next, turns,
}
use flux_tap.Engine.Ingest.Sound.{IsSound, HasBadPacket, ingest-Runs}
use flux_tap.Engine.Ingest.{Tap, Clock}
use flux_tap.Filter.{Folding, Numbers, LowersAscii}
use flux_tap.Pcap.Reader.{Packet}
use flux_tap.Prelude.Panics.{Runs-value, Runs-map, Runs-eq-some}
use flux_tap.Prelude.Words.{Bytes}
use flux_tap.Prelude.{
  ℕ, ◌+◌, ◌≤◌, ◌<◌, ◌≡◌, refl, Bool, true, false, inl, inr, List, [], ◌∷◌, arith, length, ap,
  Bool-cases, ltb, leb, ◌&&◌,
}

-- The turns that are left once `stopCh` is closed.
abbrev budget : Phase → ℕ
budget choosing = 1
budget reading = 2
budget gated = 3
budget waiting = 4
budget done = 0
budget failed = 0

-- The packets that may still be taken then.
abbrev owed : Phase → ℕ
owed choosing = 0
owed done = 0
owed failed = 0
owed _ = 1

module _ (md5 : Md5) (fold : Folding) {R : Type 0} (real : Numbers R)
    (write : Bytes → Bytes → Bytes × Bool) (max : ℕ) where
  Turn-budget :
      {r u : Run}
      → Turn md5 fold real write max r u
      → r.stopped ≡ true
      → (budget u.phase < budget r.phase)
        × (length r.rest + owed u.phase ≤ length u.rest + owed r.phase)
        × (u.stopped ≡ true)
  unfolding after_packet
  Turn-budget (see_stop r at open_) h = ground arith
  Turn-budget (go_on r at open_) h = absurd (ground arith)
  Turn-budget (pass r at open_) h = ground arith
  Turn-budget (leave r at p open_) h = ground arith
  Turn-budget (hold r at p open_) h = absurd (ground arith)
  Turn-budget (wake r at open_) h = ground arith
  Turn-budget (timer r at) h = ground arith
  Turn-budget (take r clock p ps t at free e went) h = ground (arith, ap length e)
  Turn-budget (eof r at free e b) h = ground arith
  Turn-budget (fault r at free e b) h = ground arith

  Reach-budget :
      {s u : Run} (reach : Reach md5 fold real write max s u)
      → s.stopped ≡ true
      → (turns md5 fold real write max reach + budget u.phase ≤ budget s.phase)
        × (length s.rest + owed u.phase ≤ length u.rest + owed s.phase)
        × (u.stopped ≡ true)
  unfolding turns
  Reach-budget here h = (omega arith, omega arith, h)
  Reach-budget (next reach (turn t)) h =
      let (few, packets, closed) = Reach-budget reach h in
      let (less, one, closed') = Turn-budget t closed in (omega arith, omega arith, closed')
  Reach-budget (next reach (pause_called r)) h = Reach-budget reach h
  Reach-budget (next reach (resume_called r)) h = Reach-budget reach h
  Reach-budget (next reach (stop_called r)) h =
      let (few, packets, closed) = Reach-budget reach h in (few, packets, refl)
  Reach-budget (next reach (stalls r)) h = Reach-budget reach h
  Reach-budget (next reach (supplies r)) h = Reach-budget reach h

  module _ (lowers : LowersAscii fold) where
    -- The whole program stays sound, and the packets that are left are good.
    after_packet-good :
        (t : Tap) (ps : List (Clock × Packet)) (r : Run)
        → IsSound t
        → ¬ HasBadPacket ps
        → IsSound (after_packet max t ps r).tap × ¬ HasBadPacket (after_packet max t ps r).rest
    unfolding after_packet
    after_packet-good t ps r v good = elim (Bool-cases (ltb 0 max && leb max (r.matched + 1))) [
      | inl full ↦ rw full (v, good)
      | inr more ↦ rw more (v, good)
    ]

    Turn-good :
        {r u : Run}
        → Turn md5 fold real write max r u
        → IsSound r.tap
        → ¬ HasBadPacket r.rest
        → IsSound u.tap × ¬ HasBadPacket u.rest
    Turn-good (take r clock p ps t at free e went) v good =
        after_packet-good t ps r
          (Runs-eq-some (ingest-Runs md5 fold lowers real write clock p r.tap v) went)
          (λ bad. good (rw e (inr bad)))
    Turn-good (see_stop r at open_) v good = (v, good)
    Turn-good (go_on r at open_) v good = (v, good)
    Turn-good (pass r at open_) v good = (v, good)
    Turn-good (leave r at p open_) v good = (v, good)
    Turn-good (hold r at p open_) v good = (v, good)
    Turn-good (wake r at open_) v good = (v, good)
    Turn-good (timer r at) v good = (v, good)
    Turn-good (eof r at free e b) v good = (v, good)
    Turn-good (fault r at free e b) v good = (v, good)

    pub Step-good :
        {r u : Run}
        → Step md5 fold real write max r u
        → IsSound r.tap
        → ¬ HasBadPacket r.rest
        → IsSound u.tap × ¬ HasBadPacket u.rest
    Step-good (turn t) v good = Turn-good t v good
    Step-good (pause_called r) v good = (v, good)
    Step-good (resume_called r) v good = (v, good)
    Step-good (stop_called r) v good = (v, good)
    Step-good (stalls r) v good = (v, good)
    Step-good (supplies r) v good = (v, good)

    Reach-good :
        {s u : Run}
        → Reach md5 fold real write max s u
        → IsSound s.tap
        → ¬ HasBadPacket s.rest
        → IsSound u.tap × ¬ HasBadPacket u.rest
    Reach-good here v good = (v, good)
    Reach-good (next reach step) v good =
        let (v', good') = Reach-good reach v good in Step-good step v' good'

    -- Where `Next` returns, it gives a packet that `ingest` takes, or the ending.
    reading-Standing :
        (r : Run) (ps : List (Clock × Packet)) (ending : Ending)
        → r.phase ≡ reading
        → r.blocked ≡ false
        → r.rest ≡ ps
        → r.ending ≡ ending
        → IsSound r.tap
        → ¬ HasBadPacket ps
        → Standing md5 fold real write max r
    reading-Standing r ((clock, p) ∷ ps) ending at free e b v good =
        let (t, went, sound) = Runs-value (
          Runs-map (λ bad. good (inl bad)) (λ t w. w)
            (ingest-Runs md5 fold lowers real write clock p r.tap v)) in
        moves _ (take r clock p ps t at free e went)
    reading-Standing r [] at_eof at free e b v good = moves _ (eof r at free e b)
    reading-Standing r [] at_fault at free e b v good = moves _ (fault r at free e b)
    reading-Standing r [] at_panic at free e b v good = crashes at free e b

    pub run-Standing :
        (r : Run) (phase : Phase)
        → r.phase ≡ phase
        → IsSound r.tap
        → ¬ HasBadPacket r.rest
        → Standing md5 fold real write max r
    run-Standing r done at v good = is_over (ground arith)
    run-Standing r failed at v good = is_over (ground arith)
    run-Standing r reading at v good = elim (Bool-cases r.blocked) [
      | inl silent ↦ blocks at silent
      | inr free ↦ reading-Standing r r.rest r.ending at free refl refl v good
    ]
    run-Standing r waiting at v good = moves _ (timer r at)
    run-Standing r choosing at v good = elim (Bool-cases r.stopped) [
      | inl closed ↦ moves _ (see_stop r at closed)
      | inr open_ ↦ moves _ (go_on r at open_)
    ]
    run-Standing r gated at v good = elim (Bool-cases r.paused) [
      | inr free ↦ moves _ (pass r at free)
      | inl paused ↦ elim (Bool-cases r.stopped) [
        | inl closed ↦ moves _ (leave r at paused closed)
        | inr open_ ↦ moves _ (hold r at paused open_)
      ]
    ]

    -- Once `Stop` was called, wherever `Run` stands and whatever of `Pause`, `Resume` and `Stop` is
    -- called from then on, it takes four turns at most and at most one packet more; and at every
    -- point it is over, or it can take a turn, or it is in `Next`, which does not return or panics.
    -- The program is sound before, and no packet that is left holds, in the TCP header that the walk
    -- over its own headers comes to, options on which `parseTCPOptions` panics. Lowering is that
    -- of ASCII on a text in ASCII.
    pub stop-Ends :
        (s u : Run) (reach : Reach md5 fold real write max (stop s) u)
        → IsSound s.tap
        → ¬ HasBadPacket s.rest
        → (turns md5 fold real write max reach ≤ 4)
          × (length s.rest ≤ length u.rest + 1)
          × Standing md5 fold real write max u
    stop-Ends s u reach v good =
        let (few, packets, closed) = Reach-budget reach refl in
        let (v', good') = Reach-good reach v good in
        (
          omega (arith, few, budget-le s.phase),
          omega (arith, packets, owed-le s.phase),
          run-Standing u u.phase refl v' good',
        )
      where
        budget-le : (p : Phase) → budget p ≤ 4
        budget-le p = ground arith

        owed-le : (p : Phase) → owed p ≤ 1
        owed-le p = ground arith

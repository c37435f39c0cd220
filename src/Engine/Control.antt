-- ===== src/Engine/Control.antt =====
-- `Run`, `Pause`, `Resume` and `Stop` of internal/engine/engine.go. `Run` takes its turns while the
-- others are called from the dashboard at any time, so that the turns are a relation.
pub mod Ends
pub mod Holds
pub mod Order
pub mod Whole
use flux_tap.Decode.Tls.{Md5}
use flux_tap.Engine.Ingest.{Tap, Clock, ingest}
use flux_tap.Filter.{Folding, Numbers}
use flux_tap.Pcap.Reader.{Packet}
use flux_tap.Prelude.Words.{Bytes}
use flux_tap.Prelude.{
  ℕ, suc, ◌+◌, ◌≡◌, Bool, true, false, ◌&&◌, some, List, [], ◌∷◌, ltb, leb, if◌then◌else◌,
}

-- Where the loop of `Run` stands: at the `select` on `stopCh`, at the test of `paused`, in the wait
-- of 50 milliseconds, in `Next`, and behind the loop or at the return of an error.
pub data Phase : Type 0 where
  choosing gated waiting reading done failed : Phase

abbrev pub IsOver : Phase → Type 0
IsOver done = Unit
IsOver failed = Unit
IsOver _ = ⊥

-- What `Next` does behind the last packet: it gives `io.EOF` or an error, or it panics.
pub data Ending : Type 0 where
  at_eof at_fault at_panic : Ending

-- `running`, `paused` and the closed `stopCh`, the packets counted by `matched`, and what the source
-- has left to give: packets, and then its ending. While it is `blocked`, `Next` does not return.
pub record Run : Type 0 where
  pub tap : Tap
  pub running : Bool
  pub paused : Bool
  pub stopped : Bool
  pub phase : Phase
  pub matched : ℕ
  pub rest : List (Clock × Packet)
  pub ending : Ending
  pub blocked : Bool

-- What `Run` begins its loop with.
unfoldable pub begin : Bool → Bool → List (Clock × Packet) → Ending → Tap → Run
begin paused stopped packets ending t = record {
  tap = t;
  running = true;
  paused = paused;
  stopped = stopped;
  phase = choosing;
  matched = 0;
  rest = packets;
  ending = ending;
  blocked = false;
}

abbrev pub pause : Run → Run
pause r = record r { paused = true }

abbrev pub resume : Run → Run
resume r = record r { paused = false }

-- Closing the channel a second time is avoided by the `select`.
abbrev pub stop : Run → Run
stop r = record r { stopped = true }

-- The end of a packet's round: the maximum, if there is one, ends the loop.
unfoldable pub after_packet : ℕ → Tap → List (Clock × Packet) → Run → Run
after_packet max t ps r =
    if ltb 0 max && leb max (r.matched + 1)
    then record r { tap = t; matched = r.matched + 1; rest = ps; phase = done; running = false }
    else record r { tap = t; matched = r.matched + 1; rest = ps; phase = choosing }

module _ (md5 : Md5) (fold : Folding) {R : Type 0} (real : Numbers R)
    (write : Bytes → Bytes → Bytes × Bool) (max : ℕ) where
  -- A turn of `Run`. In the wait, the timer may come first also when `stopCh` is closed meanwhile.
  pub data Turn : Run → Run → Type 0 where
    see_stop :
        (r : Run)
        → r.phase ≡ choosing
        → r.stopped ≡ true
        → Turn r (record r { phase = done; running = false })
    go_on : (r : Run) → r.phase ≡ choosing → r.stopped ≡ false → Turn r (record r { phase = gated })
    pass : (r : Run) → r.phase ≡ gated → r.paused ≡ false → Turn r (record r { phase = reading })
    leave :
        (r : Run)
        → r.phase ≡ gated
        → r.paused ≡ true
        → r.stopped ≡ true
        → Turn r (record r { phase = done; running = false })
    hold :
        (r : Run)
        → r.phase ≡ gated
        → r.paused ≡ true
        → r.stopped ≡ false
        → Turn r (record r { phase = waiting })
    wake :
        (r : Run)
        → r.phase ≡ waiting
        → r.stopped ≡ true
        → Turn r (record r { phase = done; running = false })
    timer : (r : Run) → r.phase ≡ waiting → Turn r (record r { phase = gated })
    take :
        (r : Run) (clock : Clock) (p : Packet) (ps : List (Clock × Packet)) (t : Tap)
        → r.phase ≡ reading
        → r.blocked ≡ false
        → r.rest ≡ (clock, p) ∷ ps
        → ingest md5 fold real write clock p r.tap ≡ some t
        → Turn r (after_packet max t ps r)
    eof :
        (r : Run)
        → r.phase ≡ reading
        → r.blocked ≡ false
        → r.rest ≡ []
        → r.ending ≡ at_eof
        → Turn r (record r { phase = done; running = false })
    fault :
        (r : Run)
        → r.phase ≡ reading
        → r.blocked ≡ false
        → r.rest ≡ []
        → r.ending ≡ at_fault
        → Turn r (record r { phase = failed; running = false })

  -- A run that stands at no turn that it can take is over, or it is in `Next`, which does not return
  -- or panics.
  pub data Standing (r : Run) : Type 0 where
    is_over : IsOver r.phase → Standing r
    moves : (u : Run) → Turn r u → Standing r
    blocks : r.phase ≡ reading → r.blocked ≡ true → Standing r
    crashes : r.phase ≡ reading → r.blocked ≡ false → r.rest ≡ [] → r.ending ≡ at_panic → Standing r

  -- A turn, a call from the dashboard, or the source that falls silent or has something again.
  pub data Step : Run → Run → Type 0 where
    turn : {r u : Run} → Turn r u → Step r u
    pause_called : (r : Run) → Step r (pause r)
    resume_called : (r : Run) → Step r (resume r)
    stop_called : (r : Run) → Step r (stop r)
    stalls : (r : Run) → Step r (record r { blocked = true })
    supplies : (r : Run) → Step r (record r { blocked = false })

  pub data Reach (s : Run) : Run → Type 0 where
    here : Reach s s
    next : {r u : Run} → Reach s r → Step r u → Reach s u

  -- How many turns of `Run` were taken on the way.
  unfoldable pub turns : {s u : Run} → Reach s u → ℕ
  turns here = 0
  turns (next reach (turn t)) = suc (turns reach)
  turns (next reach (pause_called r)) = turns reach
  turns (next reach (resume_called r)) = turns reach
  turns (next reach (stop_called r)) = turns reach
  turns (next reach (stalls r)) = turns reach
  turns (next reach (supplies r)) = turns reach

  -- Nobody called `Resume` on the way.
  unfoldable pub NeverResumes : {s u : Run} → Reach s u → Type 0
  NeverResumes here = Unit
  NeverResumes (next reach (turn t)) = NeverResumes reach
  NeverResumes (next reach (pause_called r)) = NeverResumes reach
  NeverResumes (next reach (resume_called r)) = ⊥
  NeverResumes (next reach (stop_called r)) = NeverResumes reach
  NeverResumes (next reach (stalls r)) = NeverResumes reach
  NeverResumes (next reach (supplies r)) = NeverResumes reach

-- ===== src/Engine/Control/Whole.antt =====
-- The program from `New` on, through `Run` and what goes on beside it: `Pause`, `Resume`, `Stop`,
-- `SetHub` and the flushes of `wsFlushLoop`. What only reads, as `Status` does, changes nothing.
use flux_tap.Decode.Tls.{Md5}
use flux_tap.Engine.Control.{Run, Step}
use flux_tap.Engine.Ingest.{Tap, set_hub}
use flux_tap.Engine.{flush_ws}
use flux_tap.Filter.{Folding, Numbers}
use flux_tap.Prelude.Words.{Bytes}
use flux_tap.Prelude.{ℕ, Bool}

-- `flushWS`, as the ticker of `wsFlushLoop` calls it.
abbrev pub flush_tap : Tap → Tap
flush_tap t = record t { engine = flush_ws t.engine }

module _ (md5 : Md5) (fold : Folding) {R : Type 0} (real : Numbers R)
    (write : Bytes → Bytes → Bytes × Bool) (max : ℕ) where
  -- A step of `Run` and its callers, a flush, or a hub that is set.
  pub data Moment : Run → Run → Type 0 where
    steps : {r u : Run} → Step md5 fold real write max r u → Moment r u
    flushes : (r : Run) → Moment r (record r { tap = flush_tap r.tap })
    gets_hub : (r : Run) → Moment r (record r { tap = set_hub r.tap })

  pub data Comes (s : Run) : Run → Type 0 where
    at_first : Comes s s
    and_then : {r u : Run} → Comes s r → Moment r u → Comes s u

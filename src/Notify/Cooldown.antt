-- ===== src/Notify/Cooldown.antt =====
-- What internal/notify/telegram.go and webhook.go both write out at the beginning of `NotifyFinding`:
-- the key of a finding, and the wait of a minute. Times are those of the monotonic clock that
-- `time.Since` reads, in nanoseconds.
use flux_tap.Pcap.Stream.{second}
use flux_tap.Prelude.Words.{Bytes}
use flux_tap.Prelude.{ℕ, ◌-◌, ◌*◌, Bool, false, Option, none, some, ◌++◌, ltb}
use flux_tap.Security.{Finding}
use flux_tap.Text.{text}

unfoldable pub key : Finding → Bytes
key f = f.rule ++ (text "|" ++ (f.src ++ (text "|" ++ f.dst)))

abbrev pub cooldown : ℕ
cooldown = 60 * second

-- `ts, ok := seen[key]; ok && time.Since(ts) < 60*time.Second`.
abbrev pub is_recent : ℕ → Option ℕ → Bool
is_recent now none = false
is_recent now (some ts) = ltb (now - ts) cooldown

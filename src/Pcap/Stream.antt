-- ===== src/Pcap/Stream.antt =====
-- What internal/pcap takes from the standard library: the errors, `io.ReadFull` on a stream that
-- only ends, and the instants of `time.Time`.
use flux_tap.Prelude.Words.{Bytes}
use flux_tap.Prelude.{
  ℕ, ◌+◌, ◌-◌, ◌*◌, ◌/◌, ◌%◌, ◌^◌, ◌≡◌, refl, Bool, true, false, [], ◌∷◌, ◌++◌, arith, ltb, leb,
  ◌==◌, if◌then◌else◌, length, take, drop, length-append, take-append, drop-append, le→leb,
}

-- What `ErrTruncated` is wrapped with.
pub data Truncation : Type 0 where
  shb_len : ℕ → Truncation
  block_len : ℕ → Truncation
  cap_len : ℕ → Truncation
  epb_data : Truncation

pub data Fault : Type 0 where
  eof : Fault
  unexpected_eof : Fault
  unsupported : ℕ → Fault
  truncated : Truncation → Fault
  panicked : Fault
  no_fuel : Fault

pub data Result {ℓ} (A : Type ℓ) : Type ℓ where
  ok : A → Result A
  fail : Fault → Result A

infixl 5 ◌>>=◌
abbrev pub ◌>>=◌ {ℓ κ} : {A : Type ℓ} {B : Type κ} → Result A → (A → Result B) → Result B
fail fault >>= rest = fail fault
ok x >>= rest = rest x

-- What a read that went well had read first.
pub bind-eq-ok {ℓ κ} :
    {A : Type ℓ} {B : Type κ} (read : Result A) (rest : A → Result B) {y : B}
    → read >>= rest ≡ ok y
    → (x : A) × (read ≡ ok x) × (rest x ≡ ok y)
bind-eq-ok (fail fault) rest went = cc
bind-eq-ok (ok x) rest went = (x, refl, went)

-- Inversion of a guard that was passed.
pub guard-eq-ok {ℓ} :
    {A : Type ℓ} (b : Bool) (e : Fault) (m : Result A) {a : A}
    → (if b then fail e else m) ≡ ok a
    → (b ≡ false) × (m ≡ ok a)
guard-eq-ok true e m h = cc
guard-eq-ok false e m h = (refl, h)

short : Bytes → Fault
short [] = eof
short (b ∷ bs) = unexpected_eof

-- `io.ReadFull` into a buffer of `n` bytes: the bytes read, and the rest of the stream.
unfoldable pub read_full : ℕ → Bytes → Result (Bytes × Bytes)
unfolding short
read_full n s = if leb n (length s) then ok (take n s, drop n s) else fail (short s)

pub read_full-append : (xs ys : Bytes) → read_full (length xs) (xs ++ ys) ≡ ok (xs, ys)
unfolding read_full
read_full-append xs ys = rw (
  le→leb (length xs) (length (xs ++ ys)) (omega (arith, length-append xs ys)),
  take-append xs ys,
  drop-append xs ys,
)

-- The same, for a length and a stream that are known by an equation.
pub read_full_eq :
    (n : ℕ) (s xs ys : Bytes) → length xs ≡ n → s ≡ xs ++ ys → read_full n s ≡ ok (xs, ys)
read_full_eq n s xs ys h e = rw (e, ← h) (read_full-append xs ys)

-- An instant, in nanoseconds from the Unix epoch; `before_epoch n` is n + 1 of them before it.
pub data Instant : Type 0 where
  since_epoch : ℕ → Instant
  before_epoch : ℕ → Instant

abbrev pub second : ℕ
second = 1000000000

-- `time.Unix(sec, nsec)` at arguments that are not negative.
unfoldable pub unix : ℕ → ℕ → Instant
unix sec nsec = since_epoch (sec * second + nsec)

-- `time.Unix(0, int64(ticks)*1000)`: the product wraps in 64 bits, and is read with its sign.
unfoldable pub unix_micros : ℕ → Instant
unix_micros ticks =
    let nanos = ticks * 1000 % 2 ^ 64 in
    if ltb nanos (2 ^ 63) then since_epoch nanos else before_epoch (2 ^ 64 - nanos - 1)

-- `uint32(ts.Unix())`.
unfoldable pub seconds32 : Instant → ℕ
seconds32 (since_epoch n) = n / second % 4294967296
seconds32 (before_epoch n) = (4294967296 - (n / second + 1) % 4294967296) % 4294967296

-- `ts.Nanosecond() / 1000`.
unfoldable pub micros : Instant → ℕ
micros (since_epoch n) = n % second / 1000
micros (before_epoch n) = (second - 1 - n % second) / 1000

-- `ts.IsZero()`: the first instant of the year 1.
unfoldable pub is_zero : Instant → Bool
is_zero (since_epoch n) = false
is_zero (before_epoch n) = n == 62135596800 * second - 1

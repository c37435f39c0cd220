-- ===== src/Pcap/Kernel/Rounds.antt =====
-- What `Next` of internal/pcap/afpacket.go comes to.
use flux_tap.Pcap.Kernel.{
  KernelTap, Round, Tapped, waits, was_closed, gives, close_kernel, behind_round, give_packet,
  received, next_kernel,
}
use flux_tap.Pcap.Stream.{Instant}
use flux_tap.Prelude.Words.{Bytes}
use flux_tap.Prelude.{
  ◌+◌, ◌%◌, ◌^◌, ◌<◌, ◌≡◌, refl, ap, ◌∙◌, ◌⊎◌, inl, inr, Bool, true, false, List, [], ◌∷◌, arith,
  length, Bool-cases, if◌then◌else◌,
}

-- A round that brings nothing.
abbrev pub IsEmpty : Round → Type 0
IsEmpty r = (r.failed ≡ true) ⊎ (r.bytes ≡ [])

-- The first round that brings something brings these bytes.
abbrev pub Brings : List Round → Bytes → Type 0
Brings [] bytes = ⊥
Brings (r ∷ rs) bytes =
    (r.failed ≡ false) × (r.bytes ≡ bytes) × (0 < length bytes) ⊎ IsEmpty r × Brings rs bytes

-- `Close` was called in one of the rounds.
abbrev pub Closes : List Round → Type 0
Closes [] = ⊥
Closes (r ∷ rs) = (r.closing ≡ true) ⊎ Closes rs

-- No round brought anything, and none closed the tap.
abbrev pub IsIdle : List Round → Type 0
IsIdle [] = Unit
IsIdle (r ∷ rs) = (r.closing ≡ false) × IsEmpty r × IsIdle rs

-- What `Next` may come to after these rounds.
abbrev pub IsTapped : List Round → KernelTap → Tapped → Type 0
IsTapped rs k (waits k') = (k.closed ≡ false) × IsIdle rs
IsTapped rs k was_closed = (k.closed ≡ true) ⊎ Closes rs
IsTapped rs k (gives p k') =
    (k.closed ≡ false)
    × (p.no ≡ (k.seq + 1) % 2 ^ 64)
    × (k'.seq ≡ p.no)
    × (p.cap_len ≡ length p.contents % 2 ^ 32)
    × Brings rs p.contents

behind_round-open : (r : Round) (k : KernelTap) → r.closing ≡ false → behind_round r k ≡ k
behind_round-open r k e = rw e

behind_round-closed :
    (r : Round) (k : KernelTap) → r.closing ≡ true → (behind_round r k).closed ≡ true
unfolding close_kernel
behind_round-closed r k e = ground arith

behind_round-seq : (r : Round) (k : KernelTap) → (behind_round r k).seq ≡ k.seq
unfolding close_kernel
behind_round-seq r k = ground arith

-- A round that brings nothing, and what the later ones come to.
IsTapped-later :
    (r : Round) (rs : List Round) (k : KernelTap) (o : Tapped)
    → k.closed ≡ false
    → IsEmpty r
    → IsTapped rs (behind_round r k) o
    → IsTapped (r ∷ rs) k o
IsTapped-later r rs k (waits k') open_ empty (still, idle) = elim (Bool-cases r.closing) [
  | inl closing ↦ absurd (ground (arith, behind_round-closed r k closing))
  | inr quiet ↦ (open_, (quiet, empty, idle))
]
IsTapped-later r rs k was_closed open_ empty (inr closes) = inr (inr closes)
IsTapped-later r rs k was_closed open_ empty (inl shut) = elim (Bool-cases r.closing) [
  | inl closing ↦ inr (inl closing)
  | inr quiet ↦ absurd (ground (arith, ap (λ j. j.closed) (behind_round-open r k quiet)))
]
IsTapped-later r rs k (gives p k') open_ empty (still, numbered, seq, len, brings) = (
  open_,
  numbered ∙ ap (λ n. (n + 1) % 2 ^ 64) (behind_round-seq r k),
  seq,
  len,
  inr (empty, brings),
)

-- Bytes that are received are given on.
received-IsTapped :
    (now : Instant) (r : Round) (rs : List Round) (k : KernelTap) (bytes : Bytes) (later : Tapped)
    → k.closed ≡ false
    → r.failed ≡ false
    → r.bytes ≡ bytes
    → IsTapped rs (behind_round r k) later
    → IsTapped (r ∷ rs) k (received now bytes (behind_round r k) later)
unfolding give_packet
received-IsTapped now r rs k [] later open_ went e h = IsTapped-later r rs k later open_ (inr e) h
received-IsTapped now r rs k (b ∷ bytes) later open_ went e h = (
  open_,
  ap (λ n. (n + 1) % 2 ^ 64) (behind_round-seq r k),
  refl,
  refl,
  inl (went, e, omega arith),
)

IsTapped-if :
    (rs : List Round) (k : KernelTap) (b : Bool) (x y : Tapped)
    → (b ≡ true → IsTapped rs k x)
    → (b ≡ false → IsTapped rs k y)
    → IsTapped rs k (if b then x else y)
IsTapped-if rs k true x y yes_then no_else = yes_then refl
IsTapped-if rs k false x y yes_then no_else = no_else refl

-- Whatever the socket brings: `Next` waits only as long as the tap is open and no round brought
-- bytes; it ends as closed only if `Close` was called, before or in one of the rounds; and it gives
-- the bytes of the first round that brought any, as a packet with the next number and their length.
pub next_kernel-IsTapped :
    (now : Instant) (rs : List Round) (k : KernelTap) → IsTapped rs k (next_kernel now rs k)
unfolding next_kernel
next_kernel-IsTapped now [] k =
    IsTapped-if [] k k.closed was_closed (waits k) inl λ open_. (open_, tt)
next_kernel-IsTapped now (r ∷ rs) k =
    let later = next_kernel-IsTapped now rs (behind_round r k) in
    IsTapped-if (r ∷ rs) k k.closed was_closed _ inl λ open_.
      IsTapped-if (r ∷ rs) k r.failed (next_kernel now rs (behind_round r k)) _
        (λ bad. IsTapped-later r rs k _ open_ (inl bad) later)
        λ went. received-IsTapped now r rs k r.bytes _ open_ went refl later

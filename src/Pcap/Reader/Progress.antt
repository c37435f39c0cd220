-- ===== src/Pcap/Reader/Progress.antt =====
-- The packets that the reader of internal/pcap/reader.go returns, and how far each round reads.
use flux_tap.Pcap.Reader.Bounds.{IsByte}
use flux_tap.Pcap.Reader.{Packet, Reader, next_ng, next_classic, next, all, after_next, max_block}
use flux_tap.Pcap.Stream.{Fault, eof, no_fuel, Result, ok, fail, Instant}
use flux_tap.Prelude.{
  ℕ, zero, suc, ◌+◌, ◌%◌, ◌^◌, ◌≤◌, ◌<◌, ◌≡◌, ◌≢◌, refl, sym, append-nil, append_assoc, ◌∙◌, subst,
  if-cases, inl, inr, Option, some, List, [], ◌∷◌, ◌++◌, arith, length, All,
}
use flux_tap.Pcap.Reader.Blocks.{IsSound, next_ng-IsSound, next_classic-IsSound}
use flux_tap.Pcap.Reader.Fuel.{IsFuelled, next-IsFuelled}

-- On a stream of bytes, a packet that `Next` returns is sound: its number follows the
-- count of the packets before it, and is the new count; it holds exactly `CapLen` bytes, at most
-- 16 MiB; and the stream left is shorter than before, and one of bytes.
pub next-IsSound :
    (fuel : ℕ) (now : Instant) (rd rd' : Reader) (p : Packet)
    → All IsByte rd.input
    → next fuel now rd ≡ ok (rd', p)
    → IsSound rd rd' p
unfolding next
next-IsSound fuel now rd rd' p h e =
    elim (if-cases rd.is_ng (next_ng fuel now rd) (next_classic rd) e) [
      | inl (_, ng) ↦ next_ng-IsSound fuel now rd rd' p h ng
      | inr (_, classic) ↦ next_classic-IsSound rd rd' p h classic
    ]

-- What `All` returns: packets numbered one after the other from the count of the reader, each with
-- as many bytes as it says, at most 16 MiB.
abbrev pub IsSequence : ℕ → List Packet → Type 0
IsSequence count [] = Unit
IsSequence count (p ∷ ps) =
    (p.no ≡ (count + 1) % 2 ^ 64)
    × (length p.contents ≡ p.cap_len)
    × (p.cap_len ≤ max_block)
    × IsSequence p.no ps

-- What `All` returns beyond the packets that it starts with.
abbrev pub AllReads : List Packet → ℕ → List Packet × Option Fault → Type 0
AllReads out count (ps, e) =
    (qs : List Packet) × (ps ≡ out ++ qs) × IsSequence count qs × (e ≢ some no_fuel)

after_next-AllReads :
    (out : List Packet) (rd : Reader) (loop : Packet → Reader → List Packet × Option Fault)
    (r : Result (Reader × Packet))
    → IsFuelled r
    → ((rd' : Reader) (p : Packet) → r ≡ ok (rd', p) → IsSound rd rd' p)
    → ((rd' : Reader) (p : Packet)
        → IsSound rd rd' p
        → AllReads (out ++ p ∷ []) rd'.count (loop p rd'))
    → AllReads out rd.count (after_next out loop r)
after_next-AllReads out rd loop (fail eof) f sound later = ([], sym (append-nil out), tt, λ e. cc e)
after_next-AllReads out rd loop (fail no_fuel) f sound later = absurd f
after_next-AllReads out rd loop (fail e) f sound later = ([], sym (append-nil out), tt, λ q. cc q)
after_next-AllReads out rd loop (ok (rd', p)) f sound later =
    let s : IsSound rd rd' p = sound rd' p refl in
    let (qs, split, sequence, stops) = later rd' p s in
    (
      p ∷ qs,
      split ∙ append_assoc out (p ∷ []) qs,
      (s.numbered, s.sized, s.bounded, subst (λ c. IsSequence c qs) s.counted sequence),
      stops,
    )

-- On a stream of bytes, with fuel above its length, `All` ends by itself, with the packets that it
-- was given and then packets numbered one after the other from the count of the reader, each
-- holding as many bytes as it says, at most 16 MiB.
pub all-AllReads :
    (fuel : ℕ) (clock : ℕ → Instant) (out : List Packet) (rd : Reader)
    → All IsByte rd.input
    → length rd.input < fuel
    → AllReads out rd.count (all fuel clock out rd)
unfolding all
all-AllReads zero clock out rd h f = absurd (omega arith)
all-AllReads (suc fuel) clock out rd h f =
    after_next-AllReads out rd _ (next (suc fuel) (clock rd.count) rd)
      (next-IsFuelled (suc fuel) (clock rd.count) rd h f)
      (λ rd' p. next-IsSound (suc fuel) (clock rd.count) rd rd' p h)
      (λ rd' p s. all-AllReads fuel clock (out ++ p ∷ []) rd' s.bytes (omega (arith, s.shorter)))

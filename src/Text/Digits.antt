-- ===== src/Text/Digits.antt =====
-- How many digits `%d` prints, at most.
use flux_tap.Prelude.Words.{Bytes}
use flux_tap.Prelude.{ℕ, zero, suc, ◌+◌, ◌/◌, ◌%◌, ◌≤◌, ◌∷◌, [], arith, length, ltb, if-both}
use flux_tap.Text.{decimal, digits_onto, digit}

length-digits_onto :
    (fuel base n : ℕ) (acc : Bytes) → length (digits_onto fuel base n acc) ≤ fuel + length acc
unfolding digits_onto
length-digits_onto zero base n acc = omega arith
length-digits_onto (suc fuel) base n acc =
    if-both (λ (s : Bytes). length s ≤ suc fuel + length acc) (ltb n base) _ _ (omega arith)
      (omega (arith, length-digits_onto fuel base (n / base) (digit (n % base) ∷ acc)))

pub length-decimal : (n : ℕ) → length (decimal n) ≤ n + 1
unfolding decimal
length-decimal n = omega (arith, length-digits_onto (suc n) 10 n [])

-- ===== src/Decode/Transport/Options.antt =====
-- On what `parseTCPOptions` of internal/decode/tcpudp.go panics.
use flux_tap.Decode.Transport.Header.{
  OptionStep, finished, more, option_text, option_step, after_option_step, options_loop,
  parse_tcp_options,
}
use flux_tap.Prelude.Panics.{◌>>=◌, Runs, panics, returns, Runs-bind, Runs-if, Runs-index, Runs-map}
use flux_tap.Prelude.Words.{Bytes, index, index_in_range, index_out_of_range}
use flux_tap.Prelude.{
  ℕ, zero, suc, ◌+◌, ◌≤◌, ◌<◌, ◌≡◌, ◌↔◌, refl, ◌||◌, Option, none, some, List, [], ◌∷◌, ◌++◌, arith,
  ltb, leb, tests, ◌==◌, length, dec_lt, ap, ◌∙◌, sym,
}
use flux_tap.Text.{text}

-- The options hold a window scale of length 2 at `i`, and nothing behind it.
pub record EndsInScale (opts : Bytes) (i : ℕ) : Type 0 where
  pub kind : index opts i ≡ some 3
  pub len : index opts (i + 1) ≡ some 2
  pub last : length opts ≡ i + 2

-- The walk over well-formed options from `i` comes to such an end.
pub data ReachesScale (opts : Bytes) : ℕ → Type 0 where
  here : {i : ℕ} → EndsInScale opts i → ReachesScale opts i
  skip_nop : {i : ℕ} → index opts i ≡ some 1 → ReachesScale opts (i + 1) → ReachesScale opts i
  skip :
      {i : ℕ} (kind l : ℕ)
      → index opts i ≡ some kind
      → 1 < kind
      → index opts (i + 1) ≡ some l
      → 1 < l
      → i + l ≤ length opts
      → ReachesScale opts (i + l)
      → ReachesScale opts i

abbrev StepOk : Bytes → ℕ → OptionStep → Type 0
StepOk opts i (finished parts) = Unit
StepOk opts i (more j parts) =
    (i < j) × (j ≤ length opts) × (ReachesScale opts j → ReachesScale opts i)

option_text-Runs :
    (opts : Bytes) (i kind l : ℕ)
    → index opts i ≡ some kind
    → index opts (i + 1) ≡ some l
    → 1 < l
    → i + l ≤ length opts
    → Runs (EndsInScale opts i) (λ (t : List Bytes). Unit {0}) (option_text opts i kind l)
unfolding option_text
option_text-Runs opts i kind l k m two fits =
    Runs-if (kind == 2) (λ _. returns _ tt)
      λ _.
        Runs-if (kind == 3)
          (λ three. elim (dec_lt (i + 2) (length opts)) [
            | yes p ↦
                Runs-bind _ (Runs-map (λ x. x) (λ _ _. tt) (Runs-index opts (i + 2) p))
                  λ s _. returns _ tt
            | no p ↦ rw (index_out_of_range opts (i + 2) (omega arith)) (
                panics (record {
                  kind = rw k (ap some (omega tests));
                  len = rw m (ap some (omega arith));
                  last = omega arith;
                }))
          ])
          λ _.
            Runs-if (kind == 4) (λ _. returns _ tt)
              λ _. Runs-if (kind == 8) (λ _. returns _ tt) λ _. returns _ tt

option_step-Runs :
    (opts : Bytes) (i : ℕ) (parts : List Bytes)
    → Runs (EndsInScale opts i) (StepOk opts i) (option_step opts i parts)
unfolding option_step
option_step-Runs opts i parts =
    Runs-if (ltb i (length opts))
      (λ inside. Runs-bind _ (read i (omega tests)) λ kind k.
        Runs-if (kind == 0) (λ _. returns _ tt)
          λ not_end.
            Runs-if (kind == 1)
              (λ one. returns _ (omega arith, omega tests, skip_nop (k ∙ ap some (omega tests))))
              λ not_nop.
                Runs-if (leb (length opts) (i + 1)) (λ _. returns _ tt)
                  λ two_left. Runs-bind _ (read (i + 1) (omega tests)) λ l m.
                    Runs-if (ltb l 2 || ltb (length opts) (i + l)) (λ _. returns _ tt)
                      λ fits.
                        let two : 1 < l = ground arith in
                        let in_range : i + l ≤ length opts = ground arith in
                        Runs-bind _ (option_text-Runs opts i kind l k m two in_range) λ shown _.
                          returns _
                            (omega arith, in_range, skip kind l k (ground arith) m two in_range))
      λ _. returns _ tt
  where
    read :
        (j : ℕ)
        → j < length opts
        → Runs (EndsInScale opts i) (λ (x : ℕ). index opts j ≡ some x) (index opts j)
    read j p = let (x, e) = index_in_range opts j p in rw e (returns x refl)

after_option_step-Runs :
    (opts : Bytes) (loop : ℕ → List Bytes → Option (List Bytes)) (i : ℕ) (s : OptionStep)
    → StepOk opts i s
    → ((j : ℕ) (parts : List Bytes)
        → i < j
        → j ≤ length opts
        → Runs (ReachesScale opts j) (λ (t : List Bytes). Unit {0}) (loop j parts))
    → Runs (ReachesScale opts i) (λ (t : List Bytes). Unit {0}) (after_option_step loop s)
after_option_step-Runs opts loop i (finished parts) h k = returns _ tt
after_option_step-Runs opts loop i (more j parts) h k = Runs-map h.2 (λ _ u. u) (k j parts h.0 h.1)

options_loop-Runs :
    (n : ℕ) (opts : Bytes) (i : ℕ) (parts : List Bytes)
    → i ≤ length opts
    → length opts < i + n
    → Runs (ReachesScale opts i) (λ (t : List Bytes). Unit {0}) (options_loop n opts i parts)
unfolding options_loop
options_loop-Runs zero opts i parts h f = absurd (omega arith)
options_loop-Runs (suc n) opts i parts h f =
    Runs-bind _ (Runs-map here (λ _ s. s) (option_step-Runs opts i parts)) λ s k.
      after_option_step-Runs opts (options_loop n opts) i s k
        λ j ps l m. options_loop-Runs n opts j ps m (omega arith)

pub parse_tcp_options-Runs :
    (opts : Bytes) → Runs (ReachesScale opts 0) (λ (t : Bytes). Unit {0}) (parse_tcp_options opts)
unfolding parse_tcp_options
parse_tcp_options-Runs opts =
    Runs-bind _ (options_loop-Runs (suc (length opts)) opts 0 [] (omega arith) (omega arith))
      λ p _. returns _ tt

index-some-lt : (opts : Bytes) (i x : ℕ) → index opts i ≡ some x → i < length opts
index-some-lt opts i x e = elim (dec_lt i (length opts)) [
  | yes p ↦ p
  | no p ↦ absurd (none≢some (sym (index_out_of_range opts i (omega arith)) ∙ e))
]
  where
    none≢some : (none ≡ some x) → ⊥
    none≢some q = cc

step-here :
    (opts : Bytes) (i : ℕ) (parts : List Bytes)
    → EndsInScale opts i
    → option_step opts i parts ≡ none
unfolding option_step option_text
step-here opts i parts h =
    ground (arith, h.kind, h.len, h.last, index_out_of_range opts (i + 2) (omega (arith, h.last)))

step_nop :
    (opts : Bytes) (i : ℕ) (parts : List Bytes)
    → index opts i ≡ some 1
    → option_step opts i parts ≡ some (more (i + 1) (parts ++ text "NOP" ∷ []))
unfolding option_step
step_nop opts i parts h = ground (arith, index-some-lt opts i 1 h)

step_option :
    (opts : Bytes) (i kind l : ℕ) (parts : List Bytes)
    → index opts i ≡ some kind
    → 1 < kind
    → index opts (i + 1) ≡ some l
    → 1 < l
    → i + l ≤ length opts
    → option_step opts i parts
      ≡ (option_text opts i kind l >>= λ shown. some (more (i + l) (parts ++ shown)))
unfolding option_step
step_option opts i kind l parts k big m two fits =
    ground (arith, index-some-lt opts i kind k, index-some-lt opts (i + 1) l m)

options_loop-panics :
    (n : ℕ) (opts : Bytes) (i : ℕ) (parts : List Bytes)
    → ReachesScale opts i
    → length opts < i + n
    → options_loop n opts i parts ≡ none
unfolding options_loop
options_loop-panics zero opts i parts (here h) f = absurd (omega (arith, h.last))
options_loop-panics zero opts i parts (skip_nop h r) f =
    absurd (omega (arith, index-some-lt opts i 1 h))
options_loop-panics zero opts i parts (skip kind l k big m two fits r) f = absurd (omega arith)
options_loop-panics (suc n) opts i parts (here h) f = rw (step-here opts i parts h)
options_loop-panics (suc n) opts i parts (skip_nop h r) f =
    rw (step_nop opts i parts h)
      (options_loop-panics n opts (i + 1) (parts ++ text "NOP" ∷ []) r (omega arith))
options_loop-panics (suc n) opts i parts (skip kind l k big m two fits r) f =
    rw (step_option opts i kind l parts k big m two fits)
      (elim (option_text opts i kind l)
        as (λ o.
          ((o >>= λ shown. some (more (i + l) (parts ++ shown))) >>= λ step.
          after_option_step (options_loop n opts) step)
          ≡ none) [
            | none ↦ refl
            | some shown ↦ options_loop-panics n opts (i + l) (parts ++ shown) r (omega arith)
          ])

options-panic :
    (opts : Bytes) {r : Option Bytes}
    → Runs (ReachesScale opts 0) (λ (t : Bytes). Unit {0}) r
    → r ≡ none
    → ReachesScale opts 0
options-panic opts (panics p) e = p
options-panic opts (returns t q) e = cc

parse_tcp_options-panics : (opts : Bytes) → ReachesScale opts 0 → parse_tcp_options opts ≡ none
unfolding parse_tcp_options
parse_tcp_options-panics opts r =
    rw (options_loop-panics (suc (length opts)) opts 0 [] r (omega arith))

-- The options of a TCP header stop the program with a panic exactly when the walk over them comes
-- to a window scale option of length 2 that ends them: its one byte is read from behind them.
-- On all others the loop ends.
pub parse_tcp_options-none_iff :
    (opts : Bytes) → (parse_tcp_options opts ≡ none) ↔ ReachesScale opts 0
parse_tcp_options-none_iff opts =
    (options-panic opts (parse_tcp_options-Runs opts), parse_tcp_options-panics opts)

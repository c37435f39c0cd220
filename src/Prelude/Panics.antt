-- ===== src/Prelude/Panics.antt =====
-- Code that can stop with a run-time panic: `none` is the panic. `Runs P Q m` says that `m` panics
-- only for the reason `P`, and otherwise returns a value with the property `Q`.
use mathlib.Core.Bool.{Bool, true, false}
use mathlib.Core.Option.{Option, none, some}
use mathlib.Core.Path.{◌≡◌, refl, subst}
use Prim.Native.Nat.{ℕ, ◌-◌, ◌≤◌, ◌<◌}
use flux_tap.Prelude.Lists.{length}
use flux_tap.Prelude.Order.{if◌then◌else◌, some-eq}
use flux_tap.Prelude.Words.{Bytes, index, slice, index_in_range, slice_in_range}

infixl 5 ◌>>=◌
abbrev pub ◌>>=◌ {ℓ κ} : {A : Type ℓ} {B : Type κ} → Option A → (A → Option B) → Option B
none >>= f = none
some a >>= f = f a

pub data Runs (P : Type 0) {A : Type 0} (Q : A → Type 0) : Option A → Type 0 where
  panics : P → Runs P Q none
  returns : (a : A) → Q a → Runs P Q (some a)

module _ {P : Type 0} {A B : Type 0} where
  pub Runs-bind :
      {Q : A → Type 0} {R : B → Type 0} {m : Option A} (f : A → Option B)
      → Runs P Q m
      → ((a : A) → Q a → Runs P R (f a))
      → Runs P R (m >>= f)
  Runs-bind f (panics p) k = panics p
  Runs-bind f (returns a q) k = k a q

module _ {P : Type 0} {B : Type 0} {R : B → Type 0} where
  pub Runs-if :
      (b : Bool) {x y : Option B}
      → (b ≡ true → Runs P R x)
      → (b ≡ false → Runs P R y)
      → Runs P R (if b then x else y)
  Runs-if true h k = h refl
  Runs-if false h k = k refl

-- Reads in range do not panic.
pub Runs-index :
    {P : Type 0} (b : Bytes) (i : ℕ) → i < length b → Runs P (λ (x : ℕ). Unit {0}) (index b i)
Runs-index b i h = let (x, e) = index_in_range b i h in rw e (returns x tt)

-- A read in range, with what it reads.
pub Runs-read :
    {P : Type 0} (b : Bytes) (i : ℕ)
    → i < length b
    → Runs P (λ (x : ℕ). index b i ≡ some x) (index b i)
Runs-read b i h = let (x, e) = index_in_range b i h in rw e (returns x refl)

pub Runs-slice :
    {P : Type 0} (b : Bytes) (lo hi : ℕ)
    → lo ≤ hi
    → hi ≤ length b
    → Runs P (λ (s : Bytes). length s ≡ hi - lo) (slice b lo hi)
Runs-slice b lo hi h k = let (s, e, l) = slice_in_range b lo hi h k in rw e (returns s l)

-- Another reason and a weaker property.
pub Runs-map :
    {P P' : Type 0} {A : Type 0} {Q R : A → Type 0} {m : Option A}
    → (P → P')
    → ((a : A) → Q a → R a)
    → Runs P Q m
    → Runs P' R m
Runs-map f g (panics p) = panics (f p)
Runs-map f g (returns a q) = returns a (g a q)

-- With no reason to panic there is a value.
pub Runs-value :
    {A : Type 0} {Q : A → Type 0} {m : Option A} → Runs ⊥ Q m → (a : A) × (m ≡ some a) × Q a
Runs-value (panics p) = absurd p
Runs-value (returns a q) = (a, refl, q)

-- What a value that was returned has.
pub Runs-eq-some :
    {P : Type 0} {A : Type 0} {Q : A → Type 0} {m : Option A} {a : A}
    → Runs P Q m
    → m ≡ some a
    → Q a
Runs-eq-some (panics p) e = cc
Runs-eq-some {Q = Q} (returns a q) e = subst Q (some-eq e) q

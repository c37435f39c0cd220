-- ===== src/Ranking/Sorted.antt =====
-- The selection sort of the rankings: its result, and that this does not depend on the order of
-- the elements, which is that of a loop over a Go map.
use flux_tap.Prelude.{
  some-eq, ltb→lt, ltb-false, leb, ◌==◌, ◌||◌, append-nil, length-take, take, drop, ℕ, zero, suc,
  ◌+◌, ◌≤◌, ◌≡◌, refl, sym, ◌∙◌, ap, ap₂, subst, some, List, [], ◌∷◌, ◌++◌, map, arith, ltb,
  if◌then◌else◌, length, get_elem?, ◌⊎◌, inl, inr, Bool-cases,
}
use flux_tap.Ranking.{max_from, exchange, select, rank, cut_to}
use mathlib.Core.List.{Mem, Perm, forall_mem-cons, not-mem-nil, mem-cons_self, mem-cons_of_mem}
use mathlib.Core.List.Perm
use native.Mathlib.Bridge.{le_prop}

-- No element of the list is larger.
abbrev pub IsMax : {A : Type 0} → (A → ℕ) → A → List A → Type 0
IsMax {A} size m xs = (y : A) → Mem y xs → size y ≤ size m

-- No element comes before a larger one.
abbrev pub IsDescending : {A : Type 0} → (A → ℕ) → List A → Type 0
IsDescending size [] = Unit
IsDescending size (x ∷ xs) = IsMax size x xs × IsDescending size xs

module _ {A : Type 0} (size : A → ℕ) where
  IsMax-nil : (m : A) → IsMax size m []
  IsMax-nil m y h = absurd (not-mem-nil h)

  IsMax-cons : {m y : A} {ys : List A} → size y ≤ size m → IsMax size m ys → IsMax size m (y ∷ ys)
  IsMax-cons h k = (forall_mem-cons (λ y. le_prop)).1 (h, k)

  pub IsMax-perm : {m : A} {xs ys : List A} → Perm xs ys → IsMax size m xs → IsMax size m ys
  IsMax-perm p h y here = h y ((Perm.mem_iff p).1 here)

  -- The inner loop ends with the index it had, if nothing is larger, or with that of a largest.
  max_from-cases :
      (max : ℕ) (m : A) (j : ℕ) (ys : List A)
      → (max_from size max m j ys ≡ max) × IsMax size m ys
        ⊎ ((k : ℕ) × (w : A) × (max_from size max m j ys ≡ j + k)
            × (get_elem? ys k ≡ some w)
            × (size m ≤ size w)
            × IsMax size w ys)
  unfolding max_from
  max_from-cases max m j [] = inl (refl, IsMax-nil m)
  max_from-cases max m j (y ∷ ys) = elim (Bool-cases (ltb (size m) (size y))) [
    | inl larger ↦ rw larger (elim (max_from-cases j y (j + 1) ys) [
      | inl (e, h) ↦ inr (0, y, omega (arith, e), refl, ground arith, IsMax-cons (omega arith) h)
      | inr (k, w, e, at, h, top) ↦
          inr
            (suc k, w, omega (arith, e), at, omega (arith, h, ltb→lt _ _ larger), IsMax-cons h top)
    ])
    | inr other ↦ rw other (elim (max_from-cases max m (j + 1) ys) [
      | inl (e, h) ↦ inl (e, IsMax-cons (ltb-false _ _ other) h)
      | inr (k, w, e, at, h, top) ↦ inr (
        suc k,
        w,
        omega (arith, e),
        at,
        h,
        IsMax-cons (omega (arith, h, ltb-false _ _ other)) top,
      )
    ])
  ]

  exchange-perm :
      (k : ℕ) (x w : A) (ys : List A)
      → get_elem? ys k ≡ some w
      → (zs : List A) × (exchange (suc k) x ys ≡ (w, zs))
        × Perm (w ∷ zs) (x ∷ ys)
        × (length zs ≡ length ys)
  unfolding exchange
  exchange-perm k x w [] at = absurd (ground arith)
  exchange-perm zero x w (y ∷ ys) at = (
    x ∷ ys,
    ap (λ v. (v, x ∷ ys)) (some-eq at),
    subst (λ v. Perm (v ∷ x ∷ ys) (x ∷ y ∷ ys)) (some-eq at) (Perm.swap x y ys),
    refl,
  )
  exchange-perm (suc k) x w (y ∷ ys) at =
      let (zs, e, p, l) = exchange-perm k x w ys at in
      (
        y ∷ zs,
        rw e refl,
        Perm.trans (Perm.swap y w zs) (Perm.trans (Perm.cons y p) (Perm.swap x y ys)),
        ap suc l,
      )

  as_suc : {n k : ℕ} → n ≡ 1 + k → n ≡ suc k
  as_suc e = omega (arith, e)

  -- One round puts a largest element first.
  round :
      (x : A) (xs : List A)
      → (m : A) × (rest : List A) × (exchange (max_from size 0 x 1 xs) x xs ≡ (m, rest))
        × Perm (m ∷ rest) (x ∷ xs)
        × IsMax size m rest
        × (length rest ≡ length xs)
  unfolding exchange
  round x xs = elim (max_from-cases 0 x 1 xs) [
    | inl (e, h) ↦ (x, xs, rw e refl, Perm.rfl, h, refl)
    | inr (k, w, e, at, h, top) ↦
        let (zs, made, p, l) = exchange-perm k x w xs at in
        let rest_max = IsMax-perm (Perm.symm p) (IsMax-cons h top) in
        (w, zs, rw (as_suc e) made, p, λ y here. rest_max y (mem-cons_of_mem w here), l)
  ]

  -- Enough rounds sort.
  select-IsDescending :
      (rounds : ℕ) (xs : List A)
      → length xs ≤ rounds
      → Perm (select size rounds xs) xs × IsDescending size (select size rounds xs)
  unfolding select
  select-IsDescending zero [] h = (Perm.rfl, tt)
  select-IsDescending zero (x ∷ xs) h = absurd (omega arith)
  select-IsDescending (suc rounds) [] h = (Perm.rfl, tt)
  select-IsDescending (suc rounds) (x ∷ xs) h =
      let (m, rest, e, p, top, l) = round x xs in
      let (q, sorted) = select-IsDescending rounds rest (omega (arith, h, l)) in
      rw e (Perm.trans (Perm.cons m q) p, (IsMax-perm (Perm.symm q) top, sorted))

  rank-perm : (xs : List A) → Perm (rank size xs) xs
  rank-perm xs = (select-IsDescending (length xs) xs (omega arith)).0

  rank-IsDescending : (xs : List A) → IsDescending size (rank size xs)
  rank-IsDescending xs = (select-IsDescending (length xs) xs (omega arith)).1

  length-select : (rounds : ℕ) (xs : List A) → length (select size rounds xs) ≡ length xs
  unfolding select
  length-select zero xs = refl
  length-select (suc rounds) [] = refl
  length-select (suc rounds) (x ∷ xs) =
      let (m, rest, e, p, top, l) = round x xs in rw e (omega (arith, length-select rounds rest, l))

  length-rank : (xs : List A) → length (rank size xs) ≡ length xs
  length-rank xs = length-select (length xs) xs

  IsMax-map : (m : A) (xs : List A) → IsMax size m xs → IsMax (λ n. n) (size m) (map size xs)
  IsMax-map m [] h = λ n here. absurd (not-mem-nil here)
  IsMax-map m (x ∷ xs) h =
      (forall_mem-cons (λ y. le_prop)).1
        (h x mem-cons_self, IsMax-map m xs (λ y here. h y (mem-cons_of_mem x here)))

  IsDescending-map : (xs : List A) → IsDescending size xs → IsDescending (λ n. n) (map size xs)
  IsDescending-map [] h = tt
  IsDescending-map (x ∷ xs) (h, hs) = (IsMax-map x xs h, IsDescending-map xs hs)

-- What is left behind the cut.
abbrev pub left_over : {A : Type 0} → ℕ → List A → List A
left_over zero xs = []
left_over (suc n) xs = if ltb (suc n) (length xs) then drop (suc n) xs else []

take-drop : {A : Type 0} (n : ℕ) (xs : List A) → take n xs ++ drop n xs ≡ xs
take-drop zero xs = refl
take-drop (suc n) [] = refl
take-drop (suc n) (x ∷ xs) = ap (◌∷◌ x) (take-drop n xs)

pub cut_to-append : {A : Type 0} (n : ℕ) (xs : List A) → cut_to n xs ++ left_over n xs ≡ xs
cut_to-append zero xs = append-nil xs
cut_to-append (suc n) xs = elim (Bool-cases (ltb (suc n) (length xs))) [
  | inl long ↦ rw long (take-drop (suc n) xs)
  | inr short ↦ rw short (append-nil xs)
]

pub length-cut_to :
    {A : Type 0} (n : ℕ) (xs : List A)
    → length (cut_to n xs) ≡ (if n == 0 || leb (length xs) n then length xs else n)
length-cut_to zero xs = refl
length-cut_to (suc n) xs = ground (arith, length-take (suc n) xs)

le_antisymm : {m n : ℕ} → m ≤ n → n ≤ m → m ≡ n
le_antisymm h k = omega arith

-- A list of numbers in descending order is the only one with its elements.
head-le :
    {m n : ℕ} {ms ns : List ℕ} → IsDescending (λ k. k) (m ∷ ms) → Perm (m ∷ ms) (n ∷ ns) → n ≤ m
head-le {m} {n} (top, h) p =
    IsMax-perm (λ k. k) p (IsMax-cons (λ k. k) (omega arith) top) n mem-cons_self

IsDescending-unique :
    (ms ns : List ℕ) → IsDescending (λ k. k) ms → IsDescending (λ k. k) ns → Perm ms ns → ms ≡ ns
IsDescending-unique [] ns h k p = Perm.nil-eq p
IsDescending-unique (m ∷ ms) [] h k p = Perm.eq-nil p
IsDescending-unique (m ∷ ms) (n ∷ ns) h k p =
    let same = le_antisymm (head-le k (Perm.symm p)) (head-le h p) in
    ap₂ ◌∷◌ same (
      IsDescending-unique ms ns h.1 k.1
        (Perm.cons_inv (subst (λ i. Perm (m ∷ ms) (i ∷ ns)) (sym same) p)))

-- The numbers of a ranking do not depend on the order of the elements.
pub rank-sizes :
    {A : Type 0} (size : A → ℕ) (xs ys : List A)
    → Perm xs ys
    → map size (rank size xs) ≡ map size (rank size ys)
rank-sizes size xs ys p =
    IsDescending-unique (map size (rank size xs)) (map size (rank size ys))
      (IsDescending-map size (rank size xs) (rank-IsDescending size xs))
      (IsDescending-map size (rank size ys) (rank-IsDescending size ys))
      (Perm.map size
        (Perm.trans (rank-perm size xs) (Perm.trans p (Perm.symm (rank-perm size ys)))))

map-take :
    {A : Type 0} (size : A → ℕ) (n : ℕ) (xs : List A) → map size (take n xs) ≡ take n (map size xs)
map-take size zero xs = refl
map-take size (suc n) [] = refl
map-take size (suc n) (x ∷ xs) = ap (◌∷◌ (size x)) (map-take size n xs)

length-map : {A : Type 0} (size : A → ℕ) (xs : List A) → length (map size xs) ≡ length xs
length-map size [] = refl
length-map size (x ∷ xs) = ap suc (length-map size xs)

map-cut_to :
    {A : Type 0} (size : A → ℕ) (n : ℕ) (xs : List A)
    → map size (cut_to n xs) ≡ cut_to n (map size xs)
map-cut_to size zero xs = refl
map-cut_to size (suc n) xs = elim (Bool-cases (ltb (suc n) (length xs))) [
  | inl long ↦ rw (length-map size xs, long) (map-take size (suc n) xs)
  | inr short ↦ rw (length-map size xs, short) refl
]

-- The first `n` of a ranking, what they leave, and how many they are.
pub record IsTop {A : Type 0} (size : A → ℕ) (n : ℕ) (all top : List A) : Type 0 where
  pub left : List A
  pub perm : Perm (top ++ left) all
  pub descending : IsDescending size (top ++ left)
  pub counted : length top ≡ (if n == 0 || leb (length all) n then length all else n)

module _ {A : Type 0} (size : A → ℕ) (n : ℕ) where
  pub cut_to-IsTop : (all : List A) → IsTop size n all (cut_to n (rank size all))
  cut_to-IsTop all =
      let ranked = rank size all in
      let whole = cut_to-append n ranked in
      record {
        left = left_over n ranked;
        perm = subst (λ xs. Perm xs all) (sym whole) (rank-perm size all);
        descending = subst (IsDescending size) (sym whole) (rank-IsDescending size all);
        counted =
            subst (λ l. length (cut_to n ranked) ≡ (if n == 0 || leb l n then l else n))
              (length-rank size all) (length-cut_to n ranked);
      }

  pub cut_to-sizes :
      (all again : List A)
      → Perm all again
      → map size (cut_to n (rank size all)) ≡ map size (cut_to n (rank size again))
  cut_to-sizes all again p =
      map-cut_to size n (rank size all)
      ∙ ap (cut_to n) (rank-sizes size all again p)
      ∙ sym (map-cut_to size n (rank size again))

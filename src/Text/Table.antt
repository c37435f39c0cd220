-- ===== src/Text/Table.antt =====
-- A Go map with the list of its keys, oldest first, and a limit: the tables of conversations and of
-- sessions.
use flux_tap.Prelude.Words.{Bytes}
use flux_tap.Prelude.{
  ℕ, ◌≤◌, ◌<◌, ◌≡◌, refl, sym, ap, subst, ◌∙◌, true, false, none, some, List, [], ◌∷◌, ◌++◌, arith,
  leb, if◌then◌else◌, length, inl, inr, Bool-cases,
}
use flux_tap.Text.Dict.{
  Dict, lookup, insert, delete, keys, keys-insert, length-insert, lookup-insert,
}
use flux_tap.Text.{text_eq, text_eq_iff}

module _ {V : Type 0} where
  -- No key stands twice.
  abbrev pub IsDistinct : Dict V → Type 0
  IsDistinct [] = Unit
  IsDistinct ((k, v) ∷ m) = (lookup k m ≡ none) × IsDistinct m

  pub record IsTable (m : Dict V) (order : List Bytes) (limit : ℕ) : Type 0 where
    pub ordered : keys m ≡ order
    pub distinct : IsDistinct m
    pub bounded : length m ≤ limit
    pub positive : 0 < limit

  lookup-insert-none :
      (k j : Bytes) (v : V) (m : Dict V)
      → lookup j m ≡ none
      → text_eq k j ≡ false
      → lookup j (insert k v m) ≡ none
  lookup-insert-none k j v m h e = ground (arith, lookup-insert k j v m)

  insert-IsDistinct : (k : Bytes) (v : V) (m : Dict V) → IsDistinct m → IsDistinct (insert k v m)
  unfolding insert lookup
  insert-IsDistinct k v [] h = (refl, tt)
  insert-IsDistinct k v ((j, w) ∷ m) (h, r) = elim (Bool-cases (text_eq j k)) [
    | inl same ↦ rw same (h, r)
    | inr other ↦ rw other (
      lookup-insert-none k j v m h (ground (arith, text_eq_iff j k, text_eq_iff k j)),
      insert-IsDistinct k v m r,
    )
  ]

  pub empty-IsTable : (limit : ℕ) → 0 < limit → IsTable [] [] limit
  empty-IsTable limit p = record {
    ordered = refl;
    distinct = tt;
    bounded = omega arith;
    positive = p;
  }

  -- A known key keeps its place.
  pub known-IsTable :
      (k : Bytes) (v w : V) (m : Dict V) {order : List Bytes} {limit : ℕ}
      → lookup k m ≡ some v
      → IsTable m order limit
      → IsTable (insert k w m) order limit
  known-IsTable k v w m e t = record {
    ordered = ground (arith, keys-insert k w m, t.ordered);
    distinct = insert-IsDistinct k w m t.distinct;
    bounded = ground (arith, length-insert k w m, t.bounded);
    positive = t.positive;
  }

  -- A new key goes last, where there is room.
  pub new-IsTable :
      (k : Bytes) (v : V) (m : Dict V) {order : List Bytes} {limit : ℕ}
      → lookup k m ≡ none
      → length m < limit
      → IsTable m order limit
      → IsTable (insert k v m) (order ++ k ∷ []) limit
  new-IsTable k v m e room t = record {
    ordered = ground (arith, keys-insert k v m, t.ordered);
    distinct = insert-IsDistinct k v m t.distinct;
    bounded = ground (arith, length-insert k v m, room);
    positive = t.positive;
  }

  -- A full table has an oldest key, and room without it.
  pub oldest-IsTable :
      (m : Dict V) (order : List Bytes) (limit : ℕ)
      → IsTable m order limit
      → leb limit (length m) ≡ true
      → (old : Bytes) × (rest : List Bytes) × (order ≡ old ∷ rest)
        × IsTable (delete old m) rest limit
        × (length (delete old m) < limit)
        × ((j : Bytes) → lookup j (delete old m) ≡ (if text_eq old j then none else lookup j m))
  unfolding delete lookup
  oldest-IsTable [] order limit t full = absurd (ground (arith, t.positive))
  oldest-IsTable ((k, v) ∷ m) [] limit t full = absurd (list_ne t.ordered)
    where
      list_ne : (k ∷ keys m) ≡ [] → ⊥
      list_ne e = cc
  oldest-IsTable ((k, v) ∷ m) (old ∷ rest) limit t full =
      let first : k ≡ old = cc (t.ordered) in
      let tail : delete old ((k, v) ∷ m) ≡ m = rw ((text_eq_iff k old).1 first) refl in
      (
        old,
        rest,
        refl,
        subst (λ d. IsTable d rest limit) (sym tail)
            (record {
              ordered = cc (t.ordered);
              distinct = t.distinct.1;
              bounded = omega (arith, t.bounded);
              positive = t.positive;
            }),
        subst (λ d. length d < limit) (sym tail) (omega (arith, t.bounded)),
        λ j.
            ap (lookup j) tail
            ∙ ground
                (arith, t.distinct, text_eq_iff k j, text_eq_iff old j, text_eq_iff k old, first),
      )

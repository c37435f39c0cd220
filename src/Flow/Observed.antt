-- ===== src/Flow/Observed.antt =====
-- What `Observe` of internal/flow/tracker.go changes in the table, and the flags that it merges.
use flux_tap.Decode.Frame.{Frame}
use flux_tap.Flow.Table.{IsValid, is_first, make_room-HasRoom}
use flux_tap.Flow.{
  Conversation, Tracker, open_conversation, count_frame, make_room, observe, is_ignored, is_part,
  set_names, split_flags, merge_flags, flag_order,
}
use flux_tap.Prelude.Words.{Bytes}
use flux_tap.Prelude.{
  ◌≡◌, refl, sym, subst, ◌∙◌, some-eq, Bool, true, false, ◌&&◌, ◌||◌, Option, none, some, List, [],
  ◌∷◌, ◌++◌, arith, leb, if◌then◌else◌, length, inl, inr, Option-cases,
}
use flux_tap.Text.Dict.{lookup, lookup-insert}
use flux_tap.Text.{text_eq}

-- The conversation that the frame belongs to, or a new one.
abbrev pub current : Tracker → Frame → Conversation
current t f = elim (lookup f.flow_key t.flows) [ none ↦ open_conversation f | some c ↦ c ]

abbrev is_new : Option Conversation → Bool
is_new none = true
is_new (some c) = false

-- The key that gives way: the first of the order, if the frame opens a flow in a full table.
abbrev pub is_evicted : Tracker → Frame → Bytes → Bool
is_evicted t f j =
    is_new (lookup f.flow_key t.flows) && (leb t.limit (length t.flows) && is_first t.order j)

make_room-lookup :
    (t t' : Tracker) (j : Bytes)
    → IsValid t
    → make_room t ≡ some t'
    → lookup j t'.flows
      ≡ (if leb t.limit (length t.flows) && is_first t.order j then none else lookup j t.flows)
make_room-lookup t t' j v e =
    let (r, made, room) = make_room-HasRoom t v in
    subst
      (λ s.
        lookup j s.flows
        ≡ (if leb t.limit (length t.flows) && is_first t.order j then none else lookup j t.flows))
      (some-eq (sym made ∙ e)) (room.found j)

-- On a valid table, a frame that is not ignored leaves its conversation counted once more (a new
-- one if its key was not there), takes off the oldest conversation exactly if the frame opens a
-- flow in a full table, and changes no other.
pub observe-lookup :
    (t t' : Tracker) (f : Frame) (j : Bytes)
    → IsValid t
    → is_ignored f ≡ false
    → observe t f ≡ some t'
    → lookup j t'.flows ≡ (
        if text_eq f.flow_key j
        then some (count_frame f (current t f))
        else if is_evicted t f j
        then none
        else lookup j t.flows)
unfolding observe
observe-lookup t t' f j v seen e = elim (Option-cases (lookup f.flow_key t.flows)) [
  | inr (c, known) ↦ ground (arith, lookup-insert f.flow_key j (count_frame f c) t.flows)
  | inl unknown ↦ elim (Option-cases (make_room t)) [
    | inl stuck ↦ ground arith
    | inr (r, made) ↦ ground (
      arith,
      make_room-lookup t r j v made,
      lookup-insert f.flow_key j (count_frame f (open_conversation f)) r.flows,
    )
  ]
]

is_part-append :
    (n : Bytes) (xs ys : List Bytes) → is_part n (xs ++ ys) ≡ (is_part n xs || is_part n ys)
unfolding is_part
is_part-append n [] ys = refl
is_part-append n (x ∷ xs) ys = ground (arith, is_part-append n xs ys)

set_names_comm : (xs ys ns : List Bytes) → set_names (xs ++ ys) ns ≡ set_names (ys ++ xs) ns
unfolding set_names
set_names_comm xs ys [] = refl
set_names_comm xs ys (n ∷ ns) =
    ground (arith, is_part-append n xs ys, is_part-append n ys xs, set_names_comm xs ys ns)

-- The merged flags of a conversation do not depend on which frame came first.
pub merge_flags_comm : (a b : Bytes) → merge_flags a b ≡ merge_flags b a
unfolding merge_flags
merge_flags_comm a b = rw (set_names_comm (split_flags a) (split_flags b) flag_order)

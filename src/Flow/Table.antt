-- ===== src/Flow/Table.antt =====
-- The invariant of the table of internal/flow/tracker.go: its limit, its order and its keys.
use flux_tap.Decode.Frame.{Frame}
use flux_tap.Flow.{
  Tracker, new_tracker, open_conversation, count_frame, make_room, observe, is_ignored,
}
use flux_tap.Prelude.Words.{Bytes}
use flux_tap.Prelude.{
  ◌<◌, ℕ, ◌≡◌, refl, Bool, false, ◌&&◌, none, some, List, [], ◌∷◌, ◌++◌, arith, leb, if◌then◌else◌,
  length, inl, inr, Bool-cases, Option-cases,
}
use flux_tap.Text.Dict.{lookup, insert, delete}
use flux_tap.Text.Table.{IsTable, empty-IsTable, known-IsTable, new-IsTable, oldest-IsTable}
use flux_tap.Text.{text_eq}

abbrev pub IsValid : Tracker → Type 0
IsValid t = IsTable t.flows t.order t.limit

pub new_tracker-IsValid : (limit : ℕ) → IsValid (new_tracker limit)
unfolding new_tracker
new_tracker-IsValid limit = empty-IsTable _ (ground arith)

abbrev pub is_first : List Bytes → Bytes → Bool
is_first [] j = false
is_first (k ∷ ks) j = text_eq k j

-- What `make_room` leaves: a table with room, without the oldest key if it was full.
pub record HasRoom (t t' : Tracker) : Type 0 where
  pub valid : IsValid t'
  pub room : length t'.flows < t'.limit
  pub same_limit : t'.limit ≡ t.limit
  pub found :
      (j : Bytes)
      → lookup j t'.flows
        ≡ (if leb t.limit (length t.flows) && is_first t.order j then none else lookup j t.flows)

pub make_room-HasRoom :
    (t : Tracker) → IsValid t → (t' : Tracker) × (make_room t ≡ some t') × HasRoom t t'
unfolding make_room
make_room-HasRoom t v = elim (Bool-cases (leb t.limit (length t.flows))) [
  | inl full ↦
      let (old, rest, e, table, room, found) = oldest-IsTable t.flows t.order t.limit v full in
      (
        record t { flows = delete old t.flows; order = rest },
        rw (full, e) refl,
        record {
          valid = table;
          room = room;
          same_limit = refl;
          found = λ j. rw (full, e) (found j);
        },
      )
  | inr free ↦ (
    t,
    rw free refl,
    record { valid = v; room = ground arith; same_limit = refl; found = λ j. rw free refl },
  )
]

room_for :
    (t t' : Tracker) (j : Bytes) → HasRoom t t' → lookup j t.flows ≡ none → lookup j t'.flows ≡ none
room_for t t' j r e = ground (arith, r.found j)

-- Observing a frame never panics on a valid table, and leaves a valid one with the same limit: the
-- order lists exactly the keys of the map, none twice, and there are at most `limit` of them.
pub observe-IsValid :
    (t : Tracker) (f : Frame)
    → IsValid t
    → (t' : Tracker) × (observe t f ≡ some t') × IsValid t' × (t'.limit ≡ t.limit)
unfolding observe
observe-IsValid t f v = elim (Bool-cases (is_ignored f)) [
  | inl ignored ↦ (t, rw ignored, v, refl)
  | inr seen ↦ elim (Option-cases (lookup f.flow_key t.flows)) [
    | inr (c, known) ↦ (
      record t { flows = insert f.flow_key (count_frame f c) t.flows },
      rw (seen, known),
      known-IsTable f.flow_key c (count_frame f c) t.flows known v,
      refl,
    )
    | inl unknown ↦
        let (t', made, r) = make_room-HasRoom t v in
        let d = count_frame f (open_conversation f) in
        (
          record t' { flows = insert f.flow_key d t'.flows; order = t'.order ++ f.flow_key ∷ [] },
          rw (seen, unknown, made),
          new-IsTable f.flow_key d t'.flows (room_for t t' f.flow_key r unknown) r.room r.valid,
          r.same_limit,
        )
  ]
]

-- ===== src/Session/Table.antt =====
-- The table of sessions of internal/session/player.go: its invariant, what `Observe` changes in it,
-- and the ranking that `List` gives.
use flux_tap.Decode.Frame.{Frame}
use flux_tap.Prelude.Words.{Bytes}
use flux_tap.Prelude.{
  ℕ, ◌≤◌, ◌<◌, ◌≡◌, refl, subst, sym, ◌∙◌, some-eq, Bool, true, false, ◌&&◌, Option, none, some,
  List, [], ◌∷◌, ◌++◌, arith, leb, ltb, if◌then◌else◌, length, length-append, inl, inr, Bool-cases,
  Option-cases, if-cases,
}
use flux_tap.Ranking.Sorted.{IsTop, cut_to-IsTop}
use flux_tap.Session.{
  Event, Session, Player, new_player, open_session, add_event, count_frame, make_room, is_ignored,
  observe, list,
}
use flux_tap.Text.Dict.{lookup, insert, delete, lookup-insert}
use flux_tap.Text.Table.{IsTable, empty-IsTable, known-IsTable, new-IsTable, oldest-IsTable}
use flux_tap.Text.{text_eq}

-- A session with at most so many events and frame numbers.
pub record IsShort (max_ev max_fr : ℕ) (s : Session) : Type 0 where
  pub few_events : length s.events ≤ max_ev
  pub few_frames : length s.frame_nos ≤ max_fr

-- The table is one with its keys in order, and every session that it finds is short.
pub record IsPlayable (p : Player) : Type 0 where
  pub table : IsTable p.by_key p.order p.limit
  pub short : (k : Bytes) (s : Session) → lookup k p.by_key ≡ some s → IsShort p.max_ev p.max_fr s

pub new_player-IsPlayable : (limit : ℕ) → IsPlayable (new_player limit)
unfolding new_player lookup
new_player-IsPlayable limit = record {
  table = empty-IsTable _ (ground arith);
  short = λ k s e. absurd (ground arith);
}

open_session-IsShort : (max_ev max_fr : ℕ) (f : Frame) → IsShort max_ev max_fr (open_session f)
unfolding open_session
open_session-IsShort max_ev max_fr f = record { few_events = omega arith; few_frames = omega arith }

length-add :
    (b : Bool) (n : ℕ) (es : List Event) (e : Event)
    → length es ≤ n
    → length (if b && ltb (length es) n then es ++ e ∷ [] else es) ≤ n
length-add b n es e h = ground (arith, length-append es (e ∷ []))

count_frame-IsShort :
    (max_ev max_fr : ℕ) (f : Frame) (s : Session)
    → IsShort max_ev max_fr s
    → IsShort max_ev max_fr (count_frame max_ev max_fr f s)
unfolding count_frame
count_frame-IsShort max_ev max_fr f s h = record {
  few_events = unfold add_event in length-add _ max_ev s.events _ h.few_events;
  few_frames = ground (arith, h.few_frames, length-append s.frame_nos (f.number ∷ []));
}

abbrev is_new : Option Session → Bool
is_new none = true
is_new (some s) = false

abbrev is_first : List Bytes → Bytes → Bool
is_first [] j = false
is_first (k ∷ ks) j = text_eq k j

-- The session that the frame belongs to, or a new one.
abbrev pub current : Player → Frame → Session
current p f = elim (lookup f.flow_key p.by_key) [ none ↦ open_session f | some s ↦ s ]

-- The key that gives way: the first of the order, if the frame opens a session in a full table.
abbrev pub is_evicted : Player → Frame → Bytes → Bool
is_evicted p f j =
    is_new (lookup f.flow_key p.by_key) && (leb p.limit (length p.by_key) && is_first p.order j)

pub record HasRoom (p p' : Player) : Type 0 where
  pub table : IsTable p'.by_key p'.order p'.limit
  pub room : length p'.by_key < p'.limit
  pub same : (p'.limit ≡ p.limit) × (p'.max_ev ≡ p.max_ev) × (p'.max_fr ≡ p.max_fr)
  pub found :
      (j : Bytes)
      → lookup j p'.by_key
        ≡ (if leb p.limit (length p.by_key) && is_first p.order j then none else lookup j p.by_key)

make_room-HasRoom :
    (p : Player)
    → IsTable p.by_key p.order p.limit
    → (p' : Player) × (make_room p ≡ some p') × HasRoom p p'
unfolding make_room
make_room-HasRoom p v = elim (Bool-cases (leb p.limit (length p.by_key))) [
  | inl full ↦
      let (old, rest, e, table, room, found) = oldest-IsTable p.by_key p.order p.limit v full in
      (
        record p { by_key = delete old p.by_key; order = rest },
        rw (full, e) refl,
        record {
          table = table;
          room = room;
          same = (refl, refl, refl);
          found = λ j. rw (full, e) (found j);
        },
      )
  | inr free ↦ (
    p,
    rw free refl,
    record { table = v; room = ground arith; same = (refl, refl, refl); found = λ j. rw free refl },
  )
]

-- What `Observe` leaves: the same limits, and what every lookup finds.
pub record IsObserved (p : Player) (f : Frame) (p' : Player) : Type 0 where
  pub table : IsTable p'.by_key p'.order p'.limit
  pub same : (p'.limit ≡ p.limit) × (p'.max_ev ≡ p.max_ev) × (p'.max_fr ≡ p.max_fr)
  pub found :
      (j : Bytes)
      → lookup j p'.by_key ≡ (
          if text_eq f.flow_key j
          then some (count_frame p.max_ev p.max_fr f (current p f))
          else if is_evicted p f j
          then none
          else lookup j p.by_key)

-- On a table whose order lists exactly its keys, none twice, and at most `limit` of them, a frame
-- that is not ignored is observed without a panic and leaves such a table with the same limits. Its
-- session is counted once more (a new one if its key was not there), the oldest session is taken
-- off exactly if the frame opens one in a full table, and no other is changed.
pub observe-IsObserved :
    (p : Player) (f : Frame)
    → IsTable p.by_key p.order p.limit
    → is_ignored f ≡ false
    → (p' : Player) × (observe p f ≡ some p') × IsObserved p f p'
unfolding observe
observe-IsObserved p f v seen = elim (Option-cases (lookup f.flow_key p.by_key)) [
  | inr (s, known) ↦
      let s' = count_frame p.max_ev p.max_fr f s in
      (
        record p { by_key = insert f.flow_key s' p.by_key },
        rw (seen, known) refl,
        record {
          table = known-IsTable f.flow_key s s' p.by_key known v;
          same = (refl, refl, refl);
          found = λ j. ground (arith, lookup-insert f.flow_key j s' p.by_key);
        },
      )
  | inl unknown ↦
      let (r, made, h) = make_room-HasRoom p v in
      let s' = count_frame r.max_ev r.max_fr f (open_session f) in
      (
        record r { by_key = insert f.flow_key s' r.by_key; order = r.order ++ f.flow_key ∷ [] },
        rw (seen, unknown, made) refl,
        record {
          table =
              new-IsTable f.flow_key s' r.by_key (ground (arith, h.found f.flow_key)) h.room
                h.table;
          same = h.same;
          found = λ j. ground (arith, h.found j, h.same, lookup-insert f.flow_key j s' r.by_key);
        },
      )
]

current-IsShort : (p : Player) (f : Frame) → IsPlayable p → IsShort p.max_ev p.max_fr (current p f)
current-IsShort p f v = elim (Option-cases (lookup f.flow_key p.by_key)) [
  | inl unknown ↦ rw (unknown, current) (open_session-IsShort p.max_ev p.max_fr f)
  | inr (s, known) ↦ rw (known, current) (v.short f.flow_key s known)
]

-- Every session found afterwards is short.
observed-IsShort :
    (p : Player) (f : Frame) (p' : Player)
    → IsPlayable p
    → IsObserved p f p'
    → (k : Bytes) (s : Session) → lookup k p'.by_key ≡ some s
    → IsShort p'.max_ev p'.max_fr s
observed-IsShort p f p' v o k s e =
    let (limit, max_ev, max_fr) = o.same in
    rw (max_ev, max_fr)
      (elim (if-cases (text_eq f.flow_key k) _ _ (sym (o.found k) ∙ e)) [
        | inl (here, counted) ↦
            subst (IsShort p.max_ev p.max_fr) (some-eq counted)
              (count_frame-IsShort p.max_ev p.max_fr f (current p f) (current-IsShort p f v))
        | inr (elsewhere, other) ↦ elim (if-cases (is_evicted p f k) _ _ other) [
          | inl (gone, nothing) ↦ absurd (ground arith)
          | inr (stays, old) ↦ v.short k s old
        ]
      ])

-- Observing a frame never panics on a valid player, and leaves a valid one: its order lists exactly
-- the keys of its sessions, none twice and at most `limit`, and every session holds at most
-- `max_ev` events and `max_fr` frame numbers.
pub observe-IsPlayable :
    (p : Player) (f : Frame)
    → IsPlayable p
    → (p' : Player) × (observe p f ≡ some p') × IsPlayable p'
observe-IsPlayable p f v = elim (Bool-cases (is_ignored f)) [
  | inl ignored ↦ (p, unfold observe in rw ignored refl, v)
  | inr seen ↦
      let (p', done, o) = observe-IsObserved p f v.table seen in
      (p', done, record { table = o.table; short = observed-IsShort p f p' v o })
]

-- In whatever order the loop over the map gives the sessions, `List n` is the beginning of a list of
-- all of them that descends by their bytes; it holds `n` of them, or all if there are no more than
-- that or `n` is 0.
pub list-IsTop : (n : ℕ) (all : List Session) → IsTop (λ s. s.byte_total) n all (list n all)
unfolding list
list-IsTop n all = cut_to-IsTop (λ s. s.byte_total) n all

-- ===== src/Engine/Store.antt =====
-- `store` and `Frame` of internal/engine/engine.go: the bound of the store, and the newest frame.
use flux_tap.Decode.Frame.{Frame}
use flux_tap.Engine.{Engine, store, find_frame, frame}
use flux_tap.Prelude.{
  ℕ, ◌/◌, ◌≤◌, ◌≡◌, ◌≢◌, some, List, [], ◌∷◌, ◌++◌, arith, leb, if◌then◌else◌, length, drop,
  length-append, length-drop, All, All-drop, if-both,
}

-- No frame of a list has the number.
abbrev pub IsFresh : ℕ → List Frame → Type 0
IsFresh number = All (λ f. f.number ≢ number)

find_frame-append :
    (f : Frame) (fs : List Frame)
    → IsFresh f.number fs
    → find_frame f.number (fs ++ f ∷ []) ≡ some f
unfolding find_frame
find_frame-append f [] h = ground arith
find_frame-append f (g ∷ fs) h = ground (arith, h.0, find_frame-append f fs h.1)

-- A stored frame whose number is new is the one that a request for its number finds, and the store
-- stays within a limit of at least 4.
pub store-frame :
    (f : Frame) (e : Engine)
    → 4 ≤ e.max_store
    → length e.frames ≤ e.max_store
    → IsFresh f.number e.frames
    → (frame f.number (store f e) ≡ some f) × (length (store f e).frames ≤ e.max_store)
unfolding store
store-frame f e limit h fresh =
    let kept =
      if leb e.max_store (length e.frames) then drop (length e.frames / 4) e.frames else e.frames in
    (
      find_frame-append f kept (
          if-both (IsFresh f.number) (leb e.max_store (length e.frames)) _ _
            (All-drop (λ (g : Frame). g.number ≢ f.number) (length e.frames / 4) e.frames fresh)
            fresh),
      ground (arith, length-append kept (f ∷ []), length-drop (length e.frames / 4) e.frames),
    )

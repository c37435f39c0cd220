-- ===== src/Web/Packets.antt =====
-- The packets that `handlePackets` of internal/web/server.go answers with.
use flux_tap.Decode.Frame.{Frame}
use flux_tap.Engine.Queue.{newest, newest_all}
use flux_tap.Engine.{Engine}
use flux_tap.Filter.Match.Total.{match_frame-IsTotal}
use flux_tap.Filter.Match.{match_frame}
use flux_tap.Filter.{Folding, Numbers, IsAscii, LowersAscii}
use flux_tap.Prelude.Words.{Bytes}
use flux_tap.Prelude.{
  ℕ, ◌-◌, ◌≤◌, ◌≡◌, refl, sym, ltb-false, ap, Bool, true, false, some, List, [], ◌∷◌, arith, ltb,
  if◌then◌else◌, length, drop, map, length-drop, inl, inr, Bool-cases,
}
use flux_tap.Web.{row_of, packet_limit, filtered, handle_packets}

packet_limit-le : (asked : ℕ) → packet_limit asked ≤ 300
unfolding packet_limit
packet_limit-le asked = ground arith

as_newest :
    (n : ℕ) (fs : List Frame)
    → (if ltb n (length fs) then drop (length fs - n) fs else fs) ≡ newest n fs
as_newest n fs = elim (Bool-cases (ltb n (length fs))) [
  | inl long ↦ rw long refl
  | inr short ↦ rw short (sym (newest_all n fs (ltb-false n (length fs) short)))
]

at_most : (n : ℕ) (fs : List Frame) → n ≤ 300 → length (newest n fs) ≤ 300
at_most n fs h = omega (arith, length-drop (length fs - n) fs)

module _ (fold : Folding) {R : Type 0} (real : Numbers R) where
  -- The frames of a list that match an expression, in their order.
  pub data Picked (expr : Bytes) : List Frame → List Frame → Type 0 where
    done : Picked expr [] []
    keep :
        {f : Frame} {fs ms : List Frame}
        → match_frame fold real f expr ≡ some true
        → Picked expr fs ms
        → Picked expr (f ∷ fs) (f ∷ ms)
    leave :
        {f : Frame} {fs ms : List Frame}
        → match_frame fold real f expr ≡ some false
        → Picked expr fs ms
        → Picked expr (f ∷ fs) ms

  module _ (lowers : LowersAscii fold) (expr : Bytes) (ascii : IsAscii expr) where
    filtered-Picked :
        (fs : List Frame)
        → (ms : List Frame) × (filtered fold real expr fs ≡ some ms) × Picked expr fs ms
    unfolding filtered
    filtered-Picked [] = ([], refl, done)
    filtered-Picked (f ∷ fs) =
        let (ms, e, picked) = filtered-Picked fs in
        let (b, m) = match_frame-IsTotal fold lowers real f expr ascii in add_frame b m ms e picked
      where
        add_frame :
            (b : Bool)
            → match_frame fold real f expr ≡ some b
            → (ms : List Frame) → filtered fold real expr fs ≡ some ms
            → Picked expr fs ms
            → (ns : List Frame) × (filtered fold real expr (f ∷ fs) ≡ some ns)
              × Picked expr (f ∷ fs) ns
        add_frame true m ms e picked = (f ∷ ms, rw (m, e) refl, keep m picked)
        add_frame false m ms e picked = (ms, rw (m, e) refl, leave m picked)

    -- For a filter in ASCII, on which lowering is that of ASCII, the answer is there: it shows the
    -- stored frames that match, in their order, of those the newest up to the limit asked for, which
    -- is 200 if none is and never more than 300.
    pub handle_packets-Picked :
        (asked : ℕ) (e : Engine)
        → (ms : List Frame) × Picked expr e.frames ms
          × (handle_packets fold real expr asked e
              ≡ some (map row_of (newest (packet_limit asked) ms)))
          × (length (newest (packet_limit asked) ms) ≤ 300)
    unfolding handle_packets
    handle_packets-Picked asked e =
        let (ms, found, picked) = filtered-Picked e.frames in
        (
          ms,
          picked,
          rw found (ap (λ xs. some (map row_of xs)) (as_newest (packet_limit asked) ms)),
          at_most (packet_limit asked) ms (packet_limit-le asked),
        )

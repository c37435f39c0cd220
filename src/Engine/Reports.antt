-- ===== src/Engine/Reports.antt =====
-- What `Run` of internal/engine/engine.go does around its loop, and the rows of `ExportCSV`.
use flux_tap.Decode.Frame.{Frame}
use flux_tap.Pcap.Reader.{link_type_ethernet}
use flux_tap.Pcap.Stream.{Instant}
use flux_tap.Pcap.Writer.{Writer, create_writer}
use flux_tap.Prelude.Words.{Bytes}
use flux_tap.Prelude.{ℕ, Bool, Option, none, some, List, [], ◌∷◌, if◌then◌else◌, map, ◌⊎◌, inl, inr}
use flux_tap.Text.{text, is_empty, decimal}

-- The link type of a source that has one.
abbrev link_of : Option ℕ → ℕ
link_of none = link_type_ethernet
link_of (some link) = link

abbrev recording : Option Writer → Option Writer ⊎ Bytes
recording none = inr (text "open --write pcap")
recording (some w) = inl (some w)

-- The writer of `Run`, if there is a path to write to; on the right is the error.
unfoldable pub open_writer :
    (Bytes → Bytes → Bytes × Bool) → Bytes → Option ℕ → Option Writer ⊎ Bytes
open_writer write path link =
    if is_empty path then inl none else recording (create_writer write (link_of link))

-- The events that `Run` sends every half second, and at its end.
unfoldable pub regular_events : Bool → List Bytes
regular_events has_hub =
    if has_hub then text "stats" ∷ text "security" ∷ text "sessions" ∷ text "story" ∷ [] else []

unfoldable pub last_events : Bool → Bool → List Bytes
last_events has_hub live =
    let over = if live then [] else text "done" ∷ [] in
    let told =
      text "stats"
      ∷ text "flows"
      ∷ text "security"
      ∷ text "sessions"
      ∷ text "story"
      ∷ text "status"
      ∷ over in
    if has_hub then told else []

-- A row of `ExportCSV`, where `format` prints the time.
abbrev csv_row : (Instant → Bytes) → Frame → List Bytes
csv_row format f =
    decimal f.number
    ∷ format f.timestamp
    ∷ f.src
    ∷ f.dst
    ∷ f.protocol
    ∷ decimal f.len
    ∷ f.info
    ∷ f.flow_key
    ∷ []

-- The rows that `ExportCSV` gives to encoding/csv.
unfoldable pub csv_rows : (Instant → Bytes) → List Frame → List (List Bytes)
csv_rows format frames =
    (text "no"
      ∷ text "time"
      ∷ text "src"
      ∷ text "dst"
      ∷ text "protocol"
      ∷ text "length"
      ∷ text "info"
      ∷ text "flow"
      ∷ [])
    ∷ map (csv_row format) frames

-- ===== src/Web/Pages.antt =====
-- The rest of internal/web/server.go that computes: the page, the list of sessions, and the sockets
-- that a broadcast leaves.
use flux_tap.Prelude.Words.{Bytes}
use flux_tap.Prelude.{ℕ, Bool, Option, none, some, List, [], ◌∷◌, ◌++◌, ◌==◌, if◌then◌else◌}
use flux_tap.Session.{Session, list}
use flux_tap.Text.Split.{cut}
use flux_tap.Text.{text}
use flux_tap.Web.{Server, auth_enabled}

-- `strings.Replace(s, old, new, 1)`, of an `old` that is not empty.
abbrev replace_first : Bytes → Bytes → Bytes → Bytes
replace_first s old new = elim (cut old s) [
  | none ↦ s
  | some (before, after) ↦ before ++ (new ++ after)
]

-- `handleIndex`, on the page of internal/web/ui.go.
unfoldable pub index_page : Bytes → Server → Bytes
index_page html s =
    let flag =
      if auth_enabled s
      then text "window.__FLUXTAP_AUTH__=true;"
      else text "window.__FLUXTAP_AUTH__=false;" in
    replace_first html (text "/*__FLUXTAP_AUTH__*/") flag

-- `handleSessions`, for the sessions in the order of the loop over the map; a limit that is not a
-- positive number is 0 here.
unfoldable pub handle_sessions : ℕ → List Session → List Session
handle_sessions asked sessions = list (if asked == 0 then 50 else asked) sessions

-- The loop of `Broadcast`, for which the sockets are numbered: those that take the message stay.
unfoldable pub keep_alive : (ℕ → Bool) → List ℕ → List ℕ
keep_alive takes [] = []
keep_alive takes (s ∷ subs) = let rest = keep_alive takes subs in if takes s then s ∷ rest else rest

-- `Broadcast`, of what json.Marshal gives.
unfoldable pub broadcast : Option Bytes → (Bytes → ℕ → Bool) → List ℕ → List ℕ
unfolding keep_alive
broadcast none takes subs = subs
broadcast (some message) takes subs = keep_alive (takes message) subs

-- ===== src/Flow/Tops.antt =====
-- `Top` of internal/flow/tracker.go: the conversations with the most bytes.
use flux_tap.Flow.{Conversation, top}
use flux_tap.Prelude.{ℕ, ◌≡◌, List, map}
use flux_tap.Ranking.Sorted.{IsTop, cut_to-IsTop, cut_to-sizes}
use mathlib.Core.List.{Perm}

-- In whatever order the loop over the map gives the conversations, `Top n` is the beginning of a
-- list of all of them that descends by their bytes; it holds `n` of them, or all if there are no
-- more than that or `n` is 0.
pub top-IsTop : (n : ℕ) (all : List Conversation) → IsTop (λ c. c.byte_total) n all (top n all)
unfolding top
top-IsTop n all = cut_to-IsTop (λ c. c.byte_total) n all

-- The byte totals that `Top n` shows are the same for every order of the loop over the map.
pub top-sizes :
    (n : ℕ) (all again : List Conversation)
    → Perm all again
    → map (λ c. c.byte_total) (top n all) ≡ map (λ c. c.byte_total) (top n again)
unfolding top
top-sizes n all again p = cut_to-sizes (λ c. c.byte_total) n all again p

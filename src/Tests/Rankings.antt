-- ===== src/Tests/Rankings.antt =====
-- The conversations of a small table, ranked.
use flux_tap.Flow.Tops.{top-IsTop}
use flux_tap.Flow.{Conversation, top}
use flux_tap.Pcap.Stream.{since_epoch}
use flux_tap.Prelude.{ℕ, ◌≡◌, refl, none, List, [], ◌∷◌, map}
use flux_tap.Ranking.Sorted.{IsTop}
use flux_tap.Ranking.{exchange, select, max_from}

abbrev conversation : ℕ → Conversation
conversation bytes = record {
  key = [];
  protocol = [];
  src = [];
  dst = [];
  sport = [];
  dport = [];
  packets = 1;
  byte_total = bytes;
  first_seen = since_epoch 0;
  last_seen = none;
  tcp_flags = [];
  app_protocol = [];
  sni = [];
  ja3 = [];
}

abbrev three : List Conversation
three = conversation 60 ∷ conversation 1500 ∷ conversation 90 ∷ []

abbrev again : List Conversation
again = conversation 1500 ∷ conversation 60 ∷ conversation 90 ∷ []

ranked : map (λ c. c.byte_total) (top 2 three) ≡ 1500 ∷ 90 ∷ []
unfolding top select exchange max_from
ranked = refl

top-IsTop_example : IsTop (λ c. c.byte_total) 2 three (top 2 three)
top-IsTop_example = top-IsTop 2 three

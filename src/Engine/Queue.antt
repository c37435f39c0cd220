-- ===== src/Engine/Queue.antt =====
-- `queueWS` and `flushWS` of internal/engine/engine.go: the counters, and the rows that are sent.
use flux_tap.Engine.{Row, Engine, queue_ws, flush_ws, send_batch, max_pending}
use flux_tap.Prelude.{
  ℕ, suc, ◌+◌, ◌-◌, ◌%◌, ◌^◌, ◌≤◌, ◌<◌, ◌≡◌, refl, true, List, [], ◌∷◌, ◌++◌, arith, length, drop,
  length-append, length-drop, append_assoc, append-nil, dec_le, dec_lt, lt→ltb, le→ltb, ◌∙◌, ap,
  sym, subst,
}

-- The last `n` elements.
abbrev pub newest {ℓ} : {A : Type ℓ} → ℕ → List A → List A
newest n xs = drop (length xs - n) xs

pub newest_all {ℓ} : {A : Type ℓ} (n : ℕ) (xs : List A) → length xs ≤ n → newest n xs ≡ xs
newest_all n xs h = ground arith

newest-cons {ℓ} :
    {A : Type ℓ} (n : ℕ) (x : A) (xs : List A) → n ≤ length xs → newest n (x ∷ xs) ≡ newest n xs
newest-cons n x xs h = let e : suc (length xs) - n ≡ suc (length xs - n) = omega arith in rw e

newest-append {ℓ} :
    {A : Type ℓ} (n : ℕ) (xs ys : List A) → newest n (newest n xs ++ ys) ≡ newest n (xs ++ ys)
newest-append {A} n [] ys =
    ap (λ rest. newest n (rest ++ ys)) (newest_all {A = A} n [] (omega arith))
newest-append n (x ∷ xs) ys = elim (dec_le n (length xs)) [
  | yes h ↦ rw (newest-cons n x xs h) (
      newest-append n xs ys ∙ sym (newest-cons n x (xs ++ ys) (omega (arith, length-append xs ys))))
  | no h ↦ rw (newest_all n (x ∷ xs) (omega arith))
]

-- What happens to the queue.
pub data Event : Type 0 where
  queue : Row → Event
  flush : Event

abbrev pub run : List Event → Engine → Engine
run [] e = e
run (queue row ∷ es) e = run es (queue_ws row e)
run (flush ∷ es) e = run es (flush_ws e)

abbrev pub queued : List Event → ℕ
queued [] = 0
queued (queue row ∷ es) = suc (queued es)
queued (flush ∷ es) = queued es

-- All that the counters know of.
abbrev pub total : Engine → ℕ
total e = (e.ws_sent + e.ws_dropped + length e.ws_pending) % 2 ^ 64

pub record IsServing (e : Engine) : Type 0 where
  pub hub : e.has_hub ≡ true
  pub bounded : length e.ws_pending ≤ max_pending

queue_ws-IsServing : (row : Row) (e : Engine) → IsServing e → IsServing (queue_ws row e)
unfolding queue_ws
queue_ws-IsServing row e s =
    let grown = length-append e.ws_pending (row ∷ []) in
    let dropped =
      length-drop (length (e.ws_pending ++ row ∷ []) - max_pending) (e.ws_pending ++ row ∷ []) in
    record { hub = rw s.hub (ground arith); bounded = ground arith }

queue_ws-total :
    (row : Row) (e : Engine) → IsServing e → total (queue_ws row e) ≡ (total e + 1) % 2 ^ 64
unfolding queue_ws
queue_ws-total row e s =
    let grown = length-append e.ws_pending (row ∷ []) in
    let dropped =
      length-drop (length (e.ws_pending ++ row ∷ []) - max_pending) (e.ws_pending ++ row ∷ []) in
    rw s.hub ground arith

send_batch-total :
    (rows : List Row) (e : Engine)
    → total (send_batch rows (record e { ws_pending = [] }))
      ≡ (e.ws_sent + e.ws_dropped + length rows) % 2 ^ 64
unfolding send_batch
send_batch-total [] e = refl
send_batch-total (row ∷ rows) e = ground arith

send_batch-IsServing :
    (rows : List Row) (e : Engine)
    → IsServing e
    → IsServing (send_batch rows (record e { ws_pending = [] }))
unfolding send_batch
send_batch-IsServing [] e s = record { hub = s.hub; bounded = omega arith }
send_batch-IsServing (row ∷ rows) e s = record { hub = s.hub; bounded = omega arith }

-- A flush is a batch sent.
flush_ws-batch :
    (e : Engine) → IsServing e → flush_ws e ≡ send_batch e.ws_pending (record e { ws_pending = [] })
unfolding flush_ws
flush_ws-batch e s = simp s.hub refl

step-total :
    (event : Event) (e : Engine)
    → IsServing e
    → IsServing (run (event ∷ []) e)
      × (total (run (event ∷ []) e) ≡ (total e + queued (event ∷ [])) % 2 ^ 64)
step-total (queue row) e s = (queue_ws-IsServing row e s, queue_ws-total row e s)
step-total flush e s = (
  subst IsServing (sym (flush_ws-batch e s)) (send_batch-IsServing e.ws_pending e s),
  (ap total (flush_ws-batch e s) ∙ send_batch-total e.ws_pending e) ∙ omega arith,
)

-- With a hub, whatever rows are queued and whenever the queue is flushed: every row that was
-- queued is counted exactly once, as sent, as dropped or as pending (modulo 2 ^ 64, where the
-- counters wrap), and at most 36 rows are pending.
pub run-total :
    (es : List Event) (e : Engine)
    → IsServing e
    → IsServing (run es e) × (total (run es e) ≡ (total e + queued es) % 2 ^ 64)
run-total [] e s = (s, omega arith)
run-total (queue row ∷ es) e s =
    let first = step-total (queue row) e s in
    let rest = run-total es (queue_ws row e) first.0 in (rest.0, omega (arith, rest.1, first.1))
run-total (flush ∷ es) e s =
    let first = step-total flush e s in
    let rest = run-total es (flush_ws e) first.0 in (rest.0, omega (arith, rest.1, first.1))

abbrev pub queue_all : List Row → Engine → Engine
queue_all [] e = e
queue_all (row ∷ rows) e = queue_all rows (queue_ws row e)

queue_ws-newest :
    (row : Row) (e : Engine)
    → IsServing e
    → (queue_ws row e).ws_pending ≡ newest max_pending (e.ws_pending ++ row ∷ [])
unfolding queue_ws
queue_ws-newest row e s =
    simp s.hub (elim (dec_lt max_pending (length (e.ws_pending ++ row ∷ []))) [
      | yes over ↦ rw (lt→ltb _ _ over) refl
      | no fits ↦
          rw (le→ltb max_pending (length (e.ws_pending ++ row ∷ [])) (omega arith))
            (sym (newest_all max_pending (e.ws_pending ++ row ∷ []) (omega arith)))
    ])

queue_all-newest :
    (rows : List Row) (e : Engine)
    → IsServing e
    → (queue_all rows e).ws_pending ≡ newest max_pending (e.ws_pending ++ rows)
queue_all-newest [] e s =
    rw (append-nil e.ws_pending) (sym (newest_all max_pending e.ws_pending s.bounded))
queue_all-newest (row ∷ rows) e s =
    let rest = queue_all-newest rows (queue_ws row e) (queue_ws-IsServing row e s) in
    rest
    ∙ ap (λ pending. newest max_pending (pending ++ rows)) (queue_ws-newest row e s)
    ∙ newest-append max_pending (e.ws_pending ++ row ∷ []) rows
    ∙ ap (newest max_pending) (append_assoc e.ws_pending (row ∷ []) rows)

queue_all-IsServing : (rows : List Row) (e : Engine) → IsServing e → IsServing (queue_all rows e)
queue_all-IsServing [] e s = s
queue_all-IsServing (row ∷ rows) e s =
    queue_all-IsServing rows (queue_ws row e) (queue_ws-IsServing row e s)

-- What a client has been given: the batches that were broadcast.
pub record IsFlushed (batch : List Row) (before after : Engine) : Type 0 where
  pub nothing_left : after.ws_pending ≡ []
  pub sends : 0 < length batch → after.broadcast ≡ before.broadcast ++ batch ∷ []
  pub silent : batch ≡ [] → after.broadcast ≡ before.broadcast
  pub counted : after.ws_sent % 2 ^ 64 ≡ (before.ws_sent + length batch) % 2 ^ 64

send_batch-IsFlushed :
    (batch : List Row) (e : Engine)
    → IsFlushed batch e (send_batch batch (record e { ws_pending = [] }))
unfolding send_batch
send_batch-IsFlushed [] e = record {
  nothing_left = refl;
  sends = λ some_rows. absurd (omega arith);
  silent = λ none_queued. refl;
  counted = omega arith;
}
send_batch-IsFlushed (row ∷ rows) e = record {
  nothing_left = refl;
  sends = λ some_rows. refl;
  silent = λ none_queued. cc;
  counted = omega arith;
}

-- Queueing sends nothing.
queue_ws-broadcast :
    (row : Row) (e : Engine)
    → ((queue_ws row e).broadcast ≡ e.broadcast) × ((queue_ws row e).ws_sent ≡ e.ws_sent)
unfolding queue_ws
queue_ws-broadcast row e = (ground arith, ground arith)

queue_all-broadcast :
    (rows : List Row) (e : Engine)
    → ((queue_all rows e).broadcast ≡ e.broadcast) × ((queue_all rows e).ws_sent ≡ e.ws_sent)
queue_all-broadcast [] e = (refl, refl)
queue_all-broadcast (row ∷ rows) e =
    let (same, sent) = queue_all-broadcast rows (queue_ws row e) in
    let (first, counted) = queue_ws-broadcast row e in (same ∙ first, sent ∙ counted)

-- With a hub and at most 36 rows pending, rows that are queued one after the other and then flushed
-- are sent as one batch: what was broadcast to the clients grows by the newest 36 of what was pending
-- followed by these rows, in order, and by nothing else. Where there are none, nothing is
-- broadcast. Nothing is pending afterwards, and the rows of the batch are counted as sent, modulo
-- 2 ^ 64.
pub flush_ws-queue_all :
    (rows : List Row) (e : Engine)
    → IsServing e
    → IsFlushed (newest 36 (e.ws_pending ++ rows)) e (flush_ws (queue_all rows e))
flush_ws-queue_all rows e s =
    let batch = newest 36 (e.ws_pending ++ rows) in
    let flushed =
      subst
        (λ b.
          IsFlushed b (queue_all rows e)
            (send_batch b (record (queue_all rows e) { ws_pending = [] })))
        (queue_all-newest rows e s) (send_batch-IsFlushed _ (queue_all rows e)) in
    let same_batch =
      flush_ws-batch (queue_all rows e) (queue_all-IsServing rows e s)
      ∙ ap (λ b. send_batch b (record (queue_all rows e) { ws_pending = [] }))
          (queue_all-newest rows e s) in
    let (same, sent) = queue_all-broadcast rows e in
    subst (IsFlushed batch e) (sym same_batch) (record {
      nothing_left = flushed.nothing_left;
      sends = λ some_rows. flushed.sends some_rows ∙ ap (λ bs. bs ++ batch ∷ []) same;
      silent = λ none_left. flushed.silent none_left ∙ same;
      counted = flushed.counted ∙ ap (λ n. (n + length batch) % 2 ^ 64) sent;
    })

-- ===== src/Replay/Termination.antt =====
-- The retries of internal/edge/replay/replay.go and internal/store/events.go come to an end: a local
-- app that answers, if only with errors, does not hold its queue up for ever.
use liveurl.Replay.Settled.{IsKept, IsKept-IsOver, IsOver, drain-IsKept, queue-IsKept}
use liveurl.Prelude.{
  All, All-both, All-keep, All-weaken, Bool-cases, List, Text, [], ap, arith, choose, false, inl,
  inr, leb, length, map, order_by-All, refl, suc, true, ℕ, ◌*◌, ◌+◌, ◌-◌, ◌<◌, ◌==◌, ◌∙◌, ◌∷◌, ◌≡◌,
  ◌≢◌, ◌≤◌,
}
use liveurl.Store.{Conn, Db, WebhookEvent, queued}
use liveurl.Store.Events.{
  mark_delivered, mark_failed, mark_replaying, max_replay_attempts, queue, received_before,
  requeue_event,
}
use liveurl.Store.Events.Retries.{IsRetryable, IsValid}
use liveurl.Replay.{Link, Outcome, answered, drain, drain_loop, replay_event, stops}
use liveurl.Replay.Backlog.{Pending, pending, pending_of, serve}
use liveurl.Store.Events.Fifo.{is_waiting, queue_lem, queued_events-quiet}
use liveurl.Replay.Invariant.{drain-IsValid}
use liveurl.Replay.Refinement.{drain-Serves}

-- The refusals that an event may still meet.
abbrev tries : Pending → ℕ
tries p = 5 - p.attempts

abbrev budget : List Pending → ℕ
budget [] = 0
budget (p ∷ q) = tries p + budget q

abbrev IsOpen : Pending → Type 0
IsOpen p = p.attempts < 5

-- One drain after another, each with the exchanges of its connection.
abbrev serve_rounds : List (List Outcome) → List Pending → List Pending
serve_rounds [] q = q
serve_rounds (os ∷ rounds) q = serve_rounds rounds (serve os q)

-- What a drain leaves, where every event that is tried is answered.
record Progress (q q' : List Pending) : Type 0 where
  shorter : length q' ≤ length q
  less : budget q' ≤ budget q - 1
  still : All IsOpen q'

serve-Progress :
    (ss : List ℕ) (q : List Pending)
    → length q ≤ length ss
    → All IsOpen q
    → Progress q (serve (map answered ss) q)
unfolding serve
serve-Progress ss [] long h = record { shorter = omega arith; less = omega arith; still = tt }
serve-Progress [] (p ∷ q) long h = absurd (omega arith)
serve-Progress (s ∷ ss) (p ∷ q) long h = elim (Bool-cases (leb 500 s)) [
  | inr fine ↦
      let ih = serve-Progress ss q (omega arith) h.1 in
      rw fine (record {
        shorter = omega (arith, ih.shorter);
        less = omega (arith, ih.less, h.0);
        still = ih.still;
      })
  | inl refused ↦ elim (Bool-cases (leb 5 (p.attempts + 1))) [
    | inl last ↦
        rw (refused, last)
          (record { shorter = omega arith; less = omega (arith, h.0); still = h.1 })
    | inr more ↦
        rw (refused, more)
          (record {
            shorter = omega arith;
            less = omega (arith, h.0);
            still = (ground (arith, more), h.1);
          })
  ]
]

spent : (q : List Pending) → All IsOpen q → budget q ≡ 0 → q ≡ []
spent [] h none_left = refl
spent (p ∷ q) h none_left = absurd (omega (arith, h.0))

-- After as many rounds as the budget the list is served.
serve_rounds-nil :
    (rounds : List (List ℕ)) (q : List Pending) (n : ℕ)
    → length q ≤ n
    → All (λ ss. n ≤ length ss) rounds
    → All IsOpen q
    → budget q ≤ length rounds
    → serve_rounds (map (map answered) rounds) q ≡ []
serve_rounds-nil [] q n few long h enough = spent q h (omega arith)
serve_rounds-nil (ss ∷ rounds) q n few long h enough =
    let step = serve-Progress ss q (omega (arith, long.0)) h in
    serve_rounds-nil rounds (serve (map answered ss) q) n (omega (arith, step.shorter)) long.1
      step.still (omega (arith, step.less))

budget-bound : (q : List Pending) → budget q ≤ 5 * length q
budget-bound [] = omega arith
budget-bound (p ∷ q) = omega (arith, budget-bound q)

length-map : {A B : Type 0} (f : A → B) (xs : List A) → length (map f xs) ≡ length xs
length-map f [] = refl
length-map f (x ∷ xs) = ap suc (length-map f xs)

nothing-waits : (es : List WebhookEvent) → map pending_of es ≡ [] → es ≡ []
nothing-waits [] h = refl
nothing-waits (e ∷ es) h = cc

All-pending :
    (es : List WebhookEvent)
    → All (λ e. e.attempts < max_replay_attempts) es
    → All IsOpen (map pending_of es)
All-pending [] h = tt
All-pending (e ∷ es) h = (h.0, All-pending es h.1)

queue-IsRetryable : (t : ℕ) (db : Db) → IsValid db → All IsRetryable (queue t db)
unfolding queue
queue-IsRetryable t db valid =
    order_by-All received_before IsRetryable _
      (All-keep IsRetryable (is_waiting t) db.events valid.retryable)

queue-IsOpen : (t : ℕ) (db : Db) → IsValid db → All IsOpen (pending t db)
queue-IsOpen t db valid = All-pending (queue t db) (
    All-weaken (λ e. IsRetryable e × ((e.tunnel_id ≡ t) × (e.state ≡ queued)))
      (λ e. e.attempts < max_replay_attempts) (queue t db) (λ e h. h.0.unspent h.1.1)
      (All-both IsRetryable (λ e. (e.tunnel_id ≡ t) × (e.state ≡ queued)) (queue t db)
        (queue-IsRetryable t db valid) (queue_lem t db).2))

module _ (format_time : ℕ → Text) where
  -- An agent connects again and again, and each connection drains the queue.
  unfoldable pub reconnects : ℕ → List (List Outcome) → Conn → Conn
  reconnects t [] c = c
  reconnects t (os ∷ rounds) c =
      reconnects t rounds
        (drain format_time t
          (record { conn = c; session = record { outcomes = os; sent = [] } })).conn

  replay_event-quiet :
      (e : WebhookEvent) (l : Link)
      → l.conn.faults ≡ []
      → (replay_event format_time e l).1.conn.faults ≡ []
  unfolding replay_event mark_replaying requeue_event mark_delivered mark_failed
  replay_event-quiet e l quiet = ground (arith, quiet)

  drain_loop-quiet :
      (es : List WebhookEvent) (l : Link)
      → l.conn.faults ≡ []
      → (drain_loop format_time es l).conn.faults ≡ []
  unfolding drain_loop
  drain_loop-quiet [] l quiet = quiet
  drain_loop-quiet (e ∷ es) l quiet =
      let quiet' = replay_event-quiet e l quiet in
      choose (λ (k : Link). k.conn.faults ≡ []) (stops (replay_event format_time e l).0) _ _ quiet'
        (drain_loop-quiet es (replay_event format_time e l).1 quiet')

  drain-quiet :
      (t : ℕ) (l : Link) → t ≢ 0 → l.conn.faults ≡ [] → (drain format_time t l).conn.faults ≡ []
  unfolding drain
  drain-quiet t l real quiet =
      let numbered : (t == 0) ≡ false = ground arith in
      rw (numbered, queued_events-quiet t l.conn quiet)
        (drain_loop-quiet (queue t l.conn.db) l quiet)

  -- On a database that does not fail, what waits for the tunnel after any number of connections is
  -- what the list would leave that is served once for each of them.
  reconnects-serve_rounds :
      (t : ℕ) (rounds : List (List Outcome)) (c : Conn)
      → t ≢ 0
      → c.faults ≡ []
      → IsValid c.db
      → pending t (reconnects t rounds c).db ≡ serve_rounds rounds (pending t c.db)
  unfolding reconnects
  reconnects-serve_rounds t [] c real quiet valid = refl
  reconnects-serve_rounds t (os ∷ rounds) c real quiet valid =
      let l : Link = record { conn = c; session = record { outcomes = os; sent = [] } } in
      let own : (t == t) ≡ true = ground arith in
      reconnects-serve_rounds t rounds (drain format_time t l).conn real
        (drain-quiet t l real quiet) (drain-IsValid format_time t l valid)
      ∙ ap (serve_rounds rounds) (drain-Serves format_time t l real quiet valid t ∙ rw own refl)

  reconnects-IsKept :
      (t i : ℕ) (rounds : List (List Outcome)) (c : Conn)
      → t ≢ 0
      → c.faults ≡ []
      → IsValid c.db
      → IsKept t i c.db
      → IsKept t i (reconnects t rounds c).db
  unfolding reconnects
  reconnects-IsKept t i [] c real quiet valid kept = kept
  reconnects-IsKept t i (os ∷ rounds) c real quiet valid kept =
      let l : Link = record { conn = c; session = record { outcomes = os; sent = [] } } in
      reconnects-IsKept t i rounds (drain format_time t l).conn real (drain-quiet t l real quiet)
        (drain-IsValid format_time t l valid) (drain-IsKept format_time t i l real quiet valid kept)

  -- Whatever statuses the local app answers with, the queue is empty after five connections for each
  -- event that waits, if every connection lasts for as many exchanges as there are such events and
  -- the database does not fail; and each event that waited is delivered or dead then.
  pub reconnects-empties :
      (t : ℕ) (rounds : List (List ℕ)) (c : Conn)
      → t ≢ 0
      → c.faults ≡ []
      → IsValid c.db
      → All (λ ss. length (queue t c.db) ≤ length ss) rounds
      → 5 * length (queue t c.db) ≤ length rounds
      → let db = (reconnects t (map (map answered) rounds) c).db in
        (queue t db ≡ []) × All (λ e. IsOver t e.id db) (queue t c.db)
  reconnects-empties t rounds c real quiet valid long enough = (
    empty,
    All-weaken (λ e. IsKept t e.id c.db)
        (λ e. IsOver t e.id (reconnects t (map (map answered) rounds) c).db) (queue t c.db)
        (λ e kept.
          IsKept-IsOver t e.id _ empty
            (reconnects-IsKept t e.id (map (map answered) rounds) c real quiet valid kept))
        (queue-IsKept t c.db valid),
  )
    where
      same_length : length (pending t c.db) ≡ length (queue t c.db)
      same_length = length-map pending_of (queue t c.db)

      empty : queue t (reconnects t (map (map answered) rounds) c).db ≡ []
      empty = nothing-waits (queue t (reconnects t (map (map answered) rounds) c).db) (
          reconnects-serve_rounds t (map (map answered) rounds) c real quiet valid
          ∙ serve_rounds-nil rounds (pending t c.db) (length (queue t c.db))
              (omega (arith, same_length)) long (queue-IsOpen t c.db valid)
              (omega (arith, same_length, budget-bound (pending t c.db))))

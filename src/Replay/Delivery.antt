-- ===== src/Replay/Delivery.antt =====
-- A drain in which the local app accepts every event (internal/edge/replay/replay.go).
use mathlib.Core.List.{append-nil}
use mathlib.Core.List.{append_assoc}
use liveurl.Prelude.{
  All, All-any, All-any-keep, All-both, All-keep, All-weaken, Bool-cases, List, Text, [], any,
  arith, false, find_where, find_where-any, if◌then◌else◌, inl, inr, keep, leb, length, map, none,
  order_by-All, order_by-any, refl, some, true, update_where, ℕ, ◌&&◌, ◌++◌, ◌+◌, ◌<◌, ◌==◌, ◌∙◌,
  ◌∷◌, ◌≡◌, ◌≢◌, ◌⊎◌,
}
use liveurl.Store.{Db, WebhookEvent, delivered, replaying}
use liveurl.Store.Events.{has_id, in_tunnel, mark_delivered, mark_replaying, queue, received_before}
use liveurl.Store.Events.Rows.{find-Touches, find-update_self, update_where-update_where}
use liveurl.Replay.{Link, Outcome, answered, build_request, drain, drain_loop, replay_event}
use liveurl.Store.Events.Fifo.{is_waiting, queue-none_waits, queued_events-quiet}

-- What MarkDelivered writes into a row.
abbrev pub as_delivered : ℕ → ℕ → WebhookEvent → WebhookEvent
as_delivered status now e = record e {
  state = delivered;
  attempts = e.attempts + 1;
  last_status = status;
  delivered_at = some now;
}

-- The table after each event of a list was answered with the status beside it.
unfoldable pub deliver_all : ℕ → List WebhookEvent → List ℕ → List WebhookEvent → List WebhookEvent
deliver_all now [] ss rows = rows
deliver_all now (e ∷ es) [] rows = rows
deliver_all now (e ∷ es) (s ∷ ss) rows =
    deliver_all now es ss (update_where (has_id e.id) (as_delivered s now) rows)

module _ (format_time : ℕ → Text) where
  abbrev pub delivered_link : List WebhookEvent → List ℕ → List Outcome → Link → Link
  delivered_link es ss rest l = record {
    conn = record {
      db = record l.conn.db { events = deliver_all l.conn.db.now es ss l.conn.db.events };
      faults = [];
    };
    session = record {
      outcomes = rest;
      sent = l.session.sent ++ map (build_request format_time) es;
    };
  }

  -- One event that is accepted.
  pub replay_event-accepted :
      (e : WebhookEvent) (s : ℕ) (rest : List Outcome) (l : Link)
      → l.conn.faults ≡ []
      → l.session.outcomes ≡ answered s ∷ rest
      → s < 500
      → replay_event format_time e l ≡ ((s, none), delivered_link (e ∷ []) (s ∷ []) rest l)
  unfolding replay_event mark_replaying mark_delivered deliver_all
  replay_event-accepted e s rest l quiet next accepted = ground (
    arith,
    update_where-update_where e.id (λ r. record r { state = replaying })
        (as_delivered s l.conn.db.now) l.conn.db.events (λ r. refl),
  )

  delivered_link-cons :
      (e : WebhookEvent) (es : List WebhookEvent) (s : ℕ) (ss : List ℕ) (more rest : List Outcome)
      (l : Link)
      → delivered_link es ss rest (delivered_link (e ∷ []) (s ∷ []) more l)
        ≡ delivered_link (e ∷ es) (s ∷ ss) rest l
  unfolding deliver_all
  delivered_link-cons e es s ss more rest l = simp append_assoc

  drain_loop-accepted :
      (es : List WebhookEvent) (ss : List ℕ) (rest : List Outcome) (l : Link)
      → l.conn.faults ≡ []
      → l.session.outcomes ≡ map answered ss ++ rest
      → length ss ≡ length es
      → All (λ s. s < 500) ss
      → drain_loop format_time es l ≡ delivered_link es ss rest l
  unfolding drain_loop
  drain_loop-accepted [] [] rest l quiet next len fine =
      unfold deliver_all in simp append-nil (cc (quiet, next))
  drain_loop-accepted [] (s ∷ ss) rest l quiet next len fine = absurd (omega arith)
  drain_loop-accepted (e ∷ es) [] rest l quiet next len fine = absurd (omega arith)
  drain_loop-accepted (e ∷ es) (s ∷ ss) rest l quiet next len fine =
      rw (replay_event-accepted e s (map answered ss ++ rest) l quiet next fine.0) (
        let step : drain_loop format_time es
              (delivered_link (e ∷ []) (s ∷ []) (map answered ss ++ rest) l)
            ≡ delivered_link (e ∷ es) (s ∷ ss) rest l =
          drain_loop-accepted es ss rest _ refl refl (omega arith) fine.1
          ∙ delivered_link-cons e es s ss (map answered ss ++ rest) rest l in
        let below : leb 500 s ≡ false = ground arith in rw below step)

-- A row that waits is of one of these events.
abbrev IsAmong : ℕ → List WebhookEvent → WebhookEvent → Type 0
IsAmong t es r = is_waiting t r ≡ true → any (λ e. r.id == e.id) es ≡ true

All-deliver_one :
    (t now s : ℕ) (e : WebhookEvent) (es rows : List WebhookEvent)
    → All (IsAmong t (e ∷ es)) rows
    → All (IsAmong t es) (update_where (has_id e.id) (as_delivered s now) rows)
All-deliver_one t now s e es [] h = tt
All-deliver_one t now s e es (x ∷ rows) h =
    (λ w. one x h.0 w, All-deliver_one t now s e es rows h.1)
  where
    one :
        (x : WebhookEvent)
        → IsAmong t (e ∷ es) x
        → IsAmong t es (if has_id e.id x then as_delivered s now x else x)
    one x h w = elim (Bool-cases (has_id e.id x)) [
      | inl this ↦ let never : in_tunnel t x && false ≡ true = rw this at w in ground arith
      | inr other ↦ rw other (rw other at (h (rw other at w)))
    ]

-- Once all of them are delivered, no row waits.
deliver_all-none_waits :
    (t now : ℕ) (es : List WebhookEvent) (ss : List ℕ) (rows : List WebhookEvent)
    → length ss ≡ length es
    → All (IsAmong t es) rows
    → keep (is_waiting t) (deliver_all now es ss rows) ≡ []
unfolding deliver_all
deliver_all-none_waits t now [] ss [] len h = refl
deliver_all-none_waits t now [] ss (x ∷ rows) len h = elim (Bool-cases (is_waiting t x)) [
  | inl w ↦ cc (h.0 w)
  | inr idle ↦ rw idle (deliver_all-none_waits t now [] ss rows len h.1)
]
deliver_all-none_waits t now (e ∷ es) [] rows len h = absurd (omega arith)
deliver_all-none_waits t now (e ∷ es) (s ∷ ss) rows len h =
    deliver_all-none_waits t now es ss _ (omega arith) (All-deliver_one t now s e es rows h)

pub record IsDelivered (i : ℕ) (rows : List WebhookEvent) : Type 0 where
  pub row : WebhookEvent
  pub found : find_where (has_id i) rows ≡ some row
  pub done : row.state ≡ delivered

deliver_all-IsDelivered :
    (i now : ℕ) (es : List WebhookEvent) (ss : List ℕ) (rows : List WebhookEvent) (r : WebhookEvent)
    → length ss ≡ length es
    → find_where (has_id i) rows ≡ some r
    → (any (λ e. i == e.id) es ≡ true) ⊎ (r.state ≡ delivered)
    → IsDelivered i (deliver_all now es ss rows)
unfolding deliver_all
deliver_all-IsDelivered i now [] ss rows r len f (inl h) = cc
deliver_all-IsDelivered i now [] ss rows r len f (inr h) = record { row = r; found = f; done = h }
deliver_all-IsDelivered i now (e ∷ es) [] rows r len f h = absurd (omega arith)
deliver_all-IsDelivered i now (e ∷ es) (s ∷ ss) rows r len f h = elim (Bool-cases (i == e.id)) [
  | inl same ↦
      deliver_all-IsDelivered i now es ss _ (as_delivered s now r) (omega arith)
        (let e' : i ≡ e.id = ground arith in
          rw e' (find-update_self e.id (as_delivered s now) rows r (λ x. refl) (rw e' at f)))
        (inr refl)
  | inr other ↦
      deliver_all-IsDelivered i now es ss _ r (omega arith)
        (find-Touches i (record { change = as_delivered s now; keeps_id = λ x. refl; rows = refl })
            (ground arith)
          ∙ f)
        (ground arith)
]

queue-IsAmong : (t : ℕ) (db : Db) → All (IsAmong t (queue t db)) db.events
unfolding queue
queue-IsAmong t db =
    All-weaken
      (λ r. is_waiting t r ≡ true → any (λ e. r.id == e.id) (keep (is_waiting t) db.events) ≡ true)
      (IsAmong t (queue t db)) db.events
      (λ r h w. order_by-any received_before (λ e. r.id == e.id) _ ∙ h w)
      (All-any-keep (λ r e. r.id == e.id) (λ r. ground arith) (is_waiting t) db.events)

-- The events of the queue are rows of the table, and are in the queue.
queue-rows :
    (t : ℕ) (db : Db)
    → All
        (λ e. (any (has_id e.id) db.events ≡ true) × (any (λ d. e.id == d.id) (queue t db) ≡ true))
        (queue t db)
queue-rows t db =
    All-both (λ e. any (has_id e.id) db.events ≡ true)
      (λ e. any (λ d. e.id == d.id) (queue t db) ≡ true) (queue t db) (stored t db)
      (All-any (λ e d. e.id == d.id) (λ e. ground arith) (queue t db))
  where
    stored : (t : ℕ) (db : Db) → All (λ e. any (has_id e.id) db.events ≡ true) (queue t db)
    stored t db =
        unfold queue in
        order_by-All received_before (λ e. any (has_id e.id) db.events ≡ true) _
          (All-keep (λ e. any (has_id e.id) db.events ≡ true) (is_waiting t) db.events
            (All-any (λ e y. has_id e.id y) (λ e. ground arith) db.events))

module _ (format_time : ℕ → Text) where
  -- With a database that does not fail and an agent whose local app answers each event of the
  -- queue with a status below 500, one drain sends the whole queue in its order, leaves the queue
  -- empty, and each of its events is delivered.
  pub drain-delivers :
      (t : ℕ) (ss : List ℕ) (rest : List Outcome) (l : Link)
      → t ≢ 0
      → l.conn.faults ≡ []
      → l.session.outcomes ≡ map answered ss ++ rest
      → length ss ≡ length (queue t l.conn.db)
      → All (λ s. s < 500) ss
      → let l' = drain format_time t l in
        (l'.session.sent ≡ l.session.sent ++ map (build_request format_time) (queue t l.conn.db))
        × (queue t l'.conn.db ≡ [])
        × All (λ e. IsDelivered e.id l'.conn.db.events) (queue t l.conn.db)
  drain-delivers t ss rest l real quiet next len fine = rw drained (
    refl,
    queue-none_waits t _ (
        deliver_all-none_waits t l.conn.db.now (queue t l.conn.db) ss l.conn.db.events len
          (queue-IsAmong t l.conn.db)),
    All-weaken _ (λ e. IsDelivered e.id _) (queue t l.conn.db) delivered_row
        (queue-rows t l.conn.db),
  )
    where
      drained : drain format_time t l ≡ delivered_link format_time (queue t l.conn.db) ss rest l
      drained =
          unfold drain in
          let numbered : (t == 0) ≡ false = ground arith in
          rw (numbered, queued_events-quiet t l.conn quiet)
            (drain_loop-accepted format_time (queue t l.conn.db) ss rest l quiet next len fine)

      delivered_row :
          (e : WebhookEvent)
          → (any (has_id e.id) l.conn.db.events ≡ true)
            × (any (λ d. e.id == d.id) (queue t l.conn.db) ≡ true)
          → IsDelivered e.id (deliver_all l.conn.db.now (queue t l.conn.db) ss l.conn.db.events)
      delivered_row e h =
          let (r, found) = find_where-any (has_id e.id) l.conn.db.events h.0 in
          deliver_all-IsDelivered e.id l.conn.db.now (queue t l.conn.db) ss l.conn.db.events r len
            found (inl h.1)

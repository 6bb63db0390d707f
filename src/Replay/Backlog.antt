-- ===== src/Replay/Backlog.antt =====
-- What a drain does to the queues (internal/edge/replay/replay.go), and the queue that the webhook
-- sender may think of: a list of events that are served from the front.
use liveurl.Prelude.{
  Bool, Bool-cases, List, Text, [], ap, arith, find_where, if◌then◌else◌, inl, inr, leb, map, refl,
  some, true, ℕ, ◌+◌, ◌∷◌, ◌≡◌,
}
use liveurl.Store.{Db, WebhookEvent, replaying}
use liveurl.Store.Events.{has_id, mark_replaying, queue, requeue_event, update_event}
use liveurl.Store.Events.Waiting.{KeepsPlace}
use liveurl.Replay.{
  Link, Outcome, Reply, Session, answered, next_outcome, open_failed, read_failed, replay_event,
  stops, write_failed,
}
use liveurl.Replay.Delivery.{as_delivered, deliver_all, replay_event-accepted}
use liveurl.Replay.Errors.{as_failed, as_requeued, replay_event-refused, was_cut}
use liveurl.Store.Events.Rows.{update_where-update_where}

-- An event that waits, by its number, and how often it was refused.
pub record Pending : Type 0 where
  pub id : ℕ
  pub attempts : ℕ

abbrev pub pending_of : WebhookEvent → Pending
pending_of e = record { id = e.id; attempts = e.attempts }

-- What waits for a tunnel, from the front.
abbrev pub pending : ℕ → Db → List Pending
pending t db = map pending_of (queue t db)

-- The front event after an exchange, before the events behind it, of which `served` is left once
-- they are served too: an answer below 500 takes it away and goes on, the fifth refusal takes it away,
-- another refusal counts, and an exchange that breaks off makes its count 0.
abbrev pub settle_front : Outcome → Pending → List Pending → List Pending → List Pending
settle_front open_failed p q served = record p { attempts = 0 } ∷ q
settle_front write_failed p q served = record p { attempts = 0 } ∷ q
settle_front read_failed p q served = record p { attempts = 0 } ∷ q
settle_front (answered s) p q served =
    if leb 500 s
    then if leb 5 (p.attempts + 1) then q else record p { attempts = p.attempts + 1 } ∷ q
    else served

-- A drain of the list, the exchanges ending as `os` says; after them none can be opened.
unfoldable pub serve : List Outcome → List Pending → List Pending
serve os [] = []
serve os (p ∷ q) = let (o, rest) = next_outcome os in settle_front o p q (serve rest q)

-- What an exchange writes into the row of its event.
abbrev pub written : ℕ → ℕ → Outcome → WebhookEvent → WebhookEvent
written now attempts open_failed = as_requeued
written now attempts write_failed = as_requeued
written now attempts read_failed = as_requeued
written now attempts (answered s) =
    if leb 500 s then as_failed s (attempts + 1) else as_delivered s now

abbrev pub outcome_stops : Outcome → Bool
outcome_stops (answered s) = leb 500 s
outcome_stops _ = true

pub written-KeepsPlace : (now attempts : ℕ) (o : Outcome) → KeepsPlace (written now attempts o)
written-KeepsPlace now attempts open_failed = record {
  id = λ e. refl;
  tunnel = λ e. refl;
  received = λ e. refl;
}
written-KeepsPlace now attempts write_failed = record {
  id = λ e. refl;
  tunnel = λ e. refl;
  received = λ e. refl;
}
written-KeepsPlace now attempts read_failed = record {
  id = λ e. refl;
  tunnel = λ e. refl;
  received = λ e. refl;
}
written-KeepsPlace now attempts (answered s) = elim (Bool-cases (leb 500 s)) [
  | inl refused ↦ rw refused (record { id = λ e. refl; tunnel = λ e. refl; received = λ e. refl })
  | inr fine ↦ rw fine (record { id = λ e. refl; tunnel = λ e. refl; received = λ e. refl })
]

-- A replay of `e` from the database `db` whose exchange ended as `o`: whether the drain stops, the row
-- that is written, and the exchanges that are left.
abbrev pub Writes : WebhookEvent → Db → Outcome → List Outcome → Reply × Link → Type 0
Writes e db o rest (r, l') =
    (stops r ≡ outcome_stops o)
    × (l'.conn ≡ record { db = update_event e.id (written db.now e.attempts o) db; faults = [] })
    × (l'.session.outcomes ≡ rest)

abbrev pub quiet_link : Db → Session → Link
quiet_link db s = record { conn = record { db = db; faults = [] }; session = s }

module _ (format_time : ℕ → Text) (e : WebhookEvent) (db : Db) (s : Session) where
  replay_event-answered :
      (status : ℕ) (rest : List Outcome)
      → find_where (has_id e.id) db.events ≡ some e
      → s.outcomes ≡ answered status ∷ rest
      → Writes e db (answered status) rest (replay_event format_time e (quiet_link db s))
  unfolding deliver_all
  replay_event-answered status rest found next = elim (Bool-cases (leb 500 status)) [
    | inl refused ↦
        let run =
          replay_event-refused format_time e e status rest (quiet_link db s) refl next
            (ground (arith, refused)) found in
        rw (refused, run) (refused, refl, refl)
    | inr fine ↦
        let run =
          replay_event-accepted format_time e status rest (quiet_link db s) refl next
            (ground (arith, fine)) in
        rw (fine, run) (fine, refl, refl)
  ]

  replay_event-cut_off :
      (o : Outcome) (rest : List Outcome)
      → next_outcome s.outcomes ≡ (o, rest)
      → was_cut o ≡ true
      → Writes e db o rest (replay_event format_time e (quiet_link db s))
  unfolding replay_event mark_replaying requeue_event
  replay_event-cut_off o rest next cut = ground (
    arith,
    next,
    update_where-update_where e.id (λ x. record x { state = replaying }) as_requeued db.events
        (λ x. refl),
  )

  -- One replay on a database that does not fail.
  pub replay_event-Writes :
      (os : List Outcome)
      → find_where (has_id e.id) db.events ≡ some e
      → s.outcomes ≡ os
      → let (o, rest) = next_outcome os in
        Writes e db o rest (replay_event format_time e (quiet_link db s))
  replay_event-Writes [] found next =
      replay_event-cut_off open_failed [] (ap next_outcome next) refl
  replay_event-Writes (open_failed ∷ rest) found next =
      replay_event-cut_off open_failed rest (ap next_outcome next) refl
  replay_event-Writes (write_failed ∷ rest) found next =
      replay_event-cut_off write_failed rest (ap next_outcome next) refl
  replay_event-Writes (read_failed ∷ rest) found next =
      replay_event-cut_off read_failed rest (ap next_outcome next) refl
  replay_event-Writes (answered status ∷ rest) found next =
      replay_event-answered status rest found next

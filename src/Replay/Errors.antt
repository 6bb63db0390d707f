-- ===== src/Replay/Errors.antt =====
-- What a replay leaves behind when it does not deliver (internal/edge/replay/replay.go).
use liveurl.Prelude.{
  Bool, List, Text, [], any, arith, false, find_where, keep, leb, none, order_by-any, refl, some,
  true, update_where, ℕ, ◌++◌, ◌+◌, ◌<◌, ◌==◌, ◌∷◌, ◌≡◌, ◌≢◌, ◌≤◌,
}
use liveurl.Store.{WebhookEvent, database, queued, replaying}
use liveurl.Store.Events.{
  has_id, mark_delivered, mark_failed, mark_replaying, next_state, queue, received_before,
  requeue_event, update_event,
}
use liveurl.Store.Events.Rows.{find-update_self, update_where-update_where}
use liveurl.Replay.{
  Link, Outcome, answered, build_request, drain, open_failed, read_failed, replay_event, stops,
  store_failed, write_failed,
}
use liveurl.Store.Events.Fifo.{is_waiting, queued_events-quiet}

-- What MarkFailed writes into the row, when it has counted the attempt `n`.
abbrev pub as_failed : ℕ → ℕ → WebhookEvent → WebhookEvent
as_failed status n e = record e {
  state = next_state n;
  attempts = e.attempts + 1;
  last_status = status;
}

-- What RequeueEvent writes.
abbrev pub as_requeued : WebhookEvent → WebhookEvent
as_requeued e = record e { state = queued; attempts = 0; last_status = 0; delivered_at = none }

-- The exchange broke off before a response was read.
abbrev pub was_cut : Outcome → Bool
was_cut open_failed = true
was_cut write_failed = true
was_cut read_failed = true
was_cut (answered _) = false

module _ (format_time : ℕ → Text) where
  -- One event that the local app refuses with 500 or more, on a database that does not fail.
  pub replay_event-refused :
      (e r : WebhookEvent) (s : ℕ) (rest : List Outcome) (l : Link)
      → l.conn.faults ≡ []
      → l.session.outcomes ≡ answered s ∷ rest
      → 500 ≤ s
      → find_where (has_id e.id) l.conn.db.events ≡ some r
      → replay_event format_time e l ≡ (
        (s, none),
        record {
          conn = record {
            db = update_event e.id (as_failed s (r.attempts + 1)) l.conn.db;
            faults = [];
          };
          session = record {
            outcomes = rest;
            sent = l.session.sent ++ build_request format_time e ∷ [];
          };
        },
      )
  unfolding replay_event mark_replaying mark_failed
  replay_event-refused e r s rest l quiet next refused found = ground (
    arith,
    find-update_self e.id (λ x. record x { state = replaying }) l.conn.db.events r (λ x. refl)
        found,
    find-update_self e.id (λ x. record x { attempts = x.attempts + 1; last_status = s })
        (update_where (has_id e.id) (λ x. record x { state = replaying }) l.conn.db.events)
        (record r { state = replaying }) (λ x. refl),
    update_where-update_where e.id (λ x. record x { state = replaying })
        (λ x. record x { attempts = x.attempts + 1; last_status = s }) l.conn.db.events (λ x. refl),
    update_where-update_where e.id
        (λ x. record x { state = replaying; attempts = x.attempts + 1; last_status = s })
        (λ x. record x { state = next_state (r.attempts + 1) }) l.conn.db.events (λ x. refl),
  )

  -- An event that the local app refuses with 500 or more ends the drain: it alone was sent, its row
  -- has one attempt more and is dead if that was the last one and queued otherwise, every other row
  -- is as it was, and so is the rest of the database.
  pub drain-refused :
      (t s : ℕ) (e r : WebhookEvent) (es : List WebhookEvent) (rest : List Outcome) (l : Link)
      → t ≢ 0
      → l.conn.faults ≡ []
      → l.session.outcomes ≡ answered s ∷ rest
      → 500 ≤ s
      → queue t l.conn.db ≡ e ∷ es
      → find_where (has_id e.id) l.conn.db.events ≡ some r
      → let l' = drain format_time t l in
        (l'.session.sent ≡ l.session.sent ++ build_request format_time e ∷ [])
        × (l'.conn.db ≡ update_event e.id (as_failed s (r.attempts + 1)) l.conn.db)
        × (find_where (has_id e.id) l'.conn.db.events ≡ some (as_failed s (r.attempts + 1) r))
  unfolding drain
  drain-refused t s e r es rest l real quiet next refused front found =
      let numbered : (t == 0) ≡ false = ground arith in
      let stop : leb 500 s ≡ true = ground arith in
      rw
        (
          numbered,
          queued_events-quiet t l.conn quiet,
          front,
          replay_event-refused e r s rest l quiet next refused found,
          stop,
        )
        (
          refl,
          refl,
          find-update_self e.id (as_failed s (r.attempts + 1)) l.conn.db.events r (λ x. refl) found,
        )

  -- One event whose exchange breaks off before a response is read: its row is queued again with no
  -- attempt counted, and the caller gets an error.
  replay_event-cut :
      (e : WebhookEvent) (o : Outcome) (rest : List Outcome) (l : Link)
      → l.conn.faults ≡ []
      → l.session.outcomes ≡ o ∷ rest
      → was_cut o ≡ true
      → let (r, l') = replay_event format_time e l in
        (stops r ≡ true) × (l'.conn.db ≡ update_event e.id as_requeued l.conn.db)
  unfolding replay_event mark_replaying requeue_event
  replay_event-cut e o rest l quiet next cut = ground (
    arith,
    update_where-update_where e.id (λ x. record x { state = replaying }) as_requeued
        l.conn.db.events (λ x. refl),
  )

-- Rows of one id that are all being replayed are in no queue.
replaying-no_queue :
    (i u : ℕ) (xs : List WebhookEvent)
    → any
        (has_id i)
        (keep (is_waiting u) (update_where (has_id i) (λ x. record x { state = replaying }) xs))
      ≡ false
replaying-no_queue i u [] = refl
replaying-no_queue i u (x ∷ xs) = ground (arith, replaying-no_queue i u xs)

module _ (format_time : ℕ → Text) where
  -- Where the local app accepted the event and the UPDATE that should record it fails, the event
  -- stays in state replaying, and no tunnel's queue holds it: no later drain finds it.
  pub replay_event-lost :
      (u s : ℕ) (e r : WebhookEvent) (rest : List Outcome) (faults : List Bool) (l : Link)
      → l.conn.faults ≡ false ∷ true ∷ faults
      → l.session.outcomes ≡ answered s ∷ rest
      → s < 500
      → find_where (has_id e.id) l.conn.db.events ≡ some r
      → let (reply, l') = replay_event format_time e l in
        (reply ≡ (s, some (store_failed database)))
        × (find_where (has_id e.id) l'.conn.db.events ≡ some (record r { state = replaying }))
        × (any (has_id e.id) (queue u l'.conn.db) ≡ false)
  unfolding replay_event mark_replaying mark_delivered queue
  replay_event-lost u s e r rest faults l broken next accepted found = ground (
    arith,
    find-update_self e.id (λ x. record x { state = replaying }) l.conn.db.events r (λ x. refl)
        found,
    replaying-no_queue e.id u l.conn.db.events,
    order_by-any received_before (has_id e.id) (
        keep (is_waiting u)
          (update_where (has_id e.id) (λ x. record x { state = replaying }) l.conn.db.events)),
  )

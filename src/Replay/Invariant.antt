-- ===== src/Replay/Invariant.antt =====
-- The queue stays valid through a replay (internal/edge/replay/replay.go), however it ends.
use liveurl.Prelude.{Bool-cases, List, Text, [], arith, inl, inr, leb, ℕ, ◌==◌, ◌∷◌, ◌≡◌}
use liveurl.Store.{Conn, Done, Result, WebhookEvent, err, ok}
use liveurl.Store.Hoare.{EndsAt}
use liveurl.Store.Events.{mark_replaying, queued_events}
use liveurl.Store.Events.Retries.{
  IsReplaying, IsValid, ends-IsValid, mark_delivered-IsValid, mark_failed-IsValid,
  mark_replaying-IsValid, requeue_event-IsValid,
}
use liveurl.Replay.{
  Link, Outcome, Session, answered, drain, drain_listed, drain_loop, exchange, open_failed,
  read_failed, replay_event, replay_marked, reported, settle, stops, write_failed,
}

reported-IsValid :
    (status : ℕ) (r : Result Done × Conn)
    → EndsAt (λ _. IsValid) IsValid r
    → IsValid (reported status r).1.db
reported-IsValid status (ok a, c) h = h
reported-IsValid status (err x, c) h = h

settle-IsValid :
    (e : WebhookEvent) (o : Outcome) (c : Conn)
    → IsValid c.db
    → IsReplaying e.id c.db
    → IsValid (settle e o c).1.db
unfolding settle
settle-IsValid e open_failed c v b = ends-IsValid _ ((requeue_event-IsValid e.id).at c v)
settle-IsValid e write_failed c v b = ends-IsValid _ ((requeue_event-IsValid e.id).at c v)
settle-IsValid e read_failed c v b = ends-IsValid _ ((requeue_event-IsValid e.id).at c v)
settle-IsValid e (answered status) c v b = elim (Bool-cases (leb 500 status)) [
  | inl failed ↦
      rw failed (reported-IsValid status _ ((mark_failed-IsValid e.id status).at c (v, b)))
  | inr fine ↦ rw fine (reported-IsValid status _ ((mark_delivered-IsValid e.id status).at c v))
]

module _ (format_time : ℕ → Text) where
  marked-IsValid :
      (e : WebhookEvent) (m : Result Done × Conn) (s : Session)
      → EndsAt (λ _ db. IsValid db × IsReplaying e.id db) IsValid m
      → IsValid (replay_marked format_time e m s).1.conn.db
  marked-IsValid e (err x, c) s h = h
  marked-IsValid e (ok _, c) s h = settle-IsValid e (exchange format_time e s).0 c h.0 h.1

  -- Whatever fails on the way, one replay leaves the table valid: queued events have attempts
  -- left, dead ones have none.
  pub replay_event-IsValid :
      (e : WebhookEvent) (l : Link)
      → IsValid l.conn.db
      → IsValid (replay_event format_time e l).1.conn.db
  unfolding replay_event
  replay_event-IsValid e l v =
      marked-IsValid e (mark_replaying e.id l.conn) l.session
        ((mark_replaying-IsValid e.id).at l.conn v)

  drain_loop-IsValid :
      (es : List WebhookEvent) (l : Link)
      → IsValid l.conn.db
      → IsValid (drain_loop format_time es l).conn.db
  unfolding drain_loop
  drain_loop-IsValid [] l v = v
  drain_loop-IsValid (e ∷ es) l v = elim (Bool-cases (stops (replay_event format_time e l).0)) [
    | inl halt ↦ rw halt (replay_event-IsValid e l v)
    | inr go ↦
        rw go (drain_loop-IsValid es (replay_event format_time e l).1 (replay_event-IsValid e l v))
  ]

  listed-IsValid :
      (m : Result (List WebhookEvent) × Conn) (s : Session)
      → IsValid m.1.db
      → IsValid (drain_listed format_time m s).conn.db
  listed-IsValid (err x, c) s v = v
  listed-IsValid (ok es, c) s v = drain_loop-IsValid es (record { conn = c; session = s }) v

  pub queued_events-db : (t : ℕ) (c : Conn) → (queued_events t c).1.db ≡ c.db
  unfolding queued_events
  queued_events-db t c = ground arith

  -- Whatever statements fail and however the exchanges end, a drain leaves the table valid.
  pub drain-IsValid :
      (t : ℕ) (l : Link) → IsValid l.conn.db → IsValid (drain format_time t l).conn.db
  unfolding drain
  drain-IsValid t l v = elim (Bool-cases (t == 0)) [
    | inl zero_id ↦ rw zero_id v
    | inr real ↦
        rw real
          (listed-IsValid (queued_events t l.conn) l.session (rw (queued_events-db t l.conn) v))
  ]

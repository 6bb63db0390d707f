-- ===== src/Replay/Keeping.antt =====
-- A replay changes no tunnel, and keeps the events valid (internal/edge/replay/replay.go).
use mathlib.Core.Path.{subst}
use liveurl.Prelude.{List, Text, [], choose, leb, ℕ, ◌==◌, ◌∷◌, ◌≡◌}
use liveurl.Store.{Conn, Db, Done, Result, WebhookEvent, err, ok}
use liveurl.Store.Events.{mark_delivered, mark_failed, mark_replaying, queued_events}
use liveurl.Store.Keeping.Evolution.{Evolves}
use liveurl.Store.Keeping.Queue.{
  SameTunnels, SameTunnels-Evolves, SameTunnels-refl, SameTunnels-trans, mark_delivered-EventsOnly,
  mark_failed-EventsOnly, mark_replaying-EventsOnly, requeue_event-EventsOnly,
}
use liveurl.Replay.{
  Link, Outcome, Session, answered, drain, drain_listed, drain_loop, exchange, open_failed,
  read_failed, replay_event, replay_marked, reported, settle, stops, write_failed,
}
use liveurl.Replay.Invariant.{drain-IsValid, queued_events-db, replay_event-IsValid}

reported-SameTunnels :
    (db : Db) (status : ℕ) (r : Result Done × Conn)
    → SameTunnels db r.1.db
    → SameTunnels db (reported status r).1.db
reported-SameTunnels db status (ok a, c) h = h
reported-SameTunnels db status (err x, c) h = h

settle-SameTunnels :
    (e : WebhookEvent) (o : Outcome) (c : Conn) → SameTunnels c.db (settle e o c).1.db
unfolding settle
settle-SameTunnels e open_failed c = requeue_event-EventsOnly e.id c
settle-SameTunnels e write_failed c = requeue_event-EventsOnly e.id c
settle-SameTunnels e read_failed c = requeue_event-EventsOnly e.id c
settle-SameTunnels e (answered status) c = reported-SameTunnels c.db status _ (
    choose (λ (r : Result Done × Conn). SameTunnels c.db r.1.db) (leb 500 status)
      (mark_failed e.id status c) (mark_delivered e.id status c)
      (mark_failed-EventsOnly e.id status c) (mark_delivered-EventsOnly e.id status c))

module _ (format_time : ℕ → Text) where
  marked-SameTunnels :
      (e : WebhookEvent) (db : Db) (m : Result Done × Conn) (s : Session)
      → SameTunnels db m.1.db
      → SameTunnels db (replay_marked format_time e m s).1.conn.db
  marked-SameTunnels e db (err x, c) s h = h
  marked-SameTunnels e db (ok _, c) s h =
      SameTunnels-trans db c.db _ h (settle-SameTunnels e (exchange format_time e s).0 c)

  replay_event-SameTunnels :
      (e : WebhookEvent) (l : Link) → SameTunnels l.conn.db (replay_event format_time e l).1.conn.db
  unfolding replay_event
  replay_event-SameTunnels e l =
      marked-SameTunnels e l.conn.db (mark_replaying e.id l.conn) l.session
        (mark_replaying-EventsOnly e.id l.conn)

  drain_loop-SameTunnels :
      (es : List WebhookEvent) (l : Link)
      → SameTunnels l.conn.db (drain_loop format_time es l).conn.db
  unfolding drain_loop
  drain_loop-SameTunnels [] l = SameTunnels-refl l.conn.db
  drain_loop-SameTunnels (e ∷ es) l =
      let x = replay_event format_time e l in
      let first : SameTunnels l.conn.db x.1.conn.db = replay_event-SameTunnels e l in
      choose (λ (k : Link). SameTunnels l.conn.db k.conn.db) (stops x.0) x.1
        (drain_loop format_time es x.1) first
        (SameTunnels-trans l.conn.db x.1.conn.db _ first (drain_loop-SameTunnels es x.1))

  listed-SameTunnels :
      (db : Db) (m : Result (List WebhookEvent) × Conn) (s : Session)
      → m.1.db ≡ db
      → SameTunnels db (drain_listed format_time m s).conn.db
  listed-SameTunnels db (err x, c) s e = rw e (SameTunnels-refl db)
  listed-SameTunnels db (ok es, c) s e =
      subst
        (λ (a : Db).
          SameTunnels a (drain_loop format_time es (record { conn = c; session = s })).conn.db)
        e (drain_loop-SameTunnels es (record { conn = c; session = s }))

  drain-SameTunnels : (t : ℕ) (l : Link) → SameTunnels l.conn.db (drain format_time t l).conn.db
  unfolding drain
  drain-SameTunnels t l =
      choose (λ (k : Link). SameTunnels l.conn.db k.conn.db) (t == 0) l
        (drain_listed format_time (queued_events t l.conn) l.session) (SameTunnels-refl l.conn.db)
        (listed-SameTunnels l.conn.db (queued_events t l.conn) l.session
          (queued_events-db format_time t l.conn))

  pub replay_event-Evolves :
      (e : WebhookEvent) (l : Link) → Evolves l.conn.db (replay_event format_time e l).1.conn.db
  replay_event-Evolves e l =
      SameTunnels-Evolves l.conn.db _ (replay_event-SameTunnels e l)
        (replay_event-IsValid format_time e l)

  pub drain-Evolves : (t : ℕ) (l : Link) → Evolves l.conn.db (drain format_time t l).conn.db
  drain-Evolves t l =
      SameTunnels-Evolves l.conn.db _ (drain-SameTunnels t l) (drain-IsValid format_time t l)

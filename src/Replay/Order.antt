-- ===== src/Replay/Order.antt =====
-- The order in which Drain (internal/edge/replay/replay.go) sends the queue.
use mathlib.Core.List.{append_assoc, append-nil}
use liveurl.Prelude.{
  Bool-cases, List, Text, [], arith, false, inl, inr, map, refl, suc, sym, take, true, ℕ, ◌++◌,
  ◌==◌, ◌∙◌, ◌∷◌, ◌≡◌, ◌⊎◌,
}
use liveurl.Http.{Request}
use liveurl.Store.{Conn, Done, Result, WebhookEvent, database, err, ok}
use liveurl.Store.Events.{mark_replaying, queue, queued_events}
use liveurl.Replay.{
  Link, Reply, Session, build_request, drain, drain_listed, drain_loop, exchange, replay_event,
  replay_marked, settle, stops,
}

module _ (format_time : ℕ → Text) where
  -- What one event adds to the requests sent; where it adds nothing, the drain ends with it.
  abbrev SentOrStops : WebhookEvent → List Request → Reply → List Request → Type 0
  SentOrStops e before r after =
      (after ≡ before ++ build_request format_time e ∷ []) ⊎ ((after ≡ before) × (stops r ≡ true))

  settle-SentOrStops :
      (e : WebhookEvent) (s : Session) (c : Conn)
      → SentOrStops e s.sent
          (settle e (exchange format_time e s).0 c).0
          (exchange format_time e s).1.sent
  unfolding exchange settle
  settle-SentOrStops e s c = ground arith

  marked-SentOrStops :
      (e : WebhookEvent) (m : Result Done × Conn) (s : Session)
      → let (r, l') = replay_marked format_time e m s in SentOrStops e s.sent r l'.session.sent
  marked-SentOrStops e (err x, c) s = inr (refl, refl)
  marked-SentOrStops e (ok _, c) s = settle-SentOrStops e s c

  replay_event-SentOrStops :
      (e : WebhookEvent) (l : Link)
      → let (r, l') = replay_event format_time e l in SentOrStops e l.session.sent r l'.session.sent
  unfolding replay_event
  replay_event-SentOrStops e l = marked-SentOrStops e (mark_replaying e.id l.conn) l.session

  -- After `before`, the requests of a beginning of the list, each event once and in its order.
  abbrev pub SendsPrefix : List WebhookEvent → List Request → List Request → Type 0
  SendsPrefix es before after =
      (n : ℕ) × (after ≡ before ++ map (build_request format_time) (take n es))

  SendsPrefix-nil : (es : List WebhookEvent) {s t : List Request} → t ≡ s → SendsPrefix es s t
  SendsPrefix-nil es {s} e = (0, e ∙ sym (append-nil s))

  SendsPrefix-one :
      (e : WebhookEvent) (es : List WebhookEvent) {before after : List Request} (r : Reply)
      → SentOrStops e before r after
      → SendsPrefix (e ∷ es) before after
  SendsPrefix-one e es r (inl sent) = (1, sent)
  SendsPrefix-one e es r (inr same) = SendsPrefix-nil (e ∷ es) same.0

  SendsPrefix-cons :
      (e : WebhookEvent) (es : List WebhookEvent) {before mid after : List Request} (r : Reply)
      → SentOrStops e before r mid
      → stops r ≡ false
      → SendsPrefix es mid after
      → SendsPrefix (e ∷ es) before after
  SendsPrefix-cons e es {before} r (inl sent) go (n, ih) =
      (suc n, ih ∙ rw sent (append_assoc before (build_request format_time e ∷ []) _))
  SendsPrefix-cons e es r (inr same) go ih = cc

  pub drain_loop-SendsPrefix :
      (es : List WebhookEvent) (l : Link)
      → SendsPrefix es l.session.sent (drain_loop format_time es l).session.sent
  unfolding drain_loop
  drain_loop-SendsPrefix [] l = SendsPrefix-nil [] refl
  drain_loop-SendsPrefix (e ∷ es) l = elim (Bool-cases (stops (replay_event format_time e l).0)) [
    | inl halt ↦
        rw halt
          (SendsPrefix-one e es (replay_event format_time e l).0 (replay_event-SentOrStops e l))
    | inr go ↦ rw go (
        SendsPrefix-cons e es (replay_event format_time e l).0 (replay_event-SentOrStops e l) go
          (drain_loop-SendsPrefix es (replay_event format_time e l).1))
  ]

  drain_listed-SendsPrefix :
      (t : ℕ) (r : Result (List WebhookEvent)) (c : Conn) (s : Session) (es : List WebhookEvent)
      → (r ≡ ok es) ⊎ (r ≡ err database)
      → SendsPrefix es s.sent (drain_listed format_time (r, c) s).session.sent
  drain_listed-SendsPrefix t r c s es (inl e) =
      rw e (drain_loop-SendsPrefix es (record { conn = c; session = s }))
  drain_listed-SendsPrefix t r c s es (inr e) = rw e (SendsPrefix-nil es refl)

  queued_events-cases :
      (t : ℕ) (c : Conn)
      → ((queued_events t c).0 ≡ ok (queue t c.db)) ⊎ ((queued_events t c).0 ≡ err database)
  unfolding queued_events
  queued_events-cases t c = ground arith

  -- Whatever statements fail and however the exchanges end, a drain of a tunnel sends the requests
  -- of a beginning of the tunnel's queue: in the queue's order, each event once, none left out.
  pub drain-SendsPrefix :
      (t : ℕ) (l : Link)
      → SendsPrefix (queue t l.conn.db) l.session.sent (drain format_time t l).session.sent
  unfolding drain
  drain-SendsPrefix t l = elim (Bool-cases (t == 0)) [
    | inl zero_id ↦ rw zero_id (SendsPrefix-nil (queue t l.conn.db) refl)
    | inr real ↦ rw real (
        drain_listed-SendsPrefix t (queued_events t l.conn).0 (queued_events t l.conn).1 l.session
          (queue t l.conn.db) (queued_events-cases t l.conn))
  ]

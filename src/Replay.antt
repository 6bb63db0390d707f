-- ===== src/Replay.antt =====
-- internal/edge/replay/replay.go: draining a tunnel's queue over a connected agent.
pub mod Termination
pub mod Refinement
pub mod Settled
pub mod Backlog
pub mod Tests
pub mod Order
pub mod Invariant
pub mod Keeping
pub mod Delivery
pub mod Errors
use liveurl.Prelude.{
  Bool, List, Option, Text, [], codes, false, if◌then◌else◌, leb, none, some, true, ℕ, ◌++◌, ◌==◌,
  ◌∷◌,
}
use liveurl.Http.{Request, header_get, header_set}
use liveurl.Store.{Conn, Done, Failure, Result, WebhookEvent, err, ok}
use liveurl.Store.Events.{mark_delivered, mark_failed, mark_replaying, queued_events, requeue_event}

-- How one exchange over the session ends: the stream cannot be opened, the request cannot be
-- written, the response cannot be read, or the local app answers with a status.
pub data Outcome : Type 0 where
  open_failed write_failed read_failed : Outcome
  answered : ℕ → Outcome

-- An agent session: how its exchanges will end, and the requests that were written whole.
pub record Session : Type 0 where
  pub outcomes : List Outcome
  pub sent : List Request

pub record Link : Type 0 where
  pub conn : Conn
  pub session : Session

pub data ReplayError : Type 0 where
  mark_replaying_failed : Failure → ReplayError
  open_stream_failed write_request_failed read_response_failed : ReplayError
  store_failed : Failure → ReplayError

-- Go's `(int, error)`.
abbrev pub Reply : Type 0
Reply = ℕ × Option ReplayError

abbrev pub was_written : Outcome → Bool
was_written open_failed = false
was_written write_failed = false
was_written read_failed = true
was_written (answered _) = true

-- A session that has no more outcomes is gone: opening a stream on it fails.
abbrev pub next_outcome : List Outcome → Outcome × List Outcome
next_outcome [] = (open_failed, [])
next_outcome (o ∷ rest) = (o, rest)

abbrev pub requeued : ℕ → ReplayError → Conn → Reply × Conn
requeued i x c = ((0, some x), (requeue_event i c).1)

abbrev pub reported : ℕ → Result Done × Conn → Reply × Conn
reported status (ok _, c) = ((status, none), c)
reported status (err x, c) = ((status, some (store_failed x)), c)

-- What is stored once the exchange has ended.
unfoldable pub settle : WebhookEvent → Outcome → Conn → Reply × Conn
settle e open_failed c = requeued e.id open_stream_failed c
settle e write_failed c = requeued e.id write_request_failed c
settle e read_failed c = requeued e.id read_response_failed c
settle e (answered status) c =
    reported status
      (if leb 500 status then mark_failed e.id status c else mark_delivered e.id status c)

-- Drain stops at an error and at a status of 500 or more.
abbrev pub stops : Reply → Bool
stops (_, some _) = true
stops (status, none) = leb 500 status

module _ (format_time : ℕ → Text) where
  -- `time.Time.Format(time.RFC3339)` is `format_time`. `req.Host` stays empty without a Host header.
  unfoldable pub build_request : WebhookEvent → Request
  unfolding header_get header_set
  build_request e = record {
    method = e.method;
    path = e.path;
    raw_query = e.query;
    host = header_get (codes "Host") e.headers;
    header =
        header_set (codes "X-Liveurl-Original-Timestamp") (format_time e.received_at)
          (header_set (codes "X-Liveurl-Buffered") (codes "true") e.headers);
    body = e.body;
  }

  -- OpenStream, Write and ReadResponse
  unfoldable pub exchange : WebhookEvent → Session → Outcome × Session
  unfolding build_request
  exchange e s =
      let (o, rest) = next_outcome s.outcomes in
      (
        o,
        record {
          outcomes = rest;
          sent = if was_written o then s.sent ++ build_request e ∷ [] else s.sent;
        },
      )

  abbrev pub replay_marked : WebhookEvent → Result Done × Conn → Session → Reply × Link
  replay_marked e (err x, c) s =
      ((0, some (mark_replaying_failed x)), record { conn = c; session = s })
  replay_marked e (ok _, c) s =
      let (o, s') = exchange e s in
      let (r, c') = settle e o c in (r, record { conn = c'; session = s' })

  -- `ReplayEvent`
  unfoldable pub replay_event : WebhookEvent → Link → Reply × Link
  unfolding exchange settle
  replay_event e l = replay_marked e (mark_replaying e.id l.conn) l.session

  unfoldable pub drain_loop : List WebhookEvent → Link → Link
  drain_loop [] l = l
  drain_loop (e ∷ es) l =
      let (r, l') = replay_event e l in let rest = drain_loop es l' in if stops r then l' else rest

  abbrev pub drain_listed : Result (List WebhookEvent) × Conn → Session → Link
  drain_listed (err x, c) s = record { conn = c; session = s }
  drain_listed (ok es, c) s = drain_loop es (record { conn = c; session = s })

  -- `Drain`
  unfoldable pub drain : ℕ → Link → Link
  unfolding drain_loop
  drain t l = if t == 0 then l else drain_listed (queued_events t l.conn) l.session

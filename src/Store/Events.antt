-- ===== src/Store/Events.antt =====
-- internal/store/events.go: the webhook queue.
pub mod Rows
pub mod Retries
pub mod Fifo
pub mod Waiting
use liveurl.Store.Json.{IsAscii, json_header, json_header-ascii}
use liveurl.Store.Tunnels.{has_tunnel}
use liveurl.Prelude.{
  All, Bool, List, Option, Text, [], false, find_where, if◌then◌else◌, keep, leb, ltb, none, not,
  order_by, refl, some, true, update_where, ℕ, ◌&&◌, ◌++◌, ◌+◌, ◌==◌, ◌||◌, ◌∷◌, ◌≡◌,
}
use liveurl.Http.{Header}
use liveurl.Store.{
  Db, Done, EventState, Exec, Result, WebhookEvent, database, dead, delivered, err, no_rows,
  not_found, ok, queued, replaying, statement, ◌>>=◌, ◌>>◌,
}

abbrev pub max_replay_attempts : ℕ
max_replay_attempts = 5

abbrev pub has_id : ℕ → WebhookEvent → Bool
has_id i e = e.id == i

abbrev pub in_tunnel : ℕ → WebhookEvent → Bool
in_tunnel t e = e.tunnel_id == t

abbrev pub is_state : EventState → EventState → Bool
is_state queued queued = true
is_state replaying replaying = true
is_state delivered delivered = true
is_state dead dead = true
is_state _ _ = false

-- ORDER BY received_at, id
abbrev pub received_before : WebhookEvent → WebhookEvent → Bool
received_before a b =
    ltb a.received_at b.received_at || (a.received_at == b.received_at && leb a.id b.id)

-- UPDATE webhook_events SET … WHERE id=$1
abbrev pub update_event : ℕ → (WebhookEvent → WebhookEvent) → Db → Db
update_event i f db = record db { events = update_where (has_id i) f db.events }

-- The new row, in state queued; the other columns have their defaults.
abbrev pub new_event : Db → ℕ → Text → Text → Text → Header → Text → WebhookEvent
new_event db tunnel_id method path query headers body = record {
  id = db.next_event;
  tunnel_id = tunnel_id;
  method = method;
  path = path;
  query = query;
  headers = json_header headers;
  body = body;
  received_at = db.now;
  state = queued;
  attempts = 0;
  last_status = 0;
  delivered_at = none;
}

-- A number of the sequence that no row has got.
abbrev pub number_spent : Db → Db
number_spent db = record db { next_event = db.next_event + 1 }

-- What a new row holds of the request that it is for: the row is queued now, with the next number.
-- Header values keep their characters in UTF-8, and so are as they were where they are ASCII.
pub record IsStored (db : Db) (t : ℕ) (method path query : Text) (headers : Header) (body : Text)
    (e : WebhookEvent) : Type 0 where
  pub number : e.id ≡ db.next_event
  pub tunnel : e.tunnel_id ≡ t
  pub same_method : e.method ≡ method
  pub same_path : e.path ≡ path
  pub same_query : e.query ≡ query
  pub same_body : e.body ≡ body
  pub through_json : e.headers ≡ json_header headers
  pub verbatim : All (λ kv. All IsAscii kv.1) headers → e.headers ≡ headers
  pub time : e.received_at ≡ db.now
  pub waits : e.state ≡ queued
  pub untried : e.attempts ≡ 0

pub new_event-IsStored :
    (db : Db) (t : ℕ) (method path query : Text) (headers : Header) (body : Text)
    → IsStored db t method path query headers body (new_event db t method path query headers body)
new_event-IsStored db t method path query headers body = record {
  number = refl;
  tunnel = refl;
  same_method = refl;
  same_path = refl;
  same_query = refl;
  same_body = refl;
  through_json = refl;
  verbatim = json_header-ascii headers;
  time = refl;
  waits = refl;
  untried = refl;
}

-- INSERT … RETURNING id, by whether the tunnel that the row REFERENCES is in the table. The number of
-- a row that is refused is spent.
abbrev pub insert_event : ℕ → Text → Text → Text → Header → Text → Bool → Db → Result ℕ × Db
insert_event tunnel_id method path query headers body false db = (err database, number_spent db)
insert_event tunnel_id method path query headers body true db = (
  ok db.next_event,
  record db {
    events = db.events ++ new_event db tunnel_id method path query headers body ∷ [];
    next_event = db.next_event + 1;
  },
)

unfoldable pub enqueue_event : ℕ → Text → Text → Text → Header → Text → Exec ℕ
unfolding statement
enqueue_event tunnel_id method path query headers body =
    statement
      λ db. insert_event tunnel_id method path query headers body (has_tunnel tunnel_id db) db

-- The queued events of a tunnel, oldest first.
unfoldable pub queue : ℕ → Db → List WebhookEvent
queue t db =
    order_by received_before (keep (λ e. in_tunnel t e && is_state e.state queued) db.events)

unfoldable pub queued_events : ℕ → Exec (List WebhookEvent)
unfolding statement
queued_events t = statement λ db. (ok (queue t db), db)

-- `none` is the empty filter.
unfoldable pub list_events : ℕ → Option EventState → Exec (List WebhookEvent)
unfolding statement
list_events t none =
    statement λ db. (ok (order_by received_before (keep (in_tunnel t) db.events)), db)
list_events t (some s) = statement λ db.
    (ok (order_by received_before (keep (λ e. in_tunnel t e && is_state e.state s) db.events)), db)

abbrev pub or_not_found : {A : Type 0} → Option A → Result A
or_not_found none = err not_found
or_not_found (some a) = ok a

unfoldable pub event_by_id : ℕ → Exec WebhookEvent
unfolding statement
event_by_id i = statement λ db. (or_not_found (find_where (has_id i) db.events), db)

unfoldable pub mark_replaying : ℕ → Exec Done
unfolding statement
mark_replaying i = statement λ db. (ok tt, update_event i (λ e. record e { state = replaying }) db)

unfoldable pub mark_delivered : ℕ → ℕ → Exec Done
unfolding statement
mark_delivered i status = statement λ db. (
  ok tt,
  update_event i
      (λ e. record e {
        state = delivered;
        attempts = e.attempts + 1;
        last_status = status;
        delivered_at = some db.now;
      })
      db,
)

abbrev pub attempts_of : Option WebhookEvent → Result ℕ
attempts_of none = err no_rows
attempts_of (some e) = ok e.attempts

-- UPDATE … SET attempts=attempts+1, last_status=$2 … RETURNING attempts
unfoldable pub count_attempt : ℕ → ℕ → Exec ℕ
unfolding statement
count_attempt i status = statement λ db.
    let db' =
      update_event i (λ e. record e { attempts = e.attempts + 1; last_status = status }) db in
    (attempts_of (find_where (has_id i) db'.events), db')

unfoldable pub set_state : ℕ → EventState → Exec Done
unfolding statement
set_state i s = statement λ db. (ok tt, update_event i (λ e. record e { state = s }) db)

abbrev pub next_state : ℕ → EventState
next_state attempts = if leb max_replay_attempts attempts then dead else queued

unfoldable pub mark_failed : ℕ → ℕ → Exec Done
unfolding count_attempt set_state ◌>>=◌
mark_failed i status = do attempts ← count_attempt i status; set_state i (next_state attempts)

unfoldable pub requeue_event : ℕ → Exec Done
unfolding statement
requeue_event i = statement λ db. (
  ok tt,
  update_event i
      (λ e. record e { state = queued; attempts = 0; last_status = 0; delivered_at = none }) db,
)

unfoldable pub clear_events : ℕ → Exec Done
unfolding statement
clear_events t =
    statement λ db. (ok tt, record db { events = keep (λ e. not (in_tunnel t e)) db.events })

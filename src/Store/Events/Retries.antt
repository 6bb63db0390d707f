-- ===== src/Store/Events/Retries.antt =====
-- The bookkeeping of replay attempts (internal/store/events.go) under every operation on the queue.
use liveurl.Store.Tunnels.{has_tunnel}
use liveurl.Prelude.{
  All, All-append, All-keep, All-update_where, All-weaken, Bool, Option, Text, [], ap, arith, false,
  find_where, keep, none, not, refl, some, true, ℕ, ◌++◌, ◌+◌, ◌<◌, ◌∙◌, ◌∷◌, ◌≡◌, ◌≤◌,
}
use liveurl.Http.{Header}
use liveurl.Store.{Conn, Db, Exec, Result, WebhookEvent, dead, err, ok, queued, replaying}
use liveurl.Store.Hoare.{Ends, EndsAt, Triple, Triple-bind, Triple-statement}
use liveurl.Store.Events.{
  attempts_of, clear_events, count_attempt, enqueue_event, has_id, in_tunnel, insert_event,
  mark_delivered, mark_failed, mark_replaying, max_replay_attempts, new_event, next_state,
  requeue_event, set_state, update_event,
}
use liveurl.Store.Events.Rows.{
  All-update_found, IsKeyed, IsKeyed-Touches, IsKeyed-append, IsKeyed-keep, KeepsId, find-updated,
}

-- A queued event has attempts left, and a dead one has none.
pub record IsRetryable (e : WebhookEvent) : Type 0 where
  pub unspent : e.state ≡ queued → e.attempts < max_replay_attempts
  pub spent : e.state ≡ dead → max_replay_attempts ≤ e.attempts

-- The table: ids are a primary key that the sequence has not reached, no row is younger than the
-- clock, and each row has its attempts in order.
pub record IsValid (db : Db) : Type 0 where
  pub keyed : IsKeyed db.events
  pub below : All (λ e. e.id < db.next_event) db.events
  pub past : All (λ e. e.received_at ≤ db.now) db.events
  pub retryable : All IsRetryable db.events

-- An update of the row of one id keeps the table valid if it keeps the row's id and time of
-- receipt, and its attempts in order.
pub update_event-IsValid :
    (i : ℕ) (f : WebhookEvent → WebhookEvent) {db : Db}
    → KeepsId f
    → ((r : WebhookEvent) → (f r).received_at ≡ r.received_at)
    → ((r : WebhookEvent)
        → find_where (has_id i) db.events ≡ some r
        → IsRetryable r
        → IsRetryable (f r))
    → IsValid db
    → IsValid (update_event i f db)
update_event-IsValid i f {db} k time keep v = record {
  keyed = IsKeyed-Touches (record { change = f; keeps_id = k; rows = refl }) v.keyed;
  below = All-update_where _ (has_id i) f db.events (λ r h. rw (k r) h) v.below;
  past = All-update_where _ (has_id i) f db.events (λ r h. rw (time r) h) v.past;
  retryable = All-update_found i f IsRetryable db.events v.keyed keep v.retryable;
}

-- The row of the id, if there is one, is being replayed.
abbrev pub IsReplaying : ℕ → Db → Type 0
IsReplaying i db =
    (r : WebhookEvent) → find_where (has_id i) db.events ≡ some r → r.state ≡ replaying

-- … and has been tried so often.
abbrev HasTried : ℕ → ℕ → Db → Type 0
HasTried i n db = (r : WebhookEvent) → find_where (has_id i) db.events ≡ some r → r.attempts ≡ n

module _ {A : Type 0} where
  -- The action keeps the table valid, whether it returns or fails.
  abbrev pub KeepsValid : Exec A → Type 0
  KeepsValid m = Triple IsValid m (λ _. IsValid) IsValid

pub ends-IsValid :
    {A : Type 0} (r : Result A × Conn) → EndsAt (λ _. IsValid) IsValid r → IsValid r.1.db
ends-IsValid (ok a, c) h = h
ends-IsValid (err x, c) h = h

pub requeue_event-IsValid : (i : ℕ) → KeepsValid (requeue_event i)
unfolding requeue_event
requeue_event-IsValid i =
    Triple-statement _
      (λ db v. update_event-IsValid i _ (λ r. refl) (λ r. refl) (λ r e h. ground arith) v)
      (λ db v. v)

pub mark_delivered-IsValid : (i status : ℕ) → KeepsValid (mark_delivered i status)
unfolding mark_delivered
mark_delivered-IsValid i status =
    Triple-statement _
      (λ db v. update_event-IsValid i _ (λ r. refl) (λ r. refl) (λ r e h. ground arith) v)
      (λ db v. v)

pub mark_replaying-IsValid :
    (i : ℕ) → Triple IsValid (mark_replaying i) (λ _ db. IsValid db × IsReplaying i db) IsValid
unfolding mark_replaying
mark_replaying-IsValid i =
    Triple-statement _
      (λ db v. (
        update_event-IsValid i _ (λ r. refl) (λ r. refl) (λ r e h. ground arith) v,
        λ r e.
            let (s, _, is) =
              find-updated i (λ x. record x { state = replaying }) db.events r (λ x. refl) e in
            ap (λ (x : WebhookEvent). x.state) is,
      ))
      (λ db v. v)

abbrev tried : ℕ → WebhookEvent → WebhookEvent
tried status e = record e { attempts = e.attempts + 1; last_status = status }

module _ (i status : ℕ) (db : Db) (h : IsValid db × IsReplaying i db) where
  tried-IsValid : IsValid (update_event i (tried status) db)
  tried-IsValid =
      update_event-IsValid i (tried status) (λ r. refl) (λ r. refl)
        (λ r e k. let busy = h.1 r e in ground arith) h.0

  counted :
      (o : Option WebhookEvent)
      → find_where (has_id i) (update_event i (tried status) db).events ≡ o
      → Ends
          (λ n db'. IsValid db' × IsReplaying i db' × HasTried i n db')
          IsValid
          (attempts_of o, update_event i (tried status) db)
  counted none e = tried-IsValid
  counted (some r) e = (
    tried-IsValid,
    λ s p.
        let (u, q, is) = find-updated i (tried status) db.events s (λ x. refl) p in
        ap (λ (x : WebhookEvent). x.state) is ∙ h.1 u q,
    λ s p. cc,
  )

count_attempt-IsValid :
    (i status : ℕ)
    → Triple
        (λ db. IsValid db × IsReplaying i db)
        (count_attempt i status)
        (λ n db. IsValid db × IsReplaying i db × HasTried i n db)
        IsValid
unfolding count_attempt
count_attempt-IsValid i status =
    Triple-statement _ (λ db h. counted i status db h _ refl) (λ db h. h.0)

set_next_state-IsValid :
    (i n : ℕ)
    → Triple
        (λ db. IsValid db × IsReplaying i db × HasTried i n db)
        (set_state i (next_state n))
        (λ _. IsValid)
        IsValid
unfolding set_state
set_next_state-IsValid i n =
    Triple-statement _
      (λ db h.
        update_event-IsValid i (λ e. record e { state = next_state n }) (λ r. refl) (λ r. refl)
          (λ r e k. let same = h.2 r e in ground arith) h.0)
      (λ db h. h.0)

pub mark_failed-IsValid :
    (i status : ℕ)
    → Triple (λ db. IsValid db × IsReplaying i db) (mark_failed i status) (λ _. IsValid) IsValid
unfolding mark_failed
mark_failed-IsValid i status =
    Triple-bind (count_attempt i status) (λ n. set_state i (next_state n))
      (count_attempt-IsValid i status) (λ n. set_next_state-IsValid i n)

append-IsValid :
    (n : WebhookEvent) (db : Db)
    → n.id ≡ db.next_event
    → n.received_at ≡ db.now
    → IsRetryable n
    → IsValid db
    → IsValid (record db { events = db.events ++ n ∷ []; next_event = db.next_event + 1 })
append-IsValid n db same_id same_time fresh v = record {
  keyed = IsKeyed-append db.events n v.keyed (rw same_id v.below);
  below =
      All-append (λ e. e.id < db.next_event + 1) db.events (n ∷ [])
        (All-weaken (λ e. e.id < db.next_event) (λ e. e.id < db.next_event + 1) db.events
          (λ e h. omega arith) v.below)
        (omega arith, tt);
  past = All-append (λ e. e.received_at ≤ db.now) db.events (n ∷ []) v.past (omega arith, tt);
  retryable = All-append IsRetryable db.events (n ∷ []) v.retryable (fresh, tt);
}

-- A new event is valid: its id is fresh, and it is received now.
pub enqueue_event-IsValid :
    (t : ℕ) (method path query : Text) (headers : Header) (body : Text)
    → KeepsValid (enqueue_event t method path query headers body)
unfolding enqueue_event
enqueue_event-IsValid t method path query headers body =
    Triple-statement _ (λ db v. inserted-IsValid db (has_tunnel t db) v) (λ db v. v)
  where
    inserted-IsValid :
        (db : Db) (known : Bool)
        → IsValid db
        → Ends (λ _. IsValid) IsValid (insert_event t method path query headers body known db)
    inserted-IsValid db false v = record {
      keyed = v.keyed;
      below =
          All-weaken (λ e. e.id < db.next_event) (λ e. e.id < db.next_event + 1) db.events
            (λ e h. omega (arith, h)) v.below;
      past = v.past;
      retryable = v.retryable;
    }
    inserted-IsValid db true v =
        append-IsValid (new_event db t method path query headers body) db refl refl
          (record { unspent = λ e. omega arith; spent = λ e. cc }) v

pub clear_events-IsValid : (t : ℕ) → KeepsValid (clear_events t)
unfolding clear_events
clear_events-IsValid t =
    Triple-statement _
      (λ db v. record {
        keyed = IsKeyed-keep (λ e. not (in_tunnel t e)) db.events v.keyed;
        below = All-keep _ _ db.events v.below;
        past = All-keep _ _ db.events v.past;
        retryable = All-keep _ _ db.events v.retryable;
      })
      (λ db v. v)

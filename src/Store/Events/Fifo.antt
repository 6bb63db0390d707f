-- ===== src/Store/Events/Fifo.antt =====
-- The queue of internal/store/events.go is first in, first out.
use mathlib.Core.List.{Perm, append-nil}
use liveurl.Store.Tunnels.{has_tunnel}
use liveurl.Prelude.{
  All, All-keep, All-weaken, Bool, Bool-cases, IsOrdered, List, Text, [], arith, false,
  if◌then◌else◌, inl, inr, keep, keep-All, keep-append, order_by-All, order_by-IsOrdered,
  order_by-last, order_by-nil, order_by-perm, refl, true, ℕ, ◌&&◌, ◌++◌, ◌<◌, ◌==◌, ◌∙◌, ◌∷◌, ◌≡◌,
  ◌≤◌, ◌⊎◌,
}
use liveurl.Store.{Conn, Db, WebhookEvent, ok, queued}
use liveurl.Http.{Header}
use liveurl.Store.Hoare.{Ends, EndsAt, Triple-statement}
use liveurl.Store.Events.{
  enqueue_event, in_tunnel, insert_event, is_state, new_event, number_spent, queue, queued_events,
  received_before,
}
use liveurl.Store.Events.Retries.{IsValid}

pub received_before-total :
    (a b : WebhookEvent) → received_before a b ≡ false → received_before b a ≡ true
received_before-total a b h = ground arith

pub received_before_trans :
    (a b c : WebhookEvent)
    → received_before a b ≡ true
    → received_before b c ≡ true
    → received_before a c ≡ true
received_before_trans a b c h k = ground arith

-- The events that QueuedEvents selects.
abbrev pub is_waiting : ℕ → WebhookEvent → Bool
is_waiting t e = in_tunnel t e && is_state e.state queued

-- The queue holds exactly the queued rows of the tunnel, each as often, in order of receipt.
pub queue_lem :
    (t : ℕ) (db : Db)
    → IsOrdered received_before (queue t db)
      × Perm (queue t db) (keep (is_waiting t) db.events)
      × All (λ e. (e.tunnel_id ≡ t) × (e.state ≡ queued)) (queue t db)
unfolding queue
queue_lem t db = (
  order_by-IsOrdered received_before received_before-total received_before_trans _,
  order_by-perm received_before _,
  order_by-All received_before (λ e. (e.tunnel_id ≡ t) × (e.state ≡ queued)) _
      (All-weaken (λ e. is_waiting t e ≡ true) (λ e. (e.tunnel_id ≡ t) × (e.state ≡ queued))
        (keep (is_waiting t) db.events) (λ e h. waiting e h) (keep-All (is_waiting t) db.events)),
)
  where
    waiting : (e : WebhookEvent) → is_waiting t e ≡ true → (e.tunnel_id ≡ t) × (e.state ≡ queued)
    waiting e h = ground arith

pub queue-none_waits : (t : ℕ) (db : Db) → keep (is_waiting t) db.events ≡ [] → queue t db ≡ []
unfolding queue
queue-none_waits t db h = rw h (order_by-nil received_before)

-- Without a failure the query returns the queue and changes nothing.
pub queued_events-quiet :
    (t : ℕ) (c : Conn) → c.faults ≡ [] → queued_events t c ≡ (ok (queue t c.db), c)
unfolding queued_events
queued_events-quiet t c quiet = ground arith

module _ (db : Db) (v : IsValid db) (n : WebhookEvent) (fresh : n.id ≡ db.next_event)
    (time : n.received_at ≡ db.now) where
  new_is_last : All (λ e. received_before e n ≡ true) db.events
  new_is_last = go db.events v.past v.below
    where
      go :
          (xs : List WebhookEvent)
          → All (λ e. e.received_at ≤ db.now) xs
          → All (λ e. e.id < db.next_event) xs
          → All (λ e. received_before e n ≡ true) xs
      go [] p b = tt
      go (x ∷ xs) p b = (later x p.0 b.0, go xs p.1 b.1)
        where
          later :
              (x : WebhookEvent)
              → x.received_at ≤ db.now
              → x.id < db.next_event
              → received_before x n ≡ true
          later x p b = ground arith

  -- The queue of each tunnel, once the row is in the table.
  queue-append :
      (u : ℕ) (db' : Db)
      → db'.events ≡ db.events ++ n ∷ []
      → queue u db' ≡ (if is_waiting u n then queue u db ++ n ∷ [] else queue u db)
  unfolding queue
  queue-append u db' e = elim (Bool-cases (is_waiting u n)) [
    | inl waits ↦
        rw (e, keep-append (is_waiting u) db.events (n ∷ []), waits)
          (order_by-last received_before (keep (is_waiting u) db.events) n
            (All-keep (λ x. received_before x n ≡ true) (is_waiting u) db.events new_is_last))
    | inr other ↦
        rw (e, keep-append (is_waiting u) db.events (n ∷ []), other)
          (rw (append-nil (keep (is_waiting u) db.events)))
  ]

-- A statement that failed changed nothing; only the row of a tunnel that is not in the table spends a
-- number of the sequence.
abbrev pub Refused : ℕ → Db → Db → Type 0
Refused t db db' = (db' ≡ db) ⊎ ((has_tunnel t db ≡ false) × (db' ≡ number_spent db))

-- In a valid table, an event that is accepted goes to the end of its own tunnel's queue, and no
-- other queue changes; where the statement fails, nothing changes, but that the row of a tunnel that
-- is not in the table spends a number of the sequence.
pub enqueue_event-fifo :
    (u t : ℕ) (method path query : Text) (headers : Header) (body : Text) (c : Conn)
    → IsValid c.db
    → EndsAt
        (λ id db'.
          (id ≡ c.db.next_event)
          × (queue u db' ≡ (
              if t == u
              then queue u c.db ++ new_event c.db t method path query headers body ∷ []
              else queue u c.db)))
        (Refused t c.db)
        (enqueue_event t method path query headers body c)
unfolding enqueue_event
enqueue_event-fifo u t method path query headers body c v =
    (Triple-statement {P = λ db. db ≡ c.db}
        (λ db. insert_event t method path query headers body (has_tunnel t db) db)
        (λ db e. rw e (inserted (has_tunnel t c.db) refl)) (λ db e. inl e)).at
      c refl
  where
    inserted :
        (known : Bool)
        → has_tunnel t c.db ≡ known
        → Ends
            (λ id db'.
              (id ≡ c.db.next_event)
              × (queue u db' ≡ (
                  if t == u
                  then queue u c.db ++ new_event c.db t method path query headers body ∷ []
                  else queue u c.db)))
            (Refused t c.db)
            (insert_event t method path query headers body known c.db)
    inserted false missing = inr (missing, refl)
    inserted true known = (refl, queue-append c.db v _ refl refl u _ refl ∙ ground arith)

-- ===== src/Offline/Buffered.antt =====
-- What the offline handler's reply says about the queue (internal/edge/offline.go).
use liveurl.Prelude.{
  Bool-cases, Option, Text, [], ap, arith, codes, false, if◌then◌else◌, inl, inr, length, ltb, none,
  refl, some, suc, sym, take, text_eq, zero, ℕ, ◌++◌, ◌+◌, ◌<◌, ◌==◌, ◌||◌, ◌∙◌, ◌∷◌, ◌≡◌, ◌≢◌, ◌≤◌,
  ◌⊎◌,
}
use liveurl.Store.Snapshots.{get_snapshot}
use liveurl.Store.Hoare.{EndsAt}
use liveurl.Store.Events.Retries.{IsValid}
use liveurl.Pages.{http_error}
use liveurl.Http.{Request}
use liveurl.Store.{Conn, Db, Result, SnapshotRow, Tunnel, WebhookEvent, err, ok}
use liveurl.Store.Events.{IsStored, new_event, new_event-IsStored, queue}
use liveurl.Offline.{
  Answer, GoLibrary, answered, buffer_webhook, buffered_or_failed, max_webhook_body, panicked,
  query_hash, serve_offline, serve_snapshot, served_body, snapshot_answer, snapshot_reply,
}
use liveurl.Classify.{is_webhook}
use liveurl.Store.Events.Fifo.{Refused, enqueue_event-fifo}

abbrev pub status_of : Answer → ℕ
status_of (answered r) = r.status_code
status_of panicked = 0

-- Either the reply is 202, the request has a body within the limit, and an event with everything of the
-- request is the last of the tunnel's queue, the queues of the other tunnels as they were; or it is not,
-- and the database is as it was, but for a number that is spent where the tunnel is not in the table.
abbrev pub Acknowledges : Option Text → Request → Tunnel → Db → Answer × Conn → Type 0
Acknowledges sent r tunnel db (a, c') =
    ((status_of a ≡ 202)
      × ((body : Text) × ((n : WebhookEvent) × (sent ≡ some body)
            × (length body ≤ max_webhook_body)
            × IsStored db tunnel.id r.method r.path r.raw_query r.header body n
            × ((u : ℕ)
                → queue u c'.db ≡ (if tunnel.id == u then queue u db ++ n ∷ [] else queue u db)))))
    ⊎ ((status_of a ≢ 202) × Refused tunnel.id db c'.db)

ltb-false : (n m : ℕ) → ltb n m ≡ false → m < n + 1
ltb-false n m h = ground arith

ltb-false_le : (n m : ℕ) → ltb n m ≡ false → m ≤ n
ltb-false_le n m h = ground arith

length-take_all : (n : ℕ) (s : Text) → length (take n s) < n → take n s ≡ s
length-take_all zero s h = ground (arith, h)
length-take_all (suc n) [] h = refl
length-take_all (suc n) (x ∷ s) h = ap (◌∷◌ x) (length-take_all n s (omega (arith, h)))

read_within :
    (n : ℕ) (s : Text)
    → ltb n (length (take (n + 1) s)) ≡ false
    → (take (n + 1) s ≡ s) × (length s ≤ n)
read_within n s h =
    let whole = length-take_all (n + 1) s (ltb-false n _ h) in
    (whole, ltb-false_le n _ (ap (λ (t : Text). ltb n (length t)) (sym whole) ∙ h))

buffered_or_failed-Acknowledges :
    (go : GoLibrary) (sent : Text) (r : Request) (tunnel : Tunnel) (db : Db) (x : Result ℕ × Conn)
    → length sent ≤ max_webhook_body
    → ((u : ℕ)
        → EndsAt
            (λ id db'.
              (id ≡ db.next_event)
              × (queue u db' ≡ (
                  if tunnel.id == u
                  then queue u db
                    ++ new_event db tunnel.id r.method r.path r.raw_query r.header sent ∷ []
                  else queue u db)))
            (Refused tunnel.id db)
            x)
    → Acknowledges (some sent) r tunnel db (buffered_or_failed go x)
unfolding http_error
buffered_or_failed-Acknowledges go sent r tunnel db (ok id, c') small fifo = inl (
  refl,
  (
    sent,
    (
      new_event db tunnel.id r.method r.path r.raw_query r.header sent,
      refl,
      small,
      new_event-IsStored db tunnel.id r.method r.path r.raw_query r.header sent,
      λ u. (fifo u).1,
    ),
  ),
)
buffered_or_failed-Acknowledges go sent r tunnel db (err x, c') small fifo =
    inr (omega arith, fifo 0)

buffer_webhook-Acknowledges :
    (go : GoLibrary) (sent : Option Text) (r : Request) (tunnel : Tunnel) (c : Conn)
    → IsValid c.db
    → Acknowledges sent r tunnel c.db (buffer_webhook go sent r tunnel c)
unfolding buffer_webhook http_error
buffer_webhook-Acknowledges go none r tunnel c valid = inr (omega arith, inl refl)
buffer_webhook-Acknowledges go (some sent) r tunnel c valid =
    elim (Bool-cases (ltb max_webhook_body (length (take (max_webhook_body + 1) sent)))) [
      | inl large ↦ rw large (inr (omega arith, inl refl))
      | inr small ↦
          let (whole, short) = read_within max_webhook_body sent small in
          rw small (
            rw whole (
              buffered_or_failed-Acknowledges go sent r tunnel c.db _ short (λ u.
                enqueue_event-fifo u tunnel.id r.method r.path r.raw_query r.header sent c valid)))
    ]

pub serve_snapshot-db :
    (go : GoLibrary) (r : Request) (tunnel : Tunnel) (c : Conn)
    → (serve_snapshot go r tunnel c).1.db ≡ c.db
unfolding serve_snapshot
serve_snapshot-db go r tunnel c = ground arith

snapshot_answer-status :
    (go : GoLibrary) (x : Result SnapshotRow × Conn) → status_of (snapshot_answer go x).0 ≢ 202
unfolding http_error served_body
snapshot_answer-status go (ok snap, c) = go_on (served_body go snap)
  where
    go_on : (o : Option Text) → status_of (snapshot_reply go snap o) ≢ 202
    go_on none = omega arith
    go_on (some body) = omega arith
snapshot_answer-status go (err x, c) = omega arith

-- On a valid database, a request of an offline tunnel is answered with 202 only where an event with its
-- method, path, query, whole body and header values (through JSON: as they were where they are ASCII) is
-- the last of its tunnel's queue, not tried yet, with the other queues as they were; any other answer,
-- failures of the store included, leaves the database as it was, but for a number that is spent where
-- the tunnel is not in the table.
pub serve_offline-Acknowledges :
    (go : GoLibrary) (sent : Option Text) (r : Request) (tunnel : Tunnel) (c : Conn)
    → IsValid c.db
    → Acknowledges sent r tunnel c.db (serve_offline go sent r tunnel c)
unfolding serve_offline serve_snapshot http_error
serve_offline-Acknowledges go sent r tunnel c valid =
    elim (Bool-cases (is_webhook go.lower_unicode tunnel.buffer_rules r)) [
      | inl hook ↦ rw hook (buffer_webhook-Acknowledges go sent r tunnel c valid)
      | inr not_hook ↦
          rw not_hook
            (elim (Bool-cases (text_eq r.method (codes "GET") || text_eq r.method (codes "HEAD"))) [
              | inl page ↦ rw page (
                  inr (
                    snapshot_answer-status go
                        (get_snapshot tunnel.id r.path (query_hash go r.raw_query) c),
                    inl (serve_snapshot-db go r tunnel c),
                  ))
              | inr other ↦ rw other (inr (omega arith, inl refl))
            ])
    ]

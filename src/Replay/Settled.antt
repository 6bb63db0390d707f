-- ===== src/Replay/Settled.antt =====
-- An event of a drain does not stay in state replaying on a database that does not fail
-- (internal/edge/replay/replay.go, Drain and ReplayEvent).
use mathlib.Core.Path.{subst}
use liveurl.Prelude.{
  ==_iff, All, All-both, All-weaken, Bool, Bool-cases, List, Text, [], any, ap, arith, choose_by,
  false, find_where, inl, inr, keep, leb, order_by-any, refl, some, sym, true, true≢false,
  update_where, ℕ, ◌+◌, ◌==◌, ◌∙◌, ◌∷◌, ◌≡◌, ◌≢◌,
}
use liveurl.Store.{Conn, Db, EventState, WebhookEvent, dead, delivered, queued, replaying}
use liveurl.Store.Events.{
  has_id, in_tunnel, is_state, max_replay_attempts, queue, received_before, update_event,
}
use liveurl.Store.Events.Rows.{Touches, find-Touches, find-update_self}
use liveurl.Store.Events.Retries.{IsValid}
use liveurl.Store.Events.Fifo.{is_waiting, queued_events-quiet}
use liveurl.Replay.{
  Link, Outcome, Session, answered, drain, drain_loop, next_outcome, open_failed, read_failed,
  replay_event, write_failed,
}
use liveurl.Replay.Backlog.{
  outcome_stops, quiet_link, replay_event-Writes, written, written-KeepsPlace,
}
use liveurl.Replay.Refinement.{front_found, link-quiet, passed-queue}
use liveurl.Replay.Invariant.{replay_event-IsValid}
use liveurl.Store.Events.Waiting.{queue-found, queue-waits}

abbrev is_settled : EventState → Bool
is_settled replaying = false
is_settled _ = true

-- The event of the number is in the table for the tunnel, and no replay of it is under way.
abbrev pub IsKept : ℕ → ℕ → Db → Type 0
IsKept t i db =
    (row : WebhookEvent) × (find_where (has_id i) db.events ≡ some row)
    × (row.tunnel_id ≡ t)
    × (is_settled row.state ≡ true)

written-settled :
    (now attempts : ℕ) (o : Outcome) (r : WebhookEvent)
    → is_settled (written now attempts o r).state ≡ true
written-settled now attempts open_failed r = refl
written-settled now attempts write_failed r = refl
written-settled now attempts read_failed r = refl
written-settled now attempts (answered s) r =
    choose_by (λ (f : WebhookEvent → WebhookEvent). is_settled (f r).state ≡ true) (leb 500 s) _ _
      (λ _.
        choose_by (λ (x : EventState). is_settled x ≡ true) (leb max_replay_attempts (attempts + 1))
          dead queued (λ _. refl) (λ _. refl))
      (λ _. refl)

written-IsKept :
    (t i : ℕ) (db : Db) (o : Outcome) (e : WebhookEvent)
    → IsKept t i db
    → IsKept t i (update_event e.id (written db.now e.attempts o) db)
written-IsKept t i db o e (row, found, own, settled) =
    let f = written db.now e.attempts o in
    let place = written-KeepsPlace db.now e.attempts o in
    elim (Bool-cases (i == e.id)) [
      | inl same ↦
          let same' : i ≡ e.id = ground (arith, same) in
          (
            f row,
            rw same' (find-update_self e.id f db.events row place.id (rw same' at found)),
            place.tunnel row ∙ own,
            written-settled db.now e.attempts o row,
          )
      | inr other ↦
          let touched : Touches e.id db.events (update_where (has_id e.id) f db.events) = record {
            change = f;
            keeps_id = place.id;
            rows = refl;
          } in
          (row, find-Touches i touched (ground (arith, other)) ∙ found, own, settled)
    ]

module _ (format_time : ℕ → Text) (t i : ℕ) where
  drain_loop-IsKept :
      (es : List WebhookEvent) (db : Db) (s : Session)
      → queue t db ≡ es
      → IsValid db
      → IsKept t i db
      → IsKept t i (drain_loop format_time es (quiet_link db s)).conn.db
  unfolding drain_loop
  drain_loop-IsKept [] db s front valid kept = kept
  drain_loop-IsKept (e ∷ es) db s front valid kept =
      let w =
        replay_event-Writes format_time e db s s.outcomes
          (front_found format_time t e es db s front valid) refl in
      let l' = (replay_event format_time e (quiet_link db s)).1 in
      let o = (next_outcome s.outcomes).0 in
      let mid = ap (λ (c : Conn). c.db) w.1 in
      let kept' : IsKept t i l'.conn.db = rw mid (written-IsKept t i db o e kept) in
      elim (Bool-cases (outcome_stops o)) [
        | inl stop ↦ rw (w.0, stop) kept'
        | inr pass ↦
            let left = passed-queue format_time t e es db s front valid o l'.conn.db pass mid in
            let valid' = replay_event-IsValid format_time e (quiet_link db s) valid in
            let quiet' : quiet_link l'.conn.db l'.session ≡ l' =
              link-quiet l' (ap (λ (c : Conn). c.faults) w.1) in
            rw (w.0, pass)
              (subst (λ (l : Link). IsKept t i (drain_loop format_time es l).conn.db) quiet'
                (drain_loop-IsKept es l'.conn.db l'.session left valid' kept'))
      ]

  pub drain-IsKept :
      (l : Link)
      → t ≢ 0
      → l.conn.faults ≡ []
      → IsValid l.conn.db
      → IsKept t i l.conn.db
      → IsKept t i (drain format_time t l).conn.db
  unfolding drain
  drain-IsKept l real quiet valid kept =
      let numbered : (t == 0) ≡ false = ground arith in
      rw (numbered, queued_events-quiet t l.conn quiet)
        (subst (λ (k : Link). IsKept t i (drain_loop format_time (queue t l.conn.db) k).conn.db)
          (link-quiet l quiet)
          (drain_loop-IsKept (queue t l.conn.db) l.conn.db l.session refl valid kept))

-- An event that is found and waits is in the queue.
kept-any :
    (t i : ℕ) (xs : List WebhookEvent) (row : WebhookEvent)
    → find_where (has_id i) xs ≡ some row
    → is_waiting t row ≡ true
    → any (has_id i) (keep (is_waiting t) xs) ≡ true
kept-any t i [] row found waits = cc
kept-any t i (x ∷ xs) row found waits = ground (arith, kept-any t i xs row)

-- A row of a tunnel whose queue is empty does not wait.
empty-waits :
    (t i : ℕ) (db : Db) (row : WebhookEvent)
    → queue t db ≡ []
    → find_where (has_id i) db.events ≡ some row
    → is_waiting t row ≡ false
unfolding queue
empty-waits t i db row empty found = elim (Bool-cases (is_waiting t row)) [
  | inr other ↦ other
  | inl waits ↦ absurd (
      true≢false (
        sym (kept-any t i db.events row found waits)
        ∙ (sym (order_by-any received_before (has_id i) (keep (is_waiting t) db.events))
            ∙ ap (any (has_id i)) empty)))
]

abbrev pub is_final : EventState → Bool
is_final delivered = true
is_final dead = true
is_final _ = false

final-state : (s : EventState) → is_settled s ≡ true → is_state s queued ≡ false → is_final s ≡ true
final-state queued h k = cc
final-state replaying h k = cc
final-state delivered h k = refl
final-state dead h k = refl

-- The event of the number is in the table for the tunnel, delivered or dead.
abbrev pub IsOver : ℕ → ℕ → Db → Type 0
IsOver t i db =
    (row : WebhookEvent) × (find_where (has_id i) db.events ≡ some row)
    × (row.tunnel_id ≡ t)
    × (is_final row.state ≡ true)

-- Where nothing waits, an event that was kept is over.
pub IsKept-IsOver : (t i : ℕ) (db : Db) → queue t db ≡ [] → IsKept t i db → IsOver t i db
IsKept-IsOver t i db empty (row, found, own, settled) =
    let idle = empty-waits t i db row empty found in
    let mine : in_tunnel t row ≡ true = ground (arith, own) in
    let other : is_state row.state queued ≡ false = ground (arith, idle, mine) in
    (row, found, own, final-state row.state settled other)

-- An event of the queue is kept.
pub queue-IsKept : (t : ℕ) (db : Db) → IsValid db → All (λ e. IsKept t e.id db) (queue t db)
queue-IsKept t db valid =
    All-weaken (λ e. (find_where (has_id e.id) db.events ≡ some e) × (is_waiting t e ≡ true))
      (λ e. IsKept t e.id db) (queue t db) (λ e (found, waits). waiting-IsKept e found waits)
      (All-both (λ e. find_where (has_id e.id) db.events ≡ some e) (λ e. is_waiting t e ≡ true)
        (queue t db) (queue-found t db valid.keyed) (queue-waits t db))
  where
    settled : (s : EventState) → is_state s queued ≡ true → is_settled s ≡ true
    settled queued h = refl
    settled replaying h = cc
    settled delivered h = refl
    settled dead h = refl

    waiting-IsKept :
        (e : WebhookEvent)
        → find_where (has_id e.id) db.events ≡ some e
        → is_waiting t e ≡ true
        → IsKept t e.id db
    waiting-IsKept e found waits =
        let own : (e.tunnel_id == t) ≡ true = ground (arith, waits) in
        let mine : is_state e.state queued ≡ true = ground (arith, waits) in
        (e, found, (==_iff e.tunnel_id t).0 own, settled e.state mine)

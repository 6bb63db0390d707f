-- ===== src/Replay/Tests.antt =====
-- Tests of the replay (internal/edge/replay/replay.go).
use liveurl.Replay.Settled.{IsOver}
use liveurl.Prelude.{
  All, Bool, List, [], any, arith, false, find_where, length, map, order_by, refl, some, suc, true,
  zero, ℕ, ◌∷◌, ◌≡◌, ◌≤◌,
}
use liveurl.Store.{database, replaying}
use liveurl.Store.Events.{has_id, queue, update_event}
use liveurl.Store.Events.Retries.{IsValid}
use liveurl.Fixtures.{event_of, no_time, quiet_conn, two_events, two_events-IsValid, with_faults}
use liveurl.Replay.{
  Link, Outcome, answered, build_request, drain, open_failed, replay_event, store_failed,
}
use liveurl.Replay.Delivery.{IsDelivered, drain-delivers}
use liveurl.Replay.Order.{SendsPrefix, drain-SendsPrefix}
use liveurl.Replay.Invariant.{drain-IsValid}
use liveurl.Replay.Refinement.{Serves, drain-Serves}
use liveurl.Replay.Termination.{reconnects, reconnects-empties}
use liveurl.Replay.Errors.{as_failed, drain-refused, replay_event-lost}

abbrev link : List Outcome → List Bool → Link
link outcomes faults = record {
  conn = with_faults faults;
  session = record { outcomes = outcomes; sent = [] };
}

abbrev all_answered : Link
all_answered = link (answered 200 ∷ answered 404 ∷ []) []

drain-delivers_example :
    let l' = drain no_time 7 all_answered in
    (l'.session.sent ≡ map (build_request no_time) (queue 7 two_events))
    × (queue 7 l'.conn.db ≡ [])
    × All (λ e. IsDelivered e.id l'.conn.db.events) (queue 7 two_events)
unfolding queue order_by
drain-delivers_example =
    drain-delivers no_time 7 (200 ∷ 404 ∷ []) [] all_answered (omega arith) refl refl refl
      (omega arith, (omega arith, tt))

drain-SendsPrefix_example :
    SendsPrefix no_time
      (queue 7 two_events)
      []
      (drain no_time 7 (link (answered 200 ∷ open_failed ∷ []) [])).session.sent
drain-SendsPrefix_example = drain-SendsPrefix no_time 7 (link (answered 200 ∷ open_failed ∷ []) [])

drain-IsValid_example :
    IsValid (drain no_time 7 (link (answered 500 ∷ []) (false ∷ false ∷ true ∷ []))).conn.db
drain-IsValid_example =
    drain-IsValid no_time 7 (link (answered 500 ∷ []) (false ∷ false ∷ true ∷ []))
      two_events-IsValid

abbrev refusing : Link
refusing = link (answered 503 ∷ []) []

drain-refused_example :
    let l' = drain no_time 7 refusing in
    (l'.session.sent ≡ build_request no_time (event_of 2 10) ∷ [])
    × (l'.conn.db ≡ update_event 2 (as_failed 503 1) two_events)
    × (find_where (has_id 2) l'.conn.db.events ≡ some (as_failed 503 1 (event_of 2 10)))
unfolding queue order_by
drain-refused_example =
    drain-refused no_time 7 503 (event_of 2 10) (event_of 2 10) (event_of 1 20 ∷ []) [] refusing
      (omega arith) refl refl (omega arith) refl refl

abbrev losing : Link
losing = link (answered 200 ∷ []) (false ∷ true ∷ [])

replay_event-lost_example :
    let (reply, l') = replay_event no_time (event_of 2 10) losing in
    (reply ≡ (200, some (store_failed database)))
    × (find_where (has_id 2) l'.conn.db.events
        ≡ some (record (event_of 2 10) { state = replaying }))
    × (any (has_id 2) (queue 7 l'.conn.db) ≡ false)
replay_event-lost_example =
    replay_event-lost no_time 7 200 (event_of 2 10) (event_of 2 10) [] [] losing refl refl
      (omega arith) refl

abbrev mixed : Link
mixed = link (answered 200 ∷ answered 500 ∷ []) []

drain-Serves_example : Serves 7 mixed.session.outcomes two_events (drain no_time 7 mixed).conn.db
drain-Serves_example = drain-Serves no_time 7 mixed (omega arith) refl two_events-IsValid

-- Connections whose first two exchanges are refused.
abbrev refusals : ℕ → List (List ℕ)
refusals zero = []
refusals (suc n) = (500 ∷ 503 ∷ []) ∷ refusals n

refusals-long : (n : ℕ) → All (λ ss. 2 ≤ length ss) (refusals n)
refusals-long zero = tt
refusals-long (suc n) = (omega arith, refusals-long n)

reconnects-empties_example :
    let db = (reconnects no_time 7 (map (map answered) (refusals 10)) quiet_conn).db in
    (queue 7 db ≡ []) × All (λ e. IsOver 7 e.id db) (queue 7 two_events)
unfolding queue order_by
reconnects-empties_example =
    reconnects-empties no_time 7 (refusals 10) quiet_conn (omega arith) refl two_events-IsValid
      (refusals-long 10) (omega arith)

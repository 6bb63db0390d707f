-- ===== src/Replay/Refinement.antt =====
-- A drain serves the backlog of its tunnel, and no other (internal/edge/replay/replay.go, Drain).
use mathlib.Core.Path.{subst}
use liveurl.Prelude.{
  ==_iff, All, Bool, Bool-cases, List, Text, [], ap, arith, false, find_where, if◌then◌else◌, inl,
  inr, map, refl, some, sym, true, ℕ, ◌==◌, ◌∙◌, ◌∷◌, ◌≡◌, ◌≢◌,
}
use liveurl.Store.{Conn, Db, WebhookEvent}
use liveurl.Store.Events.{has_id, in_tunnel, queue, update_event}
use liveurl.Store.Events.Retries.{IsValid}
use liveurl.Store.Events.Fifo.{is_waiting, queued_events-quiet}
use liveurl.Store.Events.Waiting.{queue-found, queue-update_head, queue-update_other, queue-waits}
use liveurl.Replay.{
  Link, Outcome, Reply, Session, answered, drain, drain_loop, next_outcome, open_failed,
  read_failed, replay_event, write_failed,
}
use liveurl.Replay.Backlog.{
  Pending, Writes, outcome_stops, pending, pending_of, quiet_link, replay_event-Writes, serve,
  settle_front, written, written-KeepsPlace,
}
use liveurl.Replay.Invariant.{replay_event-IsValid}

-- What waits for each tunnel in `after`, if the drain of tunnel `t` started from `before`.
abbrev pub Serves : ℕ → List Outcome → Db → Db → Type 0
Serves t os before after =
    (u : ℕ) → pending u after ≡ (if t == u then serve os (pending t before) else pending u before)

front-settles :
    (t now : ℕ) (o : Outcome) (e : WebhookEvent) (es : List WebhookEvent) (served : List Pending)
    → in_tunnel t e ≡ true
    → outcome_stops o ≡ true
    → map pending_of
        (if is_waiting t (written now e.attempts o e) then written now e.attempts o e ∷ es else es)
      ≡ settle_front o (pending_of e) (map pending_of es) served
front-settles t now open_failed e es served own stop = rw own refl
front-settles t now write_failed e es served own stop = rw own refl
front-settles t now read_failed e es served own stop = rw own refl
front-settles t now (answered s) e es served own stop = ground (arith, own, stop)

pub link-quiet : (l : Link) → l.conn.faults ≡ [] → quiet_link l.conn.db l.session ≡ l
link-quiet l quiet =
    ap (λ (faults : List Bool). record l { conn = record l.conn { faults = faults } }) (sym quiet)

passed-settles :
    (o : Outcome) (p : Pending) (q served : List Pending)
    → outcome_stops o ≡ false
    → settle_front o p q served ≡ served
passed-settles (answered s) p q served pass = rw pass refl
passed-settles open_failed p q served pass = cc
passed-settles write_failed p q served pass = cc
passed-settles read_failed p q served pass = cc

passed-leaves :
    (t now : ℕ) (o : Outcome) (e : WebhookEvent)
    → outcome_stops o ≡ false
    → is_waiting t (written now e.attempts o e) ≡ false
passed-leaves t now (answered s) e pass = ground (arith, pass)
passed-leaves t now open_failed e pass = cc
passed-leaves t now write_failed e pass = cc
passed-leaves t now read_failed e pass = cc

module _ (format_time : ℕ → Text) (t : ℕ) where
  -- The queues after one exchange.
  replayed-queues :
      (o : Outcome) (e : WebhookEvent) (es : List WebhookEvent) (db : Db)
      → queue t db ≡ e ∷ es
      → IsValid db
      → let f = written db.now e.attempts o in
        (u : ℕ)
        → queue u (update_event e.id f db)
          ≡ (if t == u then if is_waiting t (f e) then f e ∷ es else es else queue u db)
  replayed-queues o e es db front valid u = elim (Bool-cases (t == u)) [
    | inl same ↦
        let place = written-KeepsPlace db.now e.attempts o in
        rw (same, ← (==_iff t u).0 same)
          (queue-update_head (written db.now e.attempts o) place t db valid.keyed e es front)
    | inr other ↦ rw other (
        queue-update_other (written db.now e.attempts o) (written-KeepsPlace db.now e.attempts o) t
          db valid.keyed e es front u other)
  ]

  module _ (e : WebhookEvent) (es : List WebhookEvent) (db : Db) (s : Session)
      (front : queue t db ≡ e ∷ es) (valid : IsValid db) where
    pub front_found : find_where (has_id e.id) db.events ≡ some e
    front_found =
        let all : All (λ e. find_where (has_id e.id) db.events ≡ some e) (e ∷ es) =
          rw front at (queue-found t db valid.keyed) in
        all.0

    front_own : in_tunnel t e ≡ true
    front_own =
        let all : All (λ e. is_waiting t e ≡ true) (e ∷ es) = rw front at (queue-waits t db) in
        let first = all.0 in ground (arith, first)

    -- A drain that stops at its first event.
    stopped-Serves :
        (o : Outcome) (rest : List Outcome) (after : Link) (r : Reply)
        → next_outcome s.outcomes ≡ (o, rest)
        → outcome_stops o ≡ true
        → Writes e db o rest (r, after)
        → Serves t s.outcomes db after.conn.db
    unfolding serve
    stopped-Serves o rest after r next stop w u =
        ap (λ (c : Conn). pending u c.db) w.1
        ∙ (ap (map pending_of) (replayed-queues o e es db front valid u) ∙ served (t == u))
      where
        served :
            (b : Bool)
            → map pending_of (
                if b
                then if is_waiting t (written db.now e.attempts o e)
                  then written db.now e.attempts o e ∷ es
                  else es
                else queue u db)
              ≡ (if b then serve s.outcomes (pending t db) else pending u db)
        served false = refl
        served true = rw (front, next) (front-settles t db.now o e es _ front_own stop)

    passed-queues :
        (o : Outcome) (mid : Db)
        → outcome_stops o ≡ false
        → mid ≡ update_event e.id (written db.now e.attempts o) db
        → (v : ℕ) → queue v mid ≡ (if t == v then es else queue v db)
    passed-queues o mid pass step v =
        ap (queue v) step
        ∙ (replayed-queues o e es db front valid v ∙ rw (passed-leaves t db.now o e pass) refl)

    pub passed-queue :
        (o : Outcome) (mid : Db)
        → outcome_stops o ≡ false
        → mid ≡ update_event e.id (written db.now e.attempts o) db
        → queue t mid ≡ es
    passed-queue o mid pass step =
        let own : (t == t) ≡ true = ground arith in passed-queues o mid pass step t ∙ rw own refl

    -- A drain that goes on after its first event, and serves the rest.
    passed-Serves :
        (o : Outcome) (rest : List Outcome) (mid : Db) (after : Db)
        → next_outcome s.outcomes ≡ (o, rest)
        → outcome_stops o ≡ false
        → mid ≡ update_event e.id (written db.now e.attempts o) db
        → Serves t rest mid after
        → Serves t s.outcomes db after
    unfolding serve
    passed-Serves o rest mid after next pass step ih u = ih u ∙ served (t == u) refl
      where
        served :
            (b : Bool)
            → (t == u) ≡ b
            → (if b then serve rest (pending t mid) else pending u mid)
              ≡ (if b then serve s.outcomes (pending t db) else pending u db)
        served false other = ap (map pending_of) (passed-queues o mid pass step u ∙ rw other refl)
        served true same =
            rw (passed-queue o mid pass step, front, next)
              (sym (passed-settles o (pending_of e) (map pending_of es) _ pass))

  drain_loop-Serves :
      (es : List WebhookEvent) (db : Db) (s : Session)
      → queue t db ≡ es
      → IsValid db
      → Serves t s.outcomes db (drain_loop format_time es (quiet_link db s)).conn.db
  unfolding drain_loop serve
  drain_loop-Serves [] db s front valid u = elim (Bool-cases (t == u)) [
    | inl same ↦ rw (same, ← (==_iff t u).0 same, front) refl
    | inr other ↦ rw other refl
  ]
  drain_loop-Serves (e ∷ es) db s front valid u =
      let w =
        replay_event-Writes format_time e db s s.outcomes (front_found e es db s front valid)
          refl in
      elim (Bool-cases (outcome_stops (next_outcome s.outcomes).0)) [
        | inl stop ↦
            rw (w.0, stop)
              (stopped-Serves e es db s front valid (next_outcome s.outcomes).0
                (next_outcome s.outcomes).1 (replay_event format_time e (quiet_link db s)).1
                (replay_event format_time e (quiet_link db s)).0 refl stop w u)
        | inr pass ↦
            let l' = (replay_event format_time e (quiet_link db s)).1 in
            let o = (next_outcome s.outcomes).0 in
            let mid = ap (λ (c : Conn). c.db) w.1 in
            let left = passed-queue e es db s front valid o l'.conn.db pass mid in
            let valid' = replay_event-IsValid format_time e (quiet_link db s) valid in
            let ih = drain_loop-Serves es l'.conn.db l'.session left valid' in
            let quiet' : quiet_link l'.conn.db l'.session ≡ l' =
              link-quiet l' (ap (λ (c : Conn). c.faults) w.1) in
            rw (w.0, pass)
              (passed-Serves e es db s front valid o (next_outcome s.outcomes).1 l'.conn.db
                (drain_loop format_time es l').conn.db refl pass mid
                (subst
                  (λ (rest : List Outcome).
                    Serves t rest l'.conn.db (drain_loop format_time es l').conn.db)
                  w.2
                  (subst
                    (λ (l : Link).
                      Serves t l'.session.outcomes l'.conn.db (drain_loop format_time es l).conn.db)
                    quiet' ih))
                u)
      ]

  -- On a valid database that does not fail, a drain of a tunnel does to what waits for it exactly what
  -- serving that list from the front does, however the exchanges end: delivered events leave, the fifth
  -- refusal drops an event, another refusal counts, and a broken exchange resets the count; and what
  -- waits for the other tunnels stays as it is.
  pub drain-Serves :
      (l : Link)
      → t ≢ 0
      → l.conn.faults ≡ []
      → IsValid l.conn.db
      → Serves t l.session.outcomes l.conn.db (drain format_time t l).conn.db
  unfolding drain
  drain-Serves l real quiet valid =
      let numbered : (t == 0) ≡ false = ground arith in
      rw (numbered, queued_events-quiet t l.conn quiet)
        (subst
          (λ (k : Link).
            Serves t l.session.outcomes l.conn.db
              (drain_loop format_time (queue t l.conn.db) k).conn.db)
          (link-quiet l quiet)
          (drain_loop-Serves (queue t l.conn.db) l.conn.db l.session refl valid))

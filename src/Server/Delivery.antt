-- ===== src/Server/Delivery.antt =====
-- From the webhook that comes while the agent is away to the request that it gets when it is back
-- (internal/edge/offline.go with internal/edge/replay/replay.go).
use mathlib.Core.List.{map-append}
use liveurl.Store.Json.{IsAscii, json_text, values-json_header}
use liveurl.Prelude.{
  All, List, Option, Text, [], ap, arith, codes, false, if◌then◌else◌, inl, inr, length,
  length-append, map, refl, some, sym, text_eq, true, ℕ, ◌++◌, ◌+◌, ◌<◌, ◌==◌, ◌∙◌, ◌∷◌, ◌≡◌, ◌≢◌,
}
use liveurl.Http.{Request, canonical_key, header_set, put_values, values, values-put_values}
use liveurl.Store.{Conn, Db, Tunnel, WebhookEvent}
use liveurl.Store.Events.{IsStored, queue}
use liveurl.Store.Events.Retries.{IsValid}
use liveurl.Replay.{Link, Outcome, answered, build_request, drain}
use liveurl.Replay.Delivery.{drain-delivers}
use liveurl.Offline.{GoLibrary, serve_offline}
use liveurl.Offline.Buffered.{serve_offline-Acknowledges, status_of}

abbrev buffered_mark : Text
buffered_mark = codes "X-Liveurl-Buffered"

abbrev time_mark : Text
time_mark = codes "X-Liveurl-Original-Timestamp"

-- The request that the agent gets for a webhook: what was sent, with its receipt time and a mark.
pub record IsReplay (format_time : ℕ → Text) (now : ℕ) (r : Request) (body : Text) (q : Request)
    : Type 0 where
  same_method : q.method ≡ r.method
  same_path : q.path ≡ r.path
  same_query : q.raw_query ≡ r.raw_query
  same_body : q.body ≡ body
  marked : values buffered_mark q.header ≡ codes "true" ∷ []
  stamped : values time_mark q.header ≡ format_time now ∷ []
  others :
      (k : Text)
      → text_eq buffered_mark k ≡ false
      → text_eq time_mark k ≡ false
      → values k q.header ≡ map json_text (values k r.header)
  verbatim :
      (k : Text)
      → text_eq buffered_mark k ≡ false
      → text_eq time_mark k ≡ false
      → All (λ kv. All IsAscii kv.1) r.header
      → values k q.header ≡ values k r.header

build_request-values :
    (format_time : ℕ → Text) (k : Text) (e : WebhookEvent)
    → values k (build_request format_time e).header ≡ (
        if text_eq time_mark k
        then format_time e.received_at ∷ []
        else if text_eq buffered_mark k
        then codes "true" ∷ []
        else values k e.headers)
unfolding build_request header_set canonical_key
build_request-values format_time k e =
    values-put_values k time_mark (format_time e.received_at ∷ [])
      (put_values buffered_mark (codes "true" ∷ []) e.headers)
    ∙ ap (λ vs. if text_eq time_mark k then format_time e.received_at ∷ [] else vs)
        (values-put_values k buffered_mark (codes "true" ∷ []) e.headers)

build_request-IsReplay :
    (format_time : ℕ → Text) (db : Db) (t : ℕ) (r : Request) (body : Text) (e : WebhookEvent)
    → IsStored db t r.method r.path r.raw_query r.header body e
    → IsReplay format_time db.now r body (build_request format_time e)
unfolding build_request text_eq
build_request-IsReplay format_time db t r body e s =
    let at : (k : Text)
        → values k (build_request format_time e).header ≡ (
            if text_eq time_mark k
            then format_time e.received_at ∷ []
            else if text_eq buffered_mark k
            then codes "true" ∷ []
            else values k e.headers) =
      λ k. build_request-values format_time k e in
    record {
      same_method = s.same_method;
      same_path = s.same_path;
      same_query = s.same_query;
      same_body = s.same_body;
      marked = at buffered_mark;
      stamped = at time_mark ∙ ap (λ n. format_time n ∷ []) s.time;
      others =
          λ k b m. at k ∙ rw (b, m) (ap (values k) s.through_json ∙ values-json_header k r.header);
      verbatim = λ k b m a. at k ∙ rw (b, m) (ap (values k) (s.verbatim a));
    }

-- A drain of a queue whose last event is `n`.
drain-last :
    (format_time : ℕ → Text) (t : ℕ) (db : Db) (q : List WebhookEvent) (n : WebhookEvent)
    (ss : List ℕ) (rest : List Outcome)
    → t ≢ 0
    → queue t db ≡ q ++ n ∷ []
    → length ss ≡ length q + 1
    → All (λ s. s < 500) ss
    → let l' = drain format_time t (record {
      conn = record { db = db; faults = [] };
      session = record { outcomes = map answered ss ++ rest; sent = [] };
    }) in
      (l'.session.sent ≡ map (build_request format_time) q ++ build_request format_time n ∷ [])
      × (queue t l'.conn.db ≡ [])
drain-last format_time t db q n ss rest real last len fine =
    let l : Link = record {
      conn = record { db = db; faults = [] };
      session = record { outcomes = map answered ss ++ rest; sent = [] };
    } in
    let one_more : length ss ≡ length (queue t db) =
      len ∙ (sym (length-append q (n ∷ [])) ∙ ap length (sym last)) in
    let (all, none_left, _) = drain-delivers format_time t ss rest l real refl refl one_more fine in
    (
      all
          ∙ (ap (map (build_request format_time)) last
              ∙ map-append (build_request format_time) q (n ∷ [])),
      none_left,
    )

-- A webhook that was answered with 202 while the agent was away, from a valid database and whatever
-- statements failed before, reaches the agent: in a drain of its tunnel, whose number is not 0, on which
-- no statement fails and in which the local app answers the queue of that time and the webhook with
-- statuses below 500, the agent gets the requests of the queue and then one with the webhook's method,
-- path, query, whole body and header values (through JSON: as they were where all are ASCII), and with
-- the mark and the receipt time under X-Liveurl-Buffered and X-Liveurl-Original-Timestamp; no event waits
-- afterwards.
pub acknowledged-delivered :
    (go : GoLibrary) (sent : Option Text) (r : Request) (t : Tunnel) (c : Conn) (ss : List ℕ)
    (rest : List Outcome)
    → IsValid c.db
    → t.id ≢ 0
    → let (a, c') = serve_offline go sent r t c in
      status_of a ≡ 202
      → length ss ≡ length (queue t.id c.db) + 1
      → All (λ s. s < 500) ss
      → let l' = drain go.format_time t.id (record {
        conn = record { db = c'.db; faults = [] };
        session = record { outcomes = map answered ss ++ rest; sent = [] };
      }) in
        ((body : Text) × ((q : Request) × (sent ≡ some body)
            × IsReplay go.format_time c.db.now r body q
            × (l'.session.sent ≡ map (build_request go.format_time) (queue t.id c.db) ++ q ∷ [])))
        × (queue t.id l'.conn.db ≡ [])
acknowledged-delivered go sent r t c ss rest v real accepted len fine =
    elim (serve_offline-Acknowledges go sent r t c v) [
      | inl (_, (body, (n, is, small, stored, fifo))) ↦
          let own : (t.id == t.id) ≡ true = ground arith in
          let (all, none_left) =
            drain-last go.format_time t.id _ (queue t.id c.db) n ss rest real
              (fifo t.id ∙ rw own refl) len fine in
          let replay = build_request-IsReplay go.format_time c.db t.id r body n stored in
          ((body, (build_request go.format_time n, is, replay, all)), none_left)
      | inr (refused, _) ↦ absurd (refused accepted)
    ]

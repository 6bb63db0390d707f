-- ===== src/Router/Writes.antt =====
-- What a public request does to the database, by what the two calls that write do to it: a request writes to
-- the tunnel of its subdomain alone (internal/edge/router.go, offline.go and proxy.go).
use mathlib.Core.Path.{subst}
use liveurl.Offline.Buffered.{serve_snapshot-db}
use liveurl.Prelude.{
  Bool, List, Option, Text, [], choose, codes, find_where, inl, inr, length, ltb, none, not, refl,
  some, sym, take, text_eq, ℕ, ◌&&◌, ◌++◌, ◌+◌, ◌==◌, ◌||◌, ◌≡◌, ◌⊎◌,
}
use liveurl.Http.{Header, Request, Response}
use liveurl.RateLimit.{allow_key}
use liveurl.Registry.{AgentSession, get}
use liveurl.Store.{Conn, Db, Result, Tunnel, err, ok}
use liveurl.Store.Hoare.{reads}
use liveurl.Store.Events.{enqueue_event}
use liveurl.Store.Snapshots.{put_snapshot}
use liveurl.Store.Tunnels.{has_subdomain, or_missing, tunnel_by_subdomain}
use liveurl.Store.Presence.{is_online}
use liveurl.Classify.{is_webhook}
use liveurl.Offline.{
  Answer, GoLibrary, buffer_webhook, buffered_or_failed, max_webhook_body, serve_offline,
  serve_snapshot,
}
use liveurl.Proxy.{
  CappedBuffer, Exchange, LiveReply, empty_buffer, forward_live, is_candidate, open_fails,
  read_fails, replies, store_snapshot, store_unless_over, write_all, write_fails,
}
use liveurl.Router.{
  Arrival, Router, Served, fall_back, live_or_fall_back, serve_http, serve_tunnel, subdomain_of,
}

-- A relation for each tunnel, which a call that writes to the tunnel keeps.
pub record IsWritten (R : ℕ → Db → Db → Type 0) : Type 0 where
  pub same : (t : ℕ) (a : Db) → R t a a
  pub enqueued :
      (t : ℕ) (method path query : Text) (headers : Header) (body : Text) (c : Conn)
      → R t c.db (enqueue_event t method path query headers body c).1.db
  pub stored :
      (t : ℕ) (path query content_type : Text) (headers : List (Text × Text)) (body : Option Text)
      (c : Conn)
      → R t c.db (put_snapshot t path query content_type headers body c).1.db

module _ (R : ℕ → Db → Db → Type 0) (w : IsWritten R) (go : GoLibrary) where
  open w use {same, enqueued, stored}

  buffered_or_failed-Keeps :
      (t : ℕ) (db : Db) (x : Result ℕ × Conn)
      → R t db x.1.db
      → R t db (buffered_or_failed go x).1.db
  buffered_or_failed-Keeps t db (ok id, c) h = h
  buffered_or_failed-Keeps t db (err x, c) h = h

  buffer_webhook-Keeps :
      (o : Option Text) (r : Request) (t : Tunnel) (c : Conn)
      → R t.id c.db (buffer_webhook go o r t c).1.db
  unfolding buffer_webhook
  buffer_webhook-Keeps none r t c = same t.id c.db
  buffer_webhook-Keeps (some sent) r t c =
      let body = take (max_webhook_body + 1) sent in
      choose (λ (x : Answer × Conn). R t.id c.db x.1.db) (ltb max_webhook_body (length body)) _ _
        (same t.id c.db)
        (buffered_or_failed-Keeps t.id c.db
          (enqueue_event t.id r.method r.path r.raw_query r.header body c)
          (enqueued t.id r.method r.path r.raw_query r.header body c))

  serve_snapshot-Keeps :
      (r : Request) (t : Tunnel) (c : Conn) → R t.id c.db (serve_snapshot go r t c).1.db
  serve_snapshot-Keeps r t c =
      subst (R t.id c.db) (sym (serve_snapshot-db go r t c)) (same t.id c.db)

  serve_offline-Keeps :
      (o : Option Text) (r : Request) (t : Tunnel) (c : Conn)
      → R t.id c.db (serve_offline go o r t c).1.db
  unfolding serve_offline
  serve_offline-Keeps o r t c =
      let P : Answer × Conn → Type 0 = λ x. R t.id c.db x.1.db in
      choose P (is_webhook go.lower_unicode t.buffer_rules r) _ _ (buffer_webhook-Keeps o r t c) (
        choose P (text_eq r.method (codes "GET") || text_eq r.method (codes "HEAD")) _ _
          (serve_snapshot-Keeps r t c) (same t.id c.db))

  store_unless_over-Keeps :
      (t : ℕ) (r : Request) (resp : Response) (cb : CappedBuffer) (complete : Bool) (c : Conn)
      → R t c.db (store_unless_over go t r resp cb complete c).db
  unfolding store_snapshot
  store_unless_over-Keeps t r resp cb complete c =
      let P : Conn → Type 0 = λ k. R t c.db k.db in
      choose P (not complete) c _ (same t c.db)
        (choose P cb.over c _ (same t c.db) (stored t _ _ _ _ _ c))

  forward_live-Keeps :
      (r : Request) (x : Exchange) (t : ℕ) (c : Conn) → R t c.db (forward_live go r x t c).1.db
  unfolding forward_live
  forward_live-Keeps r open_fails t c = same t c.db
  forward_live-Keeps r write_fails t c = same t c.db
  forward_live-Keeps r read_fails t c = same t c.db
  forward_live-Keeps r (replies resp chunks complete) t c =
      choose (λ (x : LiveReply × Conn). R t c.db x.1.db) (resp.status_code == 101) _ _ (same t c.db)
        (choose (λ (k : Conn). R t c.db k.db) (is_candidate go t r resp) _ c
          (store_unless_over-Keeps t r resp (write_all chunks empty_buffer) complete c)
          (same t c.db))

  -- Nothing was written, or the tunnel of the subdomain was written to.
  abbrev pub WritesTo : Text → Db → Db → Type 0
  WritesTo sub a b =
      (b ≡ a) ⊎ ((t : Tunnel) × (find_where (has_subdomain sub) a.tunnels ≡ some t) × R t.id a b)

  module _ {Rate Bucket : Type 0} (exchange : AgentSession → Request → Exchange)
      (rt : Router Rate Bucket) (a : Arrival) (r : Request) where
    fall_back-Keeps : (t : Tunnel) (c : Conn) → R t.id c.db (fall_back go rt a r t c).1.db
    unfolding fall_back
    fall_back-Keeps t c =
        choose (λ (x : Served × Conn). R t.id c.db x.1.db) rt.has_offline _ _
          (serve_offline-Keeps a.sent r t c) (same t.id c.db)

    live_or_fall_back-Keeps :
        (t : Tunnel) (o : Option AgentSession) (c : Conn)
        → R t.id c.db (live_or_fall_back go exchange rt a r t o c).1.db
    live_or_fall_back-Keeps t none c = fall_back-Keeps t c
    live_or_fall_back-Keeps t (some sess) c = forward_live-Keeps r (exchange sess r) t.id c

    found-WritesTo :
        (sub : Text) (db : Db) (faults : List Bool) (o : Option Tunnel)
        → find_where (has_subdomain sub) db.tunnels ≡ o
        → WritesTo sub db
            (serve_tunnel go exchange rt a sub r
              (or_missing o, record { db = db; faults = faults })).1.db
    found-WritesTo sub db faults none found = inl refl
    found-WritesTo sub db faults (some t) found = inr (
      t,
      found,
      choose (λ (x : Served × Conn). R t.id db x.1.db)
          (a.redis_ok && is_online a.presence_now sub rt.presence) _ _
          (live_or_fall_back-Keeps t (get sub rt.registry) (record { db = db; faults = faults }))
          (fall_back-Keeps t (record { db = db; faults = faults })),
    )

    serve_tunnel-WritesTo :
        (sub : Text) (c : Conn)
        → WritesTo sub c.db (serve_tunnel go exchange rt a sub r (tunnel_by_subdomain sub c)).1.db
    unfolding tunnel_by_subdomain
    serve_tunnel-WritesTo sub c =
        reads (λ db. or_missing (find_where (has_subdomain sub) db.tunnels))
          (λ x. WritesTo sub c.db (serve_tunnel go exchange rt a sub r x).1.db) c
          (λ faults. found-WritesTo sub c.db faults _ refl) (λ faults. inl refl)

  module _ {Rate Bucket : Type 0} (new_limiter : Rate → ℕ → Bucket)
      (allow : ℕ → Bucket → Bool × Bucket) (exchange : AgentSession → Request → Exchange)
      (a : Arrival) (r : Request) (rt : Router Rate Bucket) (c : Conn) where
    pub serve_http-WritesTo :
        WritesTo
          (subdomain_of go.lower_unicode rt.base_host r.host)
          c.db
          (serve_http new_limiter allow go exchange a r rt c).1.1.db
    unfolding serve_http
    serve_http-WritesTo =
        let sub = subdomain_of go.lower_unicode rt.base_host r.host in
        let passed =
          allow_key new_limiter allow a.limiter_now (a.ip ++ (codes "|" ++ sub))
            rt.tunnel_limiter in
        let P : Served × (Router Rate Bucket × Conn) → Type 0 = λ x. WritesTo sub c.db x.1.1.db in
        choose P (text_eq sub []) _ _
          (choose P (allow_key new_limiter allow a.limiter_now a.ip rt.dashboard_limiter).0 _ _
            (inl refl) (inl refl))
          (choose P passed.0 _ _
            (serve_tunnel-WritesTo exchange (record rt { tunnel_limiter = passed.1 }) a r sub c)
            (inl refl))

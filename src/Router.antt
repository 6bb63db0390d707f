-- ===== src/Router.antt =====
-- internal/edge/router.go: the public HTTP handler. It finds the subdomain in the Host header, and
-- sends the request to the agent, to the offline handler, or to the apex host's own pages.
pub mod Hosts
pub mod Writes
pub mod Isolation
use liveurl.Prelude.{
  Bool, Option, Text, [], codes, drop, has_prefix, if◌then◌else◌, none, not, some, text_eq,
  to_lower, ℕ, ◌&&◌, ◌++◌, ◌∷◌,
}
use liveurl.Http.{Request, Response, header_set}
use liveurl.Pages.{branded_page, http_error}
use liveurl.RateLimit.{IpLimiter, Readings, allow_key}
use liveurl.Registry.{AgentSession, Registry, get}
use liveurl.Store.{Conn, Failure, Result, Tunnel, err, not_found, ok}
use liveurl.Store.Tunnels.{tunnel_by_subdomain}
use liveurl.Store.Presence.{Presence, is_online}
use liveurl.Offline.{Answer, GoLibrary, answered, serve_offline}
use liveurl.Proxy.{Exchange, LiveReply, forward_live}

abbrev pub cons_head : ℕ → Option Text → Option Text
cons_head c none = none
cons_head c (some s) = some (c ∷ s)

-- `strings.HasSuffix` and `strings.TrimSuffix`: what stands before the suffix, if it is there.
unfoldable pub trim_suffix : Text → Text → Option Text
unfolding text_eq
trim_suffix p [] = if text_eq [] p then some [] else none
trim_suffix p (c ∷ s) =
    let rest = trim_suffix p s in if text_eq (c ∷ s) p then some [] else cons_head c rest

abbrev pub or_apex : Option Text → Text
or_apex none = []
or_apex (some s) = s

-- `Router.subdomain`; the empty text is the apex host.
unfoldable pub subdomain_of : (Text → Text) → Text → Text → Text
unfolding to_lower text_eq trim_suffix
subdomain_of lower_unicode base_host host =
    let h = to_lower lower_unicode host in
    let base = to_lower lower_unicode base_host in
    if text_eq h base then [] else or_apex (trim_suffix (codes "." ++ base) h)

-- A router; the dashboard, its API and the offline handler may be nil.
pub record Router (Rate Bucket : Type 0) : Type 0 where
  pub base_host : Text
  pub registry : Registry
  pub presence : Presence
  pub has_offline : Bool
  pub has_dashboard : Bool
  pub has_dashboard_api : Bool
  pub tunnel_limiter : IpLimiter Rate Bucket
  pub dashboard_limiter : IpLimiter Rate Bucket

-- Who answers: the router itself or the offline handler, the dashboard or its API (with the path that
-- they get), or an agent.
pub data Served : Type 0 where
  by_edge : Answer → Served
  by_dashboard by_dashboard_api : Text → Served
  by_agent : AgentSession → LiveReply → Served

unfoldable pub landing : Response
unfolding header_set branded_page
landing = record {
  status_code = 200;
  header = header_set (codes "Content-Type") (codes "text/html; charset=utf-8") [];
  body =
      branded_page (codes "liveurl")
        (codes "The tunnel URL that survives your laptop going to sleep.");
}

unfoldable pub too_many_requests : Response
unfolding header_set http_error
too_many_requests =
    http_error (header_set (codes "Retry-After") (codes "1") [])
      (codes "429 Too Many Requests" ++ 10 ∷ []) 429

-- The path without "/dashboard".
abbrev pub strip_dashboard : Text → Text
strip_dashboard path = drop 10 path

abbrev pub error_page : Text → Text → ℕ → Served
error_page title message status =
    by_edge (answered (http_error [] (branded_page title message) status))

-- The requests of a subdomain: what the edge knows when they come. `exchange` is what the agent's
-- connection does with a request, `redis_ok` whether the presence check is answered.
pub record Arrival : Type 0 where
  pub ip : Text
  pub sent : Option Text
  pub limiter_now : Readings
  pub presence_now : ℕ
  pub redis_ok : Bool

abbrev pub lookup_failure : Text → Failure → Served
lookup_failure sub not_found =
    error_page (codes "404 Not Found")
      (codes "No tunnel is registered for \"" ++ (sub ++ codes "\".")) 404
lookup_failure sub _ =
    error_page (codes "500 Internal Error") (codes "Something went wrong looking up this tunnel.")
      500

module _ {Rate Bucket : Type 0} where
  -- `serveApex`
  unfoldable pub serve_apex : Router Rate Bucket → Request → Served
  unfolding landing has_prefix
  serve_apex rt r =
      if has_prefix (codes "/dashboard/api/") r.path
      then if rt.has_dashboard_api
        then by_dashboard_api (strip_dashboard r.path)
        else by_edge (answered landing)
      else if has_prefix (codes "/dashboard") r.path
      then if rt.has_dashboard
        then by_dashboard (strip_dashboard r.path)
        else by_edge (answered landing)
      else by_edge (answered landing)

  -- `serveOffline`
  unfoldable pub fall_back :
      GoLibrary → Router Rate Bucket → Arrival → Request → Tunnel → Conn → Served × Conn
  unfolding serve_offline http_error branded_page
  fall_back go rt a r tunnel c =
      if rt.has_offline
      then (let (answer, c') = serve_offline go a.sent r tunnel c in (by_edge answer, c'))
      else (
        error_page (codes "503 Offline") (codes "This tunnel's agent is not connected right now.")
            503,
        c,
      )

  abbrev pub live_or_fall_back :
      GoLibrary
      → (AgentSession → Request → Exchange)
      → Router Rate Bucket
      → Arrival
      → Request
      → Tunnel
      → Option AgentSession
      → Conn
      → Served × Conn
  live_or_fall_back go exchange rt a r tunnel none c = fall_back go rt a r tunnel c
  live_or_fall_back go exchange rt a r tunnel (some sess) c =
      let (reply, c') = forward_live go r (exchange sess r) tunnel.id c in (by_agent sess reply, c')

  -- What follows the lookup of the tunnel.
  abbrev pub serve_tunnel :
      GoLibrary
      → (AgentSession → Request → Exchange)
      → Router Rate Bucket
      → Arrival
      → Text
      → Request
      → Result Tunnel × Conn
      → Served × Conn
  serve_tunnel go exchange rt a sub r (err x, c) = (lookup_failure sub x, c)
  serve_tunnel go exchange rt a sub r (ok tunnel, c) =
      if a.redis_ok && is_online a.presence_now sub rt.presence
      then live_or_fall_back go exchange rt a r tunnel (get sub rt.registry) c
      else fall_back go rt a r tunnel c

module _ {Rate Bucket : Type 0} (new_limiter : Rate → ℕ → Bucket)
    (allow : ℕ → Bucket → Bool × Bucket) where
  -- `ServeHTTP`
  unfoldable pub serve_http :
      GoLibrary
      → (AgentSession → Request → Exchange)
      → Arrival
      → Request
      → Router Rate Bucket
      → Conn
      → Served × (Router Rate Bucket × Conn)
  unfolding subdomain_of allow_key too_many_requests serve_apex tunnel_by_subdomain fall_back
      forward_live
  serve_http go exchange a r rt c =
      let sub = subdomain_of go.lower_unicode rt.base_host r.host in
      if text_eq sub []
      then (let (pass, l) = allow_key new_limiter allow a.limiter_now a.ip rt.dashboard_limiter in
          let rt' = record rt { dashboard_limiter = l } in
          if pass
          then (serve_apex rt' r, (rt', c))
          else (by_edge (answered too_many_requests), (rt', c)))
      else (let (pass, l) =
            allow_key new_limiter allow a.limiter_now (a.ip ++ (codes "|" ++ sub))
              rt.tunnel_limiter in
          let rt' = record rt { tunnel_limiter = l } in
          if pass
          then (let (served, c') =
                serve_tunnel go exchange rt' a sub r (tunnel_by_subdomain sub c) in
              (served, (rt', c')))
          else (by_edge (answered too_many_requests), (rt', c)))

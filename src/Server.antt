-- ===== src/Server.antt =====
-- The server as the command serve of cmd/liveurld/main.go puts it together: the tunnel server, the public
-- router and the control API over one database, one registry and one Redis. A step is one call of a
-- handler, with the statements that fail during it; calls that run at the same time come one after another.
pub mod Requests
pub mod Handling
pub mod Api
pub mod Connections
pub mod Invariant
pub mod Delivery
pub mod Tests
use liveurl.Prelude.{Bool, List, Option, Text, if◌then◌else◌, true, ℕ, ◌+◌}
use liveurl.Http.{Request}
use liveurl.RateLimit.{IpLimiter, Readings, new_ip_limiter}
use liveurl.Registry.{AgentSession, new_registry}
use liveurl.Config.{
  Floats, ServerConfig, new_dashboard_limiter, new_handshake_limiter, new_tunnel_limiter,
}
use liveurl.Store.Presence.{Presence}
use liveurl.Store.{Conn, Db}
use liveurl.Offline.{GoLibrary}
use liveurl.Replay.{Session, exchange}
use liveurl.Proxy.{Exchange}
use liveurl.Router.{Arrival, Router, Served, serve_http}
use liveurl.Control.{ApiReply, ApiRequest, ApiServer}
use liveurl.Control.Routes.{Route, serve_api}
use liveurl.TunnelServer.{Edge, Public, on_close, on_tick}
use liveurl.TunnelServer.Listener.{Hello, Started, admit, handle_conn, on_connect}

pub record ServerState (Rate Bucket : Type 0) : Type 0 where
  pub db : Db
  pub edge : Edge
  pub tunnel_limiter : IpLimiter Rate Bucket
  pub dashboard_limiter : IpLimiter Rate Bucket
  pub handshake_limiter : IpLimiter Rate Bucket
  pub auth_limiter : IpLimiter Rate Bucket

-- 5 minutes
abbrev pub auth_rate_idle_ttl : ℕ
auth_rate_idle_ttl = 300000000000

-- The state that serve starts with: the tables and the presence keys are those of before, and the rate of
-- NewServer's limiter is five a minute.
unfoldable pub new_state :
    {Float Bucket : Type 0}
    → Floats Float
    → ServerConfig Float
    → Db
    → Presence
    → ℕ
    → ServerState Float Bucket
unfolding new_tunnel_limiter new_dashboard_limiter new_handshake_limiter new_ip_limiter
new_state fl cfg db presence now = record {
  db = db;
  edge = record { registry = new_registry; presence = presence; now = now };
  tunnel_limiter = new_tunnel_limiter fl cfg;
  dashboard_limiter = new_dashboard_limiter fl cfg;
  handshake_limiter = new_handshake_limiter fl cfg;
  auth_limiter = new_ip_limiter (fl.per_second (fl.literal 5)) 5 auth_rate_idle_ttl;
}

-- A connection of an agent: its host, the time, the random bytes, what it brings, whether the reply is
-- written and whether Redis answers, and its number.
pub record Dial : Type 0 where
  pub host : Option Text
  pub limiter_now : Readings
  pub random : Text
  pub brings : Hello
  pub sent : Bool
  pub redis_ok : Bool
  pub number : ℕ

-- A call of the API: its route, the random bytes, the time, and what its agents' sessions are.
pub record Call : Type 0 where
  pub route : Route
  pub random : Option Text
  pub limiter_now : Readings
  pub redis_ok : Bool
  pub request : ApiRequest
  pub session_of : AgentSession → Session

-- What happens to the server. `drains` is the goroutine of OnConnect. A request for the dashboard's API,
-- which serve_http hands on, is a call as well.
pub data Input : Type 0 where
  dials : Dial → Input
  drains : (AgentSession → Session) → AgentSession → Input
  ticks closes : Bool → AgentSession → Input
  requests : (AgentSession → Request → Exchange) → Arrival → Request → Input
  calls : Call → Input
  passes : ℕ → Input

module _ {Rate Bucket : Type 0} (new_limiter : Rate → ℕ → Bucket)
    (allow : ℕ → Bucket → Bool × Bucket) (go : GoLibrary) (public : Public) where
  abbrev pub State : Type 0
  State = ServerState Rate Bucket

  -- The router that NewRouter makes of the server's parts.
  abbrev pub router_of : State → Router Rate Bucket
  router_of s = record {
    base_host = public.public_host;
    registry = s.edge.registry;
    presence = s.edge.presence;
    has_offline = true;
    has_dashboard = true;
    has_dashboard_api = true;
    tunnel_limiter = s.tunnel_limiter;
    dashboard_limiter = s.dashboard_limiter;
  }

  abbrev pub api_of : Bool → State → ApiServer
  api_of redis_ok s = record {
    registry = s.edge.registry;
    presence = s.edge.presence;
    now = s.edge.now;
    redis_ok = redis_ok;
  }

  abbrev pub after_dial : IpLimiter Rate Bucket → State → Started → State
  after_dial limiter s (o, (e, c)) = record s { handshake_limiter = limiter; edge = e; db = c.db }

  -- A connection that the limiter lets pass is served.
  abbrev pub dial : List Bool → Dial → State → State
  unfolding admit handle_conn
  dial faults d s =
      let (pass, limiter) = admit new_limiter allow d.limiter_now d.host s.handshake_limiter in
      if pass
      then after_dial limiter s (
          handle_conn go.crypto public d.random d.brings d.sent d.redis_ok d.number s.edge
            (record { db = s.db; faults = faults }))
      else record s { handshake_limiter = limiter }

  abbrev pub after_request : State → Served × (Router Rate Bucket × Conn) → State
  after_request s (served, (rt, c)) = record s {
    tunnel_limiter = rt.tunnel_limiter;
    dashboard_limiter = rt.dashboard_limiter;
    db = c.db;
  }

  abbrev pub after_call : State → ApiReply × (IpLimiter Rate Bucket × Conn) → State
  after_call s (a, (limiter, c)) = record s { auth_limiter = limiter; db = c.db }

  unfoldable pub step : List Bool → Input → State → State
  unfolding dial on_connect on_tick on_close serve_http serve_api
  step faults (dials d) s = dial faults d s
  step faults (drains session_of sess) s = record s {
    db = (on_connect go.format_time session_of sess (record { db = s.db; faults = faults })).db;
  }
  step faults (ticks redis_ok sess) s = record s { edge = on_tick redis_ok sess s.edge }
  step faults (closes redis_ok sess) s = record s { edge = on_close redis_ok sess s.edge }
  step faults (requests exchange a r) s = after_request s (
      serve_http new_limiter allow go exchange (record a { presence_now = s.edge.now }) r
        (router_of s) (record { db = s.db; faults = faults }))
  step faults (calls call) s = after_call s (
      serve_api new_limiter allow go call.session_of (api_of call.redis_ok s) call.route call.random
        call.limiter_now call.request s.auth_limiter (record { db = s.db; faults = faults }))
  step faults (passes t) s = record s {
    db = record s.db { now = s.db.now + t };
    edge = record s.edge { now = s.edge.now + t };
  }

  -- The states that the server comes to from `start`.
  pub data Reachable (start : State) : State → Type 0 where
    started_at : Reachable start start
    stepped :
        {s : State} (faults : List Bool) (i : Input)
        → Reachable start s
        → Reachable start (step faults i s)

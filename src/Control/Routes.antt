-- ===== src/Control/Routes.antt =====
-- internal/control/server.go, NewServer and ServeHTTP: each route of the API with its handler, behind
-- withAuth or rateLimitAuth. Which route a request has is net/http's ServeMux.
use liveurl.Prelude.{Bool, Option, Text, ℕ}
use liveurl.RateLimit.{IpLimiter, Readings}
use liveurl.Registry.{AgentSession}
use liveurl.Store.{Conn}
use liveurl.Offline.{GoLibrary}
use liveurl.Replay.{Session}
use liveurl.Control.{
  ApiReply, ApiRequest, ApiServer, plain, post_log_in, post_sign_up, rate_limit_auth, reply,
  with_auth,
}
use liveurl.Control.Handlers.{delete_events, get_events, get_status, get_tunnels, post_replay}

-- A route, or none: the reply of the ServeMux itself then, with its status and its plain text.
pub data Route : Type 0 where
  no_route : ℕ → Text → Route
  sign_up_route log_in_route tunnels_route events_route : Route
  clear_route replay_route status_route : Route

module _ {Rate Bucket : Type 0} (new_limiter : Rate → ℕ → Bucket)
    (allow : ℕ → Bucket → Bool × Bucket) (go : GoLibrary) where
  abbrev pub Limiter : Type 0
  Limiter = IpLimiter Rate Bucket

  abbrev pub beside : Limiter → ApiReply × Conn → ApiReply × (Limiter × Conn)
  beside limiter (a, c) = (a, (limiter, c))

  -- `ServeHTTP`, with the random bytes of a sign-up or a login, and the times of the limiter's call.
  unfoldable pub serve_api :
      (AgentSession → Session)
      → ApiServer
      → Route
      → Option Text
      → Readings
      → ApiRequest
      → Limiter
      → Conn
      → ApiReply × (Limiter × Conn)
  unfolding rate_limit_auth with_auth post_sign_up post_log_in get_tunnels get_events delete_events
      post_replay get_status
  serve_api session_of s (no_route status text) random now r limiter c =
      (reply status (plain text), (limiter, c))
  serve_api session_of s sign_up_route random now r limiter c =
      rate_limit_auth new_limiter allow (post_sign_up go random) now r limiter c
  serve_api session_of s log_in_route random now r limiter c =
      rate_limit_auth new_limiter allow (post_log_in go random) now r limiter c
  serve_api session_of s tunnels_route random now r limiter c =
      beside limiter (with_auth go.crypto (get_tunnels s) r c)
  serve_api session_of s events_route random now r limiter c =
      beside limiter (with_auth go.crypto get_events r c)
  serve_api session_of s clear_route random now r limiter c =
      beside limiter (with_auth go.crypto delete_events r c)
  serve_api session_of s replay_route random now r limiter c =
      beside limiter (with_auth go.crypto (post_replay go session_of s) r c)
  serve_api session_of s status_route random now r limiter c =
      beside limiter (with_auth go.crypto (get_status s) r c)

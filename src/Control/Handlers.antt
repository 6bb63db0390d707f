-- ===== src/Control/Handlers.antt =====
-- internal/control/server.go: the handlers behind withAuth.
use liveurl.Prelude.{
  Bool, List, Option, Text, [], codes, if◌then◌else◌, inl, inr, leb, length, map, none, some,
  text_eq, ℕ, ◌++◌, ◌==◌, ◌⊎◌,
}
use liveurl.Registry.{AgentSession, get}
use liveurl.Store.{
  Conn, Done, Exec, Failure, Result, Tunnel, WebhookEvent, dead, delivered, err, not_found, ok,
  queued, replaying, statement,
}
use liveurl.Store.Users.{User}
use liveurl.Store.Tunnels.{list_tunnels, tunnel_by_id, tunnel_by_subdomain}
use liveurl.Store.Events.{clear_events, event_by_id, list_events, requeue_event}
use liveurl.Store.Snapshots.{snapshot_stats}
use liveurl.Offline.{GoLibrary}
use liveurl.Replay.{Reply, Session, replay_event}
use liveurl.Control.{
  ApiError, ApiReply, ApiRequest, ApiServer, Handler, empty, event_items, message, of_failure,
  of_replay, replay_status, reply, shown_online, tunnel_items, tunnel_status, write_err,
}

-- The errors of `resolveOwnedTunnel`.
pub data ResolveError : Type 0 where
  missing_param not_owner : ResolveError
  lookup : Failure → ResolveError

abbrev pub error_text : ResolveError → ApiError
error_text missing_param = message (codes "missing ?tunnel= query parameter")
error_text not_owner = message (codes "tunnel does not belong to this account")
error_text (lookup x) = of_failure x

-- `statusFor`
unfoldable pub status_for : ResolveError → ℕ
status_for missing_param = 400
status_for not_owner = 403
status_for (lookup not_found) = 404
status_for (lookup _) = 500

abbrev pub owned_by : User → Result Tunnel × Conn → (ResolveError ⊎ Tunnel) × Conn
owned_by user (err x, c) = (inl (lookup x), c)
owned_by user (ok t, c) = if t.user_id == user.id then (inr t, c) else (inl not_owner, c)

-- `resolveOwnedTunnel`
unfoldable pub resolve_owned_tunnel : ApiRequest → User → Conn → (ResolveError ⊎ Tunnel) × Conn
unfolding tunnel_by_subdomain
resolve_owned_tunnel r user c =
    if text_eq r.tunnel []
    then (inl missing_param, c)
    else owned_by user (tunnel_by_subdomain r.tunnel c)

-- What a handler does with its own tunnel; an error is written.
abbrev pub for_owned :
    (Tunnel → Conn → ApiReply × Conn) → (ResolveError ⊎ Tunnel) × Conn → ApiReply × Conn
for_owned body (inl x, c) = (write_err (status_for x) (error_text x), c)
for_owned body (inr t, c) = body t c

-- The value that a handler encodes, or status 500 where the store fails.
abbrev pub encoded : {A : Type 0} → (A → ApiReply) → Result A × Conn → ApiReply × Conn
encoded f (ok a, c) = (f a, c)
encoded f (err x, c) = (write_err 500 (of_failure x), c)

abbrev pub tunnel_item : ApiServer → Tunnel → Text × Bool
tunnel_item s t = (t.subdomain, shown_online s t.subdomain)

unfoldable pub get_tunnels : ApiServer → Handler
unfolding list_tunnels
get_tunnels s r user c =
    encoded (λ ts. reply 200 (tunnel_items (map (tunnel_item s) ts))) (list_tunnels user.id c)

-- The state filter of a request: all, one state, or a text that is no state, which no row has.
abbrev pub list_by_text : ℕ → Text → Exec (List WebhookEvent)
list_by_text t state =
    if text_eq state []
    then list_events t none
    else if text_eq state (codes "queued")
    then list_events t (some queued)
    else if text_eq state (codes "replaying")
    then list_events t (some replaying)
    else if text_eq state (codes "delivered")
    then list_events t (some delivered)
    else if text_eq state (codes "dead")
    then list_events t (some dead)
    else statement λ db. (ok [], db)

abbrev pub events_of : ApiRequest → Tunnel → Conn → ApiReply × Conn
events_of r t c = encoded (λ es. reply 200 (event_items es)) (list_by_text t.id r.state c)

unfoldable pub get_events : Handler
unfolding resolve_owned_tunnel list_events statement
get_events r user c = for_owned (events_of r) (resolve_owned_tunnel r user c)

abbrev pub clear_of : Tunnel → Conn → ApiReply × Conn
clear_of t c = encoded (λ _. reply 204 empty) (clear_events t.id c)

unfoldable pub delete_events : Handler
unfolding resolve_owned_tunnel clear_events
delete_events r user c = for_owned clear_of (resolve_owned_tunnel r user c)

abbrev pub stats_after : ApiServer → Tunnel → Result (List WebhookEvent) × Conn → ApiReply × Conn
stats_after s t (err x, c) = (write_err 500 (of_failure x), c)
stats_after s t (ok queued_now, c) =
    encoded
      (λ stats.
        reply 200
          (tunnel_status t.subdomain (shown_online s t.subdomain) (length queued_now) stats))
      (snapshot_stats t.id c)

abbrev pub status_of_tunnel : ApiServer → Tunnel → Conn → ApiReply × Conn
status_of_tunnel s t c = stats_after s t (list_events t.id (some queued) c)

unfoldable pub get_status : ApiServer → Handler
unfolding resolve_owned_tunnel list_events snapshot_stats
get_status s r user c = for_owned (status_of_tunnel s) (resolve_owned_tunnel r user c)

abbrev pub replay_reply : GoLibrary → Reply → ApiReply
replay_reply go (status, some x) = write_err 502 (of_replay x)
replay_reply go (status, none) =
    if leb 500 status
    then reply 200 (
        replay_status (codes "failed") (
          codes "local app returned "
          ++ (go.format_int status ++ codes "; event re-queued for retry")))
    else reply 200
        (replay_status (codes "replayed") (codes "local app returned " ++ go.format_int status))

module _ (go : GoLibrary) (session_of : AgentSession → Session) (s : ApiServer) where
  abbrev pub replay_to : WebhookEvent → Option AgentSession → Conn → ApiReply × Conn
  replay_to e none c = (
    reply 202 (
        replay_status (codes "queued")
          (codes "agent offline; will retry automatically on next connect")),
    c,
  )
  replay_to e (some sess) c =
      let (r, link) =
        replay_event go.format_time e (record { conn = c; session = session_of sess }) in
      (replay_reply go r, link.conn)

  abbrev pub after_requeue : WebhookEvent → Tunnel → Result Done × Conn → ApiReply × Conn
  after_requeue e t (err x, c) = (write_err 500 (of_failure x), c)
  after_requeue e t (ok _, c) = replay_to e (get t.subdomain s.registry) c

  abbrev pub replay_for : User → WebhookEvent → Result Tunnel × Conn → ApiReply × Conn
  replay_for user e (err x, c) = (write_err 500 (of_failure x), c)
  replay_for user e (ok t, c) =
      if t.user_id == user.id
      then after_requeue e t (requeue_event e.id c)
      else (write_err 403 (error_text not_owner), c)

  abbrev pub replay_found : User → Result WebhookEvent × Conn → ApiReply × Conn
  replay_found user (err x, c) =
      (write_err (status_for (lookup x)) (message (codes "event not found")), c)
  replay_found user (ok e, c) = replay_for user e (tunnel_by_id e.tunnel_id c)

  abbrev pub replay_id : User → Option ℕ → Conn → ApiReply × Conn
  replay_id user none c = (write_err 400 (message (codes "invalid event id")), c)
  replay_id user (some i) c = replay_found user (event_by_id i c)

  -- The handler `replayEvent`
  unfoldable pub post_replay : Handler
  unfolding event_by_id tunnel_by_id requeue_event replay_event get status_for
  post_replay r user c = replay_id user r.event_id c

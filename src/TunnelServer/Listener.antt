-- ===== src/TunnelServer/Listener.antt =====
-- internal/edge/tunnelserver.go: a connection of an agent, from Accept to the running session, and what
-- cmd/liveurld/main.go does when a session begins.
use liveurl.Prelude.{Bool, Option, Text, if◌then◌else◌, none, not, some, true, ℕ}
use liveurl.RateLimit.{IpLimiter, Readings, allow_key}
use liveurl.Store.{Conn, Result, Tunnel, err, ok}
use liveurl.Store.Users.{Crypto}
use liveurl.Store.Tunnels.{tunnel_by_subdomain}
use liveurl.Registry.{AgentSession}
use liveurl.Replay.{Session, drain}
use liveurl.TunnelServer.{Edge, Handshake, HandshakeReply, Public, authenticate, connect}

-- What the connection brings before the handshake is looked at: yamux cannot be set up, there is no
-- stream, the handshake does not decode, or there is one.
pub data Hello : Type 0 where
  no_mux no_stream undecodable : Hello
  hello : Handshake → Hello

-- The session that runs then, if there is one, and the state of the server and of the store.
abbrev pub Started : Type 0
Started = Option AgentSession × (Edge × Conn)

abbrev pub tunnel_id_or_zero : Result Tunnel → ℕ
tunnel_id_or_zero (ok t) = t.id
tunnel_id_or_zero (err x) = 0

-- Once the reply is written: the tunnel is looked up, the session registered and a first heartbeat made.
abbrev pub started : Bool → ℕ → Text → Edge → Result Tunnel × Conn → Started
started redis_ok number subdomain e (r, c) =
    let sess : AgentSession = record {
      number = number;
      subdomain = subdomain;
      tunnel_id = tunnel_id_or_zero r;
    } in
    (some sess, (connect redis_ok sess e, c))

abbrev pub after_reply : Bool → Bool → ℕ → Edge → HandshakeReply × Conn → Started
after_reply sent redis_ok number e (reply, c) =
    if not sent
    then (none, (e, c))
    else if not reply.accepted
    then (none, (e, c))
    else started redis_ok number reply.subdomain e (tunnel_by_subdomain reply.subdomain c)

-- `handleConn`, up to the heartbeat loop. `sent` says whether the reply can be written, `number` is the
-- connection's.
unfoldable pub handle_conn :
    Crypto → Public → Text → Hello → Bool → Bool → ℕ → Edge → Conn → Started
unfolding authenticate connect tunnel_by_subdomain
handle_conn crypto p bytes no_mux sent redis_ok number e c = (none, (e, c))
handle_conn crypto p bytes no_stream sent redis_ok number e c = (none, (e, c))
handle_conn crypto p bytes undecodable sent redis_ok number e c = (none, (e, c))
handle_conn crypto p bytes (hello hs) sent redis_ok number e c =
    after_reply sent redis_ok number e (authenticate crypto p bytes hs c)

-- OnConnect, as the command serve sets it: the queue of the session's tunnel is drained.
unfoldable pub on_connect : (ℕ → Text) → (AgentSession → Session) → AgentSession → Conn → Conn
unfolding drain
on_connect format_time session_of sess c =
    (drain format_time sess.tunnel_id (record { conn = c; session = session_of sess })).conn

module _ {Rate Bucket : Type 0} (new_limiter : Rate → ℕ → Bucket)
    (allow : ℕ → Bucket → Bool × Bucket) where
  -- The test of ListenAndServe on a connection that was accepted, whose host is `none` where
  -- SplitHostPort fails: whether the connection is served.
  unfoldable pub admit :
      Readings → Option Text → IpLimiter Rate Bucket → Bool × IpLimiter Rate Bucket
  unfolding allow_key
  admit now none l = (true, l)
  admit now (some host) l = allow_key new_limiter allow now host l

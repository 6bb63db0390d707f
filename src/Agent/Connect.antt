-- ===== src/Agent/Connect.antt =====
-- internal/agent/agent.go, connectAndServe: one connection of the agent, up to the loop that accepts
-- streams. The network is an argument: how far the connection comes, and what the server replies.
use liveurl.Prelude.{Bool, Option, Text, [], if◌then◌else◌, none, not, some, text_eq}
use liveurl.TunnelServer.{Handshake, HandshakeReply, protocol_version}
use liveurl.Cli.Commands.{AgentConfig}

pub data ConnectError : Type 0 where
  invalid_address dial_error mux_error stream_error send_error reply_error : ConnectError
  handshake_rejected : Text → ConnectError

pub data Reached : Type 0 where
  no_dial no_mux no_stream not_sent no_reply : Reached
  server : (Handshake → HandshakeReply) → Reached

abbrev pub handshake_of : AgentConfig → Handshake
handshake_of cfg = record {
  version = protocol_version;
  token = cfg.token;
  subdomain = cfg.subdomain;
  buffer_rules = cfg.buffer_rules;
}

-- The public URL and the error that connectAndServe returns.
abbrev pub Connected : Type 0
Connected = Text × Option ConnectError

abbrev pub after_handshake : HandshakeReply → Connected
after_handshake reply =
    if not reply.accepted
    then ([], some (handshake_rejected reply.error))
    else (reply.public_url, none)

abbrev pub handshake_with : AgentConfig → Reached → Connected
handshake_with cfg no_dial = ([], some dial_error)
handshake_with cfg no_mux = ([], some mux_error)
handshake_with cfg no_stream = ([], some stream_error)
handshake_with cfg not_sent = ([], some send_error)
handshake_with cfg no_reply = ([], some reply_error)
handshake_with cfg (server replies) = after_handshake (replies (handshake_of cfg))

-- The host of the address (net.SplitHostPort) is the name that TLS checks.
unfoldable pub connect_and_serve :
    (Text → Option Text) → (Text → Option Text → Reached) → AgentConfig → Connected
connect_and_serve split_host network cfg =
    if cfg.use_tls
    then elim (split_host cfg.server_addr) [
      | none ↦ ([], some invalid_address)
      | some host ↦ handshake_with cfg (network cfg.server_addr (some host))
    ]
    else handshake_with cfg (network cfg.server_addr none)

-- What `Run` tests before it resets the backoff.
abbrev pub was_healthy : Connected → Bool
was_healthy (url, e) = not (text_eq url [])

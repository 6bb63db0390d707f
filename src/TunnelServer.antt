-- ===== src/TunnelServer.antt =====
-- internal/edge/tunnelserver.go and the handshake types of internal/proto/proto.go: the handshake of
-- an agent, and the life of its session in the registry and in the presence keys.
pub mod Handshakes
pub mod Sessions
pub mod Listener
pub mod Registration
pub mod Tests
use liveurl.Prelude.{
  Bool, List, Text, [], codes, false, if◌then◌else◌, leb, length, not, suc, true, zero, ℕ, ◌&&◌,
  ◌++◌, ◌==◌, ◌||◌, ◌∷◌,
}
use liveurl.Store.{Conn, Failure, Result, Tunnel, err, ok, subdomain_taken}
use liveurl.Store.Users.{Crypto, User, hex, user_by_token}
use liveurl.Store.Tunnels.{claim_tunnel}
use liveurl.Store.Presence.{Presence, clear, heartbeat}
use liveurl.Registry.{AgentSession, Registry, put, remove}

abbrev pub protocol_version : ℕ
protocol_version = 1

pub record Handshake : Type 0 where
  pub version : ℕ
  pub token : Text
  pub subdomain : Text
  pub buffer_rules : List Text

pub record HandshakeReply : Type 0 where
  pub accepted : Bool
  pub error : Text
  pub subdomain : Text
  pub public_url : Text

abbrev pub is_alnum : ℕ → Bool
is_alnum c = (leb b'a' c && leb c b'z') || (leb b'0' c && leb c b'9')

-- `n` bytes at least before the last one, which is a letter or a digit; the others may be dashes.
unfoldable pub ends_alnum : ℕ → Text → Bool
ends_alnum n [] = false
ends_alnum zero (c ∷ []) = is_alnum c
ends_alnum (suc n) (c ∷ []) = false
ends_alnum zero (c ∷ d ∷ s) = (is_alnum c || c == b'-') && ends_alnum zero (d ∷ s)
ends_alnum (suc n) (c ∷ d ∷ s) = (is_alnum c || c == b'-') && ends_alnum n (d ∷ s)

-- `^[a-z0-9][a-z0-9-]{1,61}[a-z0-9]$`
unfoldable pub valid_subdomain : Text → Bool
unfolding ends_alnum
valid_subdomain [] = false
valid_subdomain (c ∷ s) = is_alnum c && (ends_alnum 1 s && leb (length s) 62)

-- `randomSubdomain` on the four bytes that were read.
abbrev pub random_subdomain : Text → Text
random_subdomain bytes = codes "t-" ++ hex bytes

abbrev pub rejected : Text → HandshakeReply
rejected error = record { accepted = false; error = error; subdomain = []; public_url = [] }

abbrev pub or_random : Text → Text → Text
or_random bytes [] = random_subdomain bytes
or_random bytes (c ∷ s) = c ∷ s

abbrev pub claim_error : Failure → Text
claim_error subdomain_taken = codes "subdomain already in use by another account"
claim_error _ = codes "internal error claiming subdomain"

-- The host under which the tunnels are public, and whether it is served over TLS.
pub record Public : Type 0 where
  pub public_host : Text
  pub public_tls : Bool

abbrev pub granted : Public → Tunnel → HandshakeReply
granted p t = record {
  accepted = true;
  error = [];
  subdomain = t.subdomain;
  public_url =
      (if p.public_tls then codes "https" else codes "http")
      ++ (codes "://" ++ (t.subdomain ++ (codes "." ++ p.public_host)));
}

abbrev pub claim_reply : Public → Result Tunnel × Conn → HandshakeReply × Conn
claim_reply p (ok t, c) = (granted p t, c)
claim_reply p (err x, c) = (rejected (claim_error x), c)

abbrev pub claim_reply_for :
    Public → Text → Text → List Text → Result User × Conn → HandshakeReply × Conn
claim_reply_for p bytes subdomain rules (err x, c) = (rejected (codes "invalid auth token"), c)
claim_reply_for p bytes subdomain rules (ok user, c) =
    if not (valid_subdomain (or_random bytes subdomain))
    then (rejected (codes "invalid subdomain: use 2-63 lowercase letters, digits, hyphens"), c)
    else claim_reply p (claim_tunnel user.id (or_random bytes subdomain) rules c)

-- `authenticate`, with the random bytes that it may need.
unfoldable pub authenticate : Crypto → Public → Text → Handshake → Conn → HandshakeReply × Conn
unfolding valid_subdomain hex
authenticate crypto p bytes hs c =
    if not (hs.version == protocol_version)
    then (rejected (codes "unsupported protocol version"), c)
    else claim_reply_for p bytes hs.subdomain hs.buffer_rules (user_by_token crypto hs.token c)

-- What the server keeps of its agents.
pub record Edge : Type 0 where
  pub registry : Registry
  pub presence : Presence
  pub now : ℕ

-- handleConn once the handshake is accepted: Put, and the first heartbeat, which may fail.
unfoldable pub connect : Bool → AgentSession → Edge → Edge
unfolding put heartbeat
connect redis_ok sess e = record e {
  registry = put sess e.registry;
  presence = if redis_ok then heartbeat e.now sess.subdomain e.presence else e.presence;
}

-- The three cases of heartbeatLoop's select, but for the shutdown, which changes nothing: a tick, and
-- the close of the connection.
unfoldable pub on_tick : Bool → AgentSession → Edge → Edge
unfolding heartbeat
on_tick redis_ok sess e = record e {
  presence = if redis_ok then heartbeat e.now sess.subdomain e.presence else e.presence;
}

unfoldable pub on_close : Bool → AgentSession → Edge → Edge
unfolding remove clear
on_close redis_ok sess e = record e {
  registry = remove sess e.registry;
  presence = if redis_ok then clear sess.subdomain e.presence else e.presence;
}

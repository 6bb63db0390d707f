-- ===== src/TunnelServer/Tests.antt =====
-- Tests of the tunnel server (internal/edge/tunnelserver.go).
use liveurl.Store.Tunnels.{tunnel_by_subdomain}
use liveurl.TunnelServer.Registration.{Registers, handle_conn-Registers}
use liveurl.TunnelServer.Listener.{handle_conn, hello}
use liveurl.Prelude.{[], arith, codes, false, length, none, refl, some, true, ◌∷◌, ◌≡◌, ◌≤◌}
use liveurl.Registry.{AgentSession, get, new_registry}
use liveurl.Store.Presence.{is_online}
use liveurl.TunnelServer.{Edge, Handshake, Public, authenticate, valid_subdomain}
use liveurl.TunnelServer.Handshakes.{GrantedBy, authenticate-GrantedBy, valid_subdomain-length}
use liveurl.TunnelServer.Sessions.{
  AllKeep, closes, connect-stays, connects, reconnect-offline, serve_events,
}
use liveurl.Fixtures.{plain_crypto, quiet_conn}
use liveurl.Control.{reply}

abbrev public : Public
public = record { public_host = codes "lvh.me"; public_tls = false }

abbrev handshake : Handshake
handshake = record { version = 1; token = codes "t"; subdomain = codes "shop"; buffer_rules = [] }

authenticate-GrantedBy_example :
    GrantedBy plain_crypto handshake quiet_conn
      (authenticate plain_crypto public [] handshake quiet_conn)
authenticate-GrantedBy_example = authenticate-GrantedBy plain_crypto public [] handshake quiet_conn

valid_subdomain-length_example : (3 ≤ length (codes "a-b")) × (length (codes "a-b") ≤ 63)
unfolding valid_subdomain
valid_subdomain-length_example = valid_subdomain-length (codes "a-b") refl

abbrev old_session : AgentSession
old_session = record { number = 1; subdomain = codes "shop"; tunnel_id = 7 }

abbrev new_session : AgentSession
new_session = record { number = 2; subdomain = codes "shop"; tunnel_id = 7 }

abbrev empty_edge : Edge
empty_edge = record { registry = new_registry; presence = λ s. none; now = 0 }

connect-stays_example :
    get
      (codes "shop")
      (serve_events (connects true new_session ∷ closes true old_session ∷ []) empty_edge).registry
    ≡ some new_session
unfolding AllKeep
connect-stays_example =
    connect-stays true new_session (closes true old_session ∷ []) empty_edge
      ((λ e. omega (arith, e)), tt)

reconnect-offline_example :
    let e' =
      serve_events
        (connects true old_session ∷ connects true new_session ∷ closes true old_session ∷ [])
        empty_edge in
    (get (codes "shop") e'.registry ≡ some new_session)
    × (is_online e'.now (codes "shop") e'.presence ≡ false)
reconnect-offline_example =
    reconnect-offline old_session new_session empty_edge refl (λ e. omega (arith, e))

handle_conn-Registers_example :
    let (reply, c₁) = authenticate plain_crypto public [] handshake quiet_conn in
    Registers plain_crypto handshake 1 empty_edge quiet_conn
      (tunnel_by_subdomain reply.subdomain c₁).0
      (handle_conn plain_crypto public [] (hello handshake) true true 1 empty_edge quiet_conn)
handle_conn-Registers_example =
    handle_conn-Registers plain_crypto public [] handshake true true 1 empty_edge quiet_conn

-- ===== src/TunnelServer/Registration.antt =====
-- Which sessions the tunnel server registers (internal/edge/tunnelserver.go, handleConn).
use liveurl.Prelude.{
  Bool, List, Option, Text, ap, arith, choose, find_where, if◌then◌else◌, inl, inr, none, not, refl,
  some, sym, text_eq, text_eq_refl, ℕ, ◌∙◌, ◌≡◌, ◌⊎◌,
}
use liveurl.Store.{Conn, Result, Tunnel, database, err, ok}
use liveurl.Store.Hoare.{reads}
use liveurl.Store.Users.{Crypto, User, user_by_token}
use liveurl.Store.Tunnels.{has_subdomain, or_missing, tunnel_by_subdomain}
use liveurl.Store.Tunnels.Owner.{owner, owner_of}
use liveurl.Registry.{AgentSession, get, put}
use liveurl.TunnelServer.{Edge, Handshake, HandshakeReply, Public, authenticate, connect, rejected}
use liveurl.TunnelServer.Handshakes.{GrantedBy, authenticate-GrantedBy}
use liveurl.TunnelServer.Listener.{
  Started, after_reply, handle_conn, hello, started, tunnel_id_or_zero,
}

-- The session's tunnel is the account's tunnel of its subdomain; or it is 0, and the statement that
-- looks it up failed.
abbrev pub KnowsTunnel : AgentSession → User → List Tunnel → Result Tunnel → Type 0
KnowsTunnel sess user tunnels looked =
    ((looked ≡ err database) × (sess.tunnel_id ≡ 0))
    ⊎ ((t : Tunnel) × (find_where (has_subdomain sess.subdomain) tunnels ≡ some t)
        × (t.id ≡ sess.tunnel_id)
        × (t.user_id ≡ user.id))

-- No session, and the server as it was; or the session of an account on a subdomain of its own, the
-- other subdomains as they were.
abbrev pub Registers : Crypto → Handshake → ℕ → Edge → Conn → Result Tunnel → Started → Type 0
Registers crypto hs number e c looked (none, (e', c')) = e' ≡ e
Registers crypto hs number e c looked (some sess, (e', c')) =
    (sess.number ≡ number)
    × (get sess.subdomain e'.registry ≡ some sess)
    × ((s : Text)
        → get s e'.registry ≡ (if text_eq sess.subdomain s then some sess else get s e.registry))
    × ((user : User) × ((user_by_token crypto hs.token c).0 ≡ ok user)
        × (owner sess.subdomain c'.db.tunnels ≡ some user.id)
        × KnowsTunnel sess user c'.db.tunnels looked)

connect-get :
    (up : Bool) (sess : AgentSession) (e : Edge) (s : Text)
    → get s (connect up sess e).registry
      ≡ (if text_eq sess.subdomain s then some sess else get s e.registry)
unfolding connect put get
connect-get up sess e s = refl

connect-registers :
    (up : Bool) (sess : AgentSession) (e : Edge)
    → get sess.subdomain (connect up sess e).registry ≡ some sess
connect-registers up sess e =
    connect-get up sess e sess.subdomain ∙ rw (text_eq_refl sess.subdomain) refl

known :
    (number : ℕ) (sub : Text) (user : User) (tunnels : List Tunnel) (o : Option Tunnel)
    → find_where (has_subdomain sub) tunnels ≡ o
    → owner sub tunnels ≡ some user.id
    → KnowsTunnel
        (record { number = number; subdomain = sub; tunnel_id = tunnel_id_or_zero (or_missing o) })
        user
        tunnels
        (or_missing o)
known number sub user tunnels none found owns =
    let missing : none ≡ some user.id = ap owner_of (sym found) ∙ owns in cc
known number sub user tunnels (some t) found owns =
    let held : some t.user_id ≡ some user.id = ap owner_of (sym found) ∙ owns in
    inr (t, found, refl, ground (arith, held))

started-Registers :
    (crypto : Crypto) (hs : Handshake) (up : Bool) (number : ℕ) (e : Edge) (c c₁ : Conn)
    (sub : Text) (user : User)
    → (user_by_token crypto hs.token c).0 ≡ ok user
    → owner sub c₁.db.tunnels ≡ some user.id
    → Registers crypto hs number e c
        (tunnel_by_subdomain sub c₁).0
        (started up number sub e (tunnel_by_subdomain sub c₁))
unfolding tunnel_by_subdomain
started-Registers crypto hs up number e c c₁ sub user token owns =
    reads (λ db. or_missing (find_where (has_subdomain sub) db.tunnels))
      (λ x. Registers crypto hs number e c x.0 (started up number sub e x)) c₁
      (λ faults. (
        refl,
        connect-registers up _ e,
        connect-get up _ e,
        (user, token, owns, known number sub user c₁.db.tunnels _ refl owns),
      ))
      (λ faults.
        (refl, connect-registers up _ e, connect-get up _ e, (user, token, owns, inl (refl, refl))))

-- A connection whose handshake was read either gets no session, and then the registry and the presence
-- keys are as they were; or it gets one under its own number, and then the handshake's token is an
-- account's, that account owns the session's subdomain, the registry holds the session there and what
-- it held for every other subdomain, and the session's tunnel is the account's tunnel of the subdomain,
-- unless the statement that looks it up after the handshake fails, where it is 0.
pub handle_conn-Registers :
    (crypto : Crypto) (p : Public) (bytes : Text) (hs : Handshake) (sent up : Bool) (number : ℕ)
    (e : Edge) (c : Conn)
    → let (reply, c₁) = authenticate crypto p bytes hs c in
      Registers crypto hs number e c
        (tunnel_by_subdomain reply.subdomain c₁).0
        (handle_conn crypto p bytes (hello hs) sent up number e c)
unfolding handle_conn
handle_conn-Registers crypto p bytes hs sent up number e c =
    replied (authenticate crypto p bytes hs c) (authenticate-GrantedBy crypto p bytes hs c)
  where
    replied :
        (x : HandshakeReply × Conn)
        → GrantedBy crypto hs c x
        → Registers crypto hs number e c
            (tunnel_by_subdomain x.0.subdomain x.1).0
            (after_reply sent up number e x)
    replied (reply, c₁) (inl (accepted, version, valid, (user, token, owns))) =
        choose (Registers crypto hs number e c _) (not sent) (none, (e, c₁)) _ refl
          (rw accepted
            (started-Registers crypto hs up number e c c₁ reply.subdomain user token owns))
    replied (reply, c₁) (inr (rejected, kept)) =
        choose (Registers crypto hs number e c _) (not sent) (none, (e, c₁)) _ refl
          (rw rejected refl)

-- ===== src/Server/Connections.antt =====
-- The sessions of the registry belong to accounts, through each connection (internal/edge/tunnelserver.go
-- and session.go).
use mathlib.Core.Path.{subst}
use liveurl.Prelude.{
  Bool, List, Option, Text, ap, choose, choose_by, inl, inr, none, not, some, sym, text_eq,
  text_eq_iff, true, ℕ, ◌==◌, ◌∙◌, ◌≡◌, ◌⊎◌,
}
use liveurl.Registry.{AgentSession, Registry, get, is_current, remove}
use liveurl.Store.{Conn, Db, Result, Tunnel, err, ok}
use liveurl.Store.Users.{Crypto, User, user_by_token}
use liveurl.Store.Tunnels.{claim_tunnel}
use liveurl.Store.Tunnels.Owner.{owner, tunnel_of, value_of}
use liveurl.Store.Keeping.Evolution.{Evolves, Evolves-refl, Evolves-trans}
use liveurl.Store.Keeping.Queue.{claim_tunnel-Keeps}
use liveurl.Store.Keeping.Reads.{tunnel_by_subdomain-Keeps, user_by_token-Keeps}
use liveurl.TunnelServer.{
  Edge, Handshake, HandshakeReply, Public, authenticate, claim_reply, claim_reply_for, or_random,
  protocol_version, valid_subdomain,
}
use liveurl.TunnelServer.Listener.{
  Hello, Started, after_reply, handle_conn, hello, no_mux, no_stream, undecodable,
}
use liveurl.TunnelServer.Registration.{KnowsTunnel, Registers, handle_conn-Registers}

-- The session of a subdomain, if there is one, is under its own name, an account owns the subdomain, and
-- the session has the number of the subdomain's tunnel, or 0.
abbrev pub OwnedAt : Text → Db → Option AgentSession → Type 0
OwnedAt s db none = Unit
OwnedAt s db (some sess) =
    (text_eq sess.subdomain s ≡ true)
    × ((w : ℕ) × (owner s db.tunnels ≡ some w))
    × ((sess.tunnel_id ≡ 0) ⊎ (tunnel_of s db.tunnels ≡ some sess.tunnel_id))

abbrev pub HasOwners : Registry → Db → Type 0
HasOwners registry db = (s : Text) → OwnedAt s db (get s registry)

OwnedAt-Evolves :
    (s : Text) (a b : Db) (o : Option AgentSession) → Evolves a b → OwnedAt s a o → OwnedAt s b o
OwnedAt-Evolves s a b none p h = tt
OwnedAt-Evolves s a b (some sess) p (same, (w, owns), inl unknown) =
    (same, (w, p.owners s w owns), inl unknown)
OwnedAt-Evolves s a b (some sess) p (same, (w, owns), inr known) =
    (same, (w, p.owners s w owns), inr (p.numbers s sess.tunnel_id known))

KnowsTunnel-tunnel_of :
    (sess : AgentSession) (user : User) (tunnels : List Tunnel) (looked : Result Tunnel)
    → KnowsTunnel sess user tunnels looked
    → (sess.tunnel_id ≡ 0) ⊎ (tunnel_of sess.subdomain tunnels ≡ some sess.tunnel_id)
KnowsTunnel-tunnel_of sess user tunnels looked (inl (_, unknown)) = inl unknown
KnowsTunnel-tunnel_of sess user tunnels looked (inr (t, found, number, owns)) =
    inr (ap (value_of (λ t. t.id)) found ∙ ap some number)

pub HasOwners-Evolves :
    (registry : Registry) (a b : Db) → Evolves a b → HasOwners registry a → HasOwners registry b
HasOwners-Evolves registry a b p h s = OwnedAt-Evolves s a b (get s registry) p (h s)

pub HasOwners-remove :
    (sess : AgentSession) (registry : Registry) (db : Db)
    → HasOwners registry db
    → HasOwners (remove sess registry) db
unfolding remove get
HasOwners-remove sess registry db h s =
    choose (λ r. OwnedAt s db (get s r)) (is_current (registry.sessions sess.subdomain) sess) _
      registry
      (choose (OwnedAt s db) (text_eq sess.subdomain s) none (registry.sessions s) tt (h s)) (h s)

module _ (crypto : Crypto) (public : Public) where
  claim_reply-Evolves :
      (db : Db) (x : Result Tunnel × Conn)
      → Evolves db x.1.db
      → Evolves db (claim_reply public x).1.db
  claim_reply-Evolves db (ok t, c) h = h
  claim_reply-Evolves db (err x, c) h = h

  claimed-Evolves :
      (bytes sub : Text) (rules : List Text) (db : Db) (x : Result User × Conn)
      → Evolves db x.1.db
      → Evolves db (claim_reply_for public bytes sub rules x).1.db
  claimed-Evolves bytes sub rules db (err x, c) h = h
  claimed-Evolves bytes sub rules db (ok user, c) h =
      choose (λ (x : HandshakeReply × Conn). Evolves db x.1.db)
        (not (valid_subdomain (or_random bytes sub))) _ _ h
        (claim_reply-Evolves db (claim_tunnel user.id (or_random bytes sub) rules c)
          (Evolves-trans db c.db _ h (claim_tunnel-Keeps user.id (or_random bytes sub) rules c)))

  authenticate-Evolves :
      (bytes : Text) (hs : Handshake) (c : Conn)
      → Evolves c.db (authenticate crypto public bytes hs c).1.db
  unfolding authenticate
  authenticate-Evolves bytes hs c =
      choose (λ (x : HandshakeReply × Conn). Evolves c.db x.1.db)
        (not (hs.version == protocol_version)) _ _ (Evolves-refl c.db)
        (claimed-Evolves bytes hs.subdomain hs.buffer_rules c.db (user_by_token crypto hs.token c)
          (user_by_token-Keeps crypto hs.token c))

  after_reply-Evolves :
      (sent up : Bool) (number : ℕ) (e : Edge) (db : Db) (x : HandshakeReply × Conn)
      → Evolves db x.1.db
      → Evolves db (after_reply sent up number e x).1.1.db
  after_reply-Evolves sent up number e db (reply, c) h =
      choose (λ (x : Started). Evolves db x.1.1.db) (not sent) _ _ h
        (choose (λ (x : Started). Evolves db x.1.1.db) (not reply.accepted) _ _ h
          (Evolves-trans db c.db _ h (tunnel_by_subdomain-Keeps reply.subdomain c)))

  pub handle_conn-Evolves :
      (bytes : Text) (b : Hello) (sent up : Bool) (number : ℕ) (e : Edge) (c : Conn)
      → Evolves c.db (handle_conn crypto public bytes b sent up number e c).1.1.db
  unfolding handle_conn
  handle_conn-Evolves bytes no_mux sent up number e c = Evolves-refl c.db
  handle_conn-Evolves bytes no_stream sent up number e c = Evolves-refl c.db
  handle_conn-Evolves bytes undecodable sent up number e c = Evolves-refl c.db
  handle_conn-Evolves bytes (hello hs) sent up number e c =
      after_reply-Evolves sent up number e c.db (authenticate crypto public bytes hs c)
        (authenticate-Evolves bytes hs c)

  Registers-HasOwners :
      (hs : Handshake) (number : ℕ) (e : Edge) (c : Conn) (looked : Result Tunnel) (x : Started)
      → Registers crypto hs number e c looked x
      → Evolves c.db x.1.1.db
      → HasOwners e.registry c.db
      → HasOwners x.1.0.registry x.1.1.db
  Registers-HasOwners hs number e c looked (none, (e', c')) same p h s =
      rw same (HasOwners-Evolves e.registry c.db c'.db p h s)
  Registers-HasOwners hs number e c looked (some sess, (e', c'))
        (_, _, others, (user, _, owns, knows)) p h s =
      subst (OwnedAt s c'.db) (sym (others s)) (
        choose_by (OwnedAt s c'.db) (text_eq sess.subdomain s) (some sess) (get s e.registry)
          (λ same.
            let is : sess.subdomain ≡ s = (text_eq_iff sess.subdomain s).0 same in
            (
              same,
              (user.id, rw (sym is) owns),
              subst (λ j. (sess.tunnel_id ≡ 0) ⊎ (tunnel_of j c'.db.tunnels ≡ some sess.tunnel_id))
                  is (KnowsTunnel-tunnel_of sess user c'.db.tunnels looked knows),
            ))
          (λ _. HasOwners-Evolves e.registry c.db c'.db p h s))

  pub handle_conn-HasOwners :
      (bytes : Text) (b : Hello) (sent up : Bool) (number : ℕ) (e : Edge) (c : Conn)
      → HasOwners e.registry c.db
      → let (o, (e', c')) = handle_conn crypto public bytes b sent up number e c in
        HasOwners e'.registry c'.db
  unfolding handle_conn
  handle_conn-HasOwners bytes no_mux sent up number e c h = h
  handle_conn-HasOwners bytes no_stream sent up number e c h = h
  handle_conn-HasOwners bytes undecodable sent up number e c h = h
  handle_conn-HasOwners bytes (hello hs) sent up number e c h =
      Registers-HasOwners hs number e c _ _
        (handle_conn-Registers crypto public bytes hs sent up number e c)
        (handle_conn-Evolves bytes (hello hs) sent up number e c) h

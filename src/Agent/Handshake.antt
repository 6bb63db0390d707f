-- ===== src/Agent/Handshake.antt =====
-- When the agent takes an attempt for a healthy session (internal/agent/agent.go, Run and
-- connectAndServe, with the server's authenticate).
use liveurl.Prelude.{
  List, Option, Text, [], choose, choose_by, codes, false, inl, inr, none, not, refl, some, sym,
  text_eq, true, true≢false, ◌++◌, ◌==◌, ◌∙◌, ◌≡◌, ◌⊎◌,
}
use liveurl.Store.{Conn, Result, Tunnel, err, ok}
use liveurl.Store.Users.{Crypto, User, user_by_token}
use liveurl.Store.Tunnels.{claim_tunnel}
use liveurl.Store.Tunnels.Owner.{owner}
use liveurl.TunnelServer.{
  Handshake, HandshakeReply, Public, authenticate, claim_reply, claim_reply_for, or_random,
  protocol_version, rejected, valid_subdomain,
}
use liveurl.TunnelServer.Handshakes.{GrantedBy, authenticate-GrantedBy}
use liveurl.Cli.Commands.{AgentConfig}
use liveurl.Agent.Connect.{
  Connected, Reached, after_handshake, connect_and_serve, handshake_of, handshake_rejected, server,
  was_healthy,
}

-- A reply is a rejection, or has a URL.
abbrev HasUrl : HandshakeReply → Type 0
HasUrl reply = (reply.accepted ≡ false) ⊎ (text_eq reply.public_url [] ≡ false)

claim_reply-HasUrl : (p : Public) (r : Result Tunnel × Conn) → HasUrl (claim_reply p r).0
unfolding text_eq
claim_reply-HasUrl p (ok t, c) = inr (
    choose
      (λ s.
        text_eq (s ++ (codes "://" ++ (t.subdomain ++ (codes "." ++ p.public_host)))) [] ≡ false)
      p.public_tls (codes "https") (codes "http") refl refl)
claim_reply-HasUrl p (err x, c) = inl refl

claim_reply_for-HasUrl :
    (p : Public) (bytes sub : Text) (rules : List Text) (r : Result User × Conn)
    → HasUrl (claim_reply_for p bytes sub rules r).0
claim_reply_for-HasUrl p bytes sub rules (err x, c) = inl refl
claim_reply_for-HasUrl p bytes sub rules (ok user, c) =
    choose (λ (x : HandshakeReply × Conn). HasUrl x.0) (not (valid_subdomain (or_random bytes sub)))
      _ _ (inl refl) (claim_reply-HasUrl p (claim_tunnel user.id (or_random bytes sub) rules c))

authenticate-HasUrl :
    (crypto : Crypto) (p : Public) (bytes : Text) (hs : Handshake) (c : Conn)
    → HasUrl (authenticate crypto p bytes hs c).0
unfolding authenticate
authenticate-HasUrl crypto p bytes hs c =
    choose (λ (x : HandshakeReply × Conn). HasUrl x.0) (not (hs.version == protocol_version)) _ _
      (inl refl)
      (claim_reply_for-HasUrl p bytes hs.subdomain hs.buffer_rules
        (user_by_token crypto hs.token c))

-- The server accepted, the attempt is healthy and ends without an error, and the account of the
-- configured token owns the subdomain that was granted; or the server did not accept, the attempt is
-- not healthy, and the tunnels are as they were.
abbrev pub Attempt : Crypto → AgentConfig → Conn → HandshakeReply × Conn → Connected → Type 0
Attempt crypto cfg c (reply, c') (url, e) =
    ((reply.accepted ≡ true)
      × (was_healthy (url, e) ≡ true)
      × (e ≡ none)
      × (url ≡ reply.public_url)
      × ((user : User) × ((user_by_token crypto cfg.token c).0 ≡ ok user)
          × (owner reply.subdomain c'.db.tunnels ≡ some user.id)))
    ⊎ ((reply.accepted ≡ false)
        × (was_healthy (url, e) ≡ false)
        × (e ≡ some (handshake_rejected reply.error))
        × (c'.db.tunnels ≡ c.db.tunnels))

after_handshake-Attempt :
    (crypto : Crypto) (cfg : AgentConfig) (c : Conn) (x : HandshakeReply × Conn)
    → GrantedBy crypto (handshake_of cfg) c x
    → HasUrl x.0
    → Attempt crypto cfg c x (after_handshake x.0)
unfolding text_eq
after_handshake-Attempt crypto cfg c (reply, c') (inl (accepted, version, valid, owns))
      (inl rejected) =
    absurd (true≢false (sym accepted ∙ rejected))
after_handshake-Attempt crypto cfg c (reply, c') (inl (accepted, version, valid, owns)) (inr url) =
    rw accepted (inl (refl, rw url refl, refl, refl, owns))
after_handshake-Attempt crypto cfg c (reply, c') (inr (rejected, kept)) url =
    rw rejected (inr (refl, refl, refl, kept))

-- An attempt of the agent that reaches the server, without TLS or with an address that has a host, is
-- taken for a healthy session, which resets the backoff, if the server accepts it: then the account of
-- the agent's token owns the subdomain. If the server does not, it is not taken for one, the tunnels are
-- as they were, and the error has the server's text.
pub connect_and_serve-Attempt :
    (crypto : Crypto) (p : Public) (bytes : Text) (split_host : Text → Option Text) (host : Text)
    (network : Text → Option Text → Reached) (cfg : AgentConfig) (c : Conn)
    → (cfg.use_tls ≡ true → split_host cfg.server_addr ≡ some host)
    → ((name : Option Text)
        → network cfg.server_addr name ≡ server (λ hs. (authenticate crypto p bytes hs c).0))
    → Attempt crypto cfg c
        (authenticate crypto p bytes (handshake_of cfg) c)
        (connect_and_serve split_host network cfg)
unfolding connect_and_serve
connect_and_serve-Attempt crypto p bytes split_host host network cfg c split reaches =
    let x = authenticate crypto p bytes (handshake_of cfg) c in
    let attempt : Attempt crypto cfg c x (after_handshake x.0) =
      after_handshake-Attempt crypto cfg c x
        (authenticate-GrantedBy crypto p bytes (handshake_of cfg) c)
        (authenticate-HasUrl crypto p bytes (handshake_of cfg) c) in
    choose_by (Attempt crypto cfg c x) cfg.use_tls _ _
      (λ tls. rw (split tls, reaches (some host)) attempt) (λ _. rw (reaches none) attempt)

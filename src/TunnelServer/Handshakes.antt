-- ===== src/TunnelServer/Handshakes.antt =====
-- What an accepted handshake means (internal/edge/tunnelserver.go, authenticate).
use liveurl.Prelude.{
  ==_iff, Bool-cases, Text, [], ap, arith, false, inl, inr, length, refl, some, suc, sym, true,
  zero, ℕ, ◌+◌, ◌==◌, ◌∙◌, ◌∷◌, ◌≡◌, ◌≤◌, ◌⊎◌,
}
use liveurl.Store.{Conn, Db, Result, Tunnel, err, ok}
use liveurl.Store.Tunnels.{claim_tunnel}
use liveurl.Store.Hoare.{EndsAt}
use liveurl.Store.Users.{Crypto, User, user_by_token}
use liveurl.Store.Tunnels.Owner.{claim_tunnel_lem, owner}
use liveurl.TunnelServer.{
  Handshake, HandshakeReply, Public, authenticate, claim_reply, claim_reply_for, ends_alnum,
  or_random, protocol_version, valid_subdomain,
}

ends_alnum-length : (n : ℕ) (s : Text) → ends_alnum n s ≡ true → n + 1 ≤ length s
unfolding ends_alnum
ends_alnum-length n [] h = cc
ends_alnum-length zero (c ∷ []) h = omega arith
ends_alnum-length (suc n) (c ∷ []) h = cc
ends_alnum-length zero (c ∷ d ∷ s) h = omega arith
ends_alnum-length (suc n) (c ∷ d ∷ s) h = ground (arith, ends_alnum-length n (d ∷ s))

-- A subdomain that the server accepts has from 3 to 63 bytes: the error message's lower bound of 2
-- is not accepted.
pub valid_subdomain-length :
    (s : Text) → valid_subdomain s ≡ true → (3 ≤ length s) × (length s ≤ 63)
unfolding valid_subdomain
valid_subdomain-length [] h = cc
valid_subdomain-length (c ∷ s) h = ground (arith, ends_alnum-length 1 s)

abbrev pub GrantedBy : Crypto → Handshake → Conn → HandshakeReply × Conn → Type 0
GrantedBy crypto hs c (reply, c') =
    ((reply.accepted ≡ true)
      × (hs.version ≡ protocol_version)
      × (valid_subdomain reply.subdomain ≡ true)
      × ((user : User) × ((user_by_token crypto hs.token c).0 ≡ ok user)
          × (owner reply.subdomain c'.db.tunnels ≡ some user.id)))
    ⊎ ((reply.accepted ≡ false) × (c'.db.tunnels ≡ c.db.tunnels))

pub user_by_token-db :
    (crypto : Crypto) (token : Text) (c : Conn) → (user_by_token crypto token c).1.db ≡ c.db
unfolding user_by_token
user_by_token-db crypto token c = ground arith

claim_reply-GrantedBy :
    (crypto : Crypto) (p : Public) (hs : Handshake) (user : User) (s : Text) (c c₀ : Conn)
    (r : Result Tunnel × Conn)
    → hs.version ≡ protocol_version
    → valid_subdomain s ≡ true
    → (user_by_token crypto hs.token c).0 ≡ ok user
    → c₀.db ≡ c.db
    → EndsAt
        (λ t db'. (t.user_id ≡ user.id) × (t.subdomain ≡ s) × (owner s db'.tunnels ≡ some user.id))
        (λ db'. db'.tunnels ≡ c₀.db.tunnels)
        r
    → GrantedBy crypto hs c (claim_reply p r)
claim_reply-GrantedBy crypto p hs user s c c₀ (ok t, c') version valid token same (_, sub, owns) =
    inl (refl, version, rw sub valid, (user, token, rw sub owns))
claim_reply-GrantedBy crypto p hs user s c c₀ (err x, c') version valid token same kept =
    inr (refl, kept ∙ ap (λ (db : Db). db.tunnels) same)

claim_reply_for-GrantedBy :
    (crypto : Crypto) (p : Public) (bytes : Text) (hs : Handshake) (c : Conn)
    (r : Result User × Conn)
    → hs.version ≡ protocol_version
    → user_by_token crypto hs.token c ≡ r
    → GrantedBy crypto hs c (claim_reply_for p bytes hs.subdomain hs.buffer_rules r)
claim_reply_for-GrantedBy crypto p bytes hs c (err x, c₀) version token = inr (
  refl,
  ap (λ (r : Result User × Conn). r.1.db.tunnels) (sym token)
      ∙ ap (λ (db : Db). db.tunnels) (user_by_token-db crypto hs.token c),
)
claim_reply_for-GrantedBy crypto p bytes hs c (ok user, c₀) version token =
    let s = or_random bytes hs.subdomain in
    let same : c₀.db ≡ c.db =
      ap (λ (r : Result User × Conn). r.1.db) (sym token) ∙ user_by_token-db crypto hs.token c in
    elim (Bool-cases (valid_subdomain s)) [
      | inl valid ↦ rw valid (
          claim_reply-GrantedBy crypto p hs user s c c₀ (claim_tunnel user.id s hs.buffer_rules c₀)
            version valid (ap (λ (r : Result User × Conn). r.0) token) same
            (claim_tunnel_lem user.id s hs.buffer_rules c₀))
      | inr bad ↦ rw bad (inr (refl, ap (λ (db : Db). db.tunnels) same))
    ]

-- An accepted handshake has the server's version, the token of an account and a subdomain of the
-- server's form, which that account owns afterwards; a rejected one, for whatever reason, leaves
-- the tunnels as they were.
pub authenticate-GrantedBy :
    (crypto : Crypto) (p : Public) (bytes : Text) (hs : Handshake) (c : Conn)
    → GrantedBy crypto hs c (authenticate crypto p bytes hs c)
unfolding authenticate
authenticate-GrantedBy crypto p bytes hs c = elim (Bool-cases (hs.version == protocol_version)) [
  | inl version ↦ rw version (
      claim_reply_for-GrantedBy crypto p bytes hs c (user_by_token crypto hs.token c)
        ((==_iff hs.version protocol_version).0 version) refl)
  | inr other ↦ rw other (inr (refl, refl))
]

-- ===== src/Control/Tokens.antt =====
-- A handler runs for the account of its token alone (internal/control/server.go, withAuth).
use liveurl.Prelude.{Bool-cases, Text, [], ap, codes, inl, inr, refl, sym, text_eq, ◌∙◌, ◌≡◌, ◌⊎◌}
use liveurl.Store.{Conn, Result, err, ok}
use liveurl.Store.Users.{Crypto, User, user_by_token}
use liveurl.TunnelServer.Handshakes.{user_by_token-db}
use liveurl.Control.{ApiReply, ApiRequest, Handler, authorized, trim_prefix, with_auth}

-- The token of a request: what follows "Bearer ".
abbrev pub token_in : ApiRequest → Text
token_in r = trim_prefix (codes "Bearer ") r.authorization

-- The request is refused, or the handler runs for an account.
abbrev pub RunsFor : Crypto → Handler → ApiRequest → Conn → ApiReply × Conn → Type 0
RunsFor crypto next r c x =
    ((x.0.status_code ≡ 401) × (x.1.db ≡ c.db))
    ⊎ ((user : User) × (c₀ : Conn) × ((user_by_token crypto (token_in r) c).0 ≡ ok user)
        × (c₀.db ≡ c.db)
        × (x ≡ next r user c₀))

authorized-RunsFor :
    (crypto : Crypto) (next : Handler) (r : ApiRequest) (c : Conn) (x : Result User × Conn)
    → user_by_token crypto (token_in r) c ≡ x
    → RunsFor crypto next r c (authorized next r x)
authorized-RunsFor crypto next r c (ok user, c₀) e = inr (
  user,
  c₀,
  ap (λ (y : Result User × Conn). y.0) e,
  ap (λ (y : Result User × Conn). y.1.db) (sym e) ∙ user_by_token-db crypto (token_in r) c,
  refl,
)
authorized-RunsFor crypto next r c (err x, c₀) e =
    inl (
      refl,
      ap (λ (y : Result User × Conn). y.1.db) (sym e) ∙ user_by_token-db crypto (token_in r) c,
    )

-- Behind withAuth, whatever the handler is: the request is answered with 401 and the database is as it
-- was, or the handler runs once, from the same database, for the account that the token in the
-- Authorization header resolves to.
pub with_auth-RunsFor :
    (crypto : Crypto) (next : Handler) (r : ApiRequest) (c : Conn)
    → RunsFor crypto next r c (with_auth crypto next r c)
unfolding with_auth
with_auth-RunsFor crypto next r c = elim (Bool-cases (text_eq (token_in r) [])) [
  | inl absent ↦ rw absent (inl (refl, refl))
  | inr present ↦
      rw present (authorized-RunsFor crypto next r c (user_by_token crypto (token_in r) c) refl)
]

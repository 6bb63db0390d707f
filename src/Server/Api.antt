-- ===== src/Server/Api.antt =====
-- A call of the control API keeps the events valid and the owners of the subdomains
-- (internal/control/server.go).
use liveurl.Prelude.{Bool, Option, Text, [], choose, codes, inl, inr, text_eq, ℕ, ◌⊎◌}
use liveurl.RateLimit.{IpLimiter, Readings, allow_key}
use liveurl.Registry.{AgentSession}
use liveurl.Store.{
  Conn, Db, Result, database, email_taken, err, hashing, invalid_credentials, no_rows, not_found,
  ok, out_of_fuel, randomness, subdomain_taken,
}
use liveurl.Store.Users.{Crypto, User, new_token, sign_up, user_by_token, verify_password}
use liveurl.Store.Keeping.Evolution.{
  Evolves, Evolves-refl, Evolves-trans, new_token-Keeps, sign_up-Keeps,
}
use liveurl.Store.Keeping.Reads.{user_by_token-Keeps, verify_password-Keeps}
use liveurl.Offline.{GoLibrary}
use liveurl.Replay.{Session}
use liveurl.Control.{
  ApiError, ApiReply, ApiRequest, ApiServer, Handler, authorized, decode_credentials,
  log_in_decoded, password_checked, post_log_in, post_sign_up, rate_limit_auth, sign_up_decoded,
  signed_up, token_minted, trim_prefix, with_auth,
}
use liveurl.Control.Handlers.{delete_events, get_events, get_status, get_tunnels, post_replay}
use liveurl.Control.Routes.{
  Route, clear_route, events_route, log_in_route, no_route, replay_route, serve_api, sign_up_route,
  status_route, tunnels_route,
}
use liveurl.Server.Handling.{
  Handles, Replied, delete_events-Replied, get_events-Replied, get_status-Replied,
  get_tunnels-Replied, post_replay-Replied,
}

module _ (crypto : Crypto) where
  authorized-Replied :
      (h : Handler) (r : ApiRequest) (db : Db) (x : Result User × Conn)
      → Handles h
      → Evolves db x.1.db
      → Replied db (authorized h r x)
  authorized-Replied h r db (err x, c) k e = e
  authorized-Replied h r db (ok user, c) k e = Evolves-trans db c.db _ e (k r user c)

  with_auth-Replied :
      (h : Handler) (r : ApiRequest) (c : Conn) → Handles h → Replied c.db (with_auth crypto h r c)
  unfolding with_auth
  with_auth-Replied h r c k =
      let token = trim_prefix (codes "Bearer ") r.authorization in
      choose (Replied c.db) (text_eq token []) _ _ (Evolves-refl c.db) (
        authorized-Replied h r c.db (user_by_token crypto token c) k
          (user_by_token-Keeps crypto token c))

  signed_up-Replied :
      (db : Db) (x : Result (User × Text) × Conn) → Evolves db x.1.db → Replied db (signed_up x)
  signed_up-Replied db (ok (user, token), c) h = h
  signed_up-Replied db (err email_taken, c) h = h
  signed_up-Replied db (err no_rows, c) h = h
  signed_up-Replied db (err not_found, c) h = h
  signed_up-Replied db (err subdomain_taken, c) h = h
  signed_up-Replied db (err invalid_credentials, c) h = h
  signed_up-Replied db (err hashing, c) h = h
  signed_up-Replied db (err randomness, c) h = h
  signed_up-Replied db (err database, c) h = h
  signed_up-Replied db (err out_of_fuel, c) h = h

  sign_up_decoded-Replied :
      (random : Option Text) (o : ApiError ⊎ (Text × Text)) (c : Conn)
      → Replied c.db (sign_up_decoded crypto random o c)
  sign_up_decoded-Replied random (inl x) c = Evolves-refl c.db
  sign_up_decoded-Replied random (inr (email, password)) c =
      signed_up-Replied c.db (sign_up crypto random email password c)
        (sign_up-Keeps crypto random email password c)

  minted-Replied :
      (user : User) (db : Db) (x : Result Text × Conn)
      → Evolves db x.1.db
      → Replied db (token_minted user x)
  minted-Replied user db (ok token, c) h = h
  minted-Replied user db (err x, c) h = h

  checked-Replied :
      (random : Option Text) (db : Db) (x : Result User × Conn)
      → Evolves db x.1.db
      → Replied db (password_checked crypto random x)
  checked-Replied random db (ok user, c) h = Evolves-trans db c.db _ h (
      minted-Replied user c.db (new_token crypto random user.id c)
        (new_token-Keeps crypto random user.id c))
  checked-Replied random db (err invalid_credentials, c) h = h
  checked-Replied random db (err email_taken, c) h = h
  checked-Replied random db (err no_rows, c) h = h
  checked-Replied random db (err not_found, c) h = h
  checked-Replied random db (err subdomain_taken, c) h = h
  checked-Replied random db (err hashing, c) h = h
  checked-Replied random db (err randomness, c) h = h
  checked-Replied random db (err database, c) h = h
  checked-Replied random db (err out_of_fuel, c) h = h

  log_in_decoded-Replied :
      (random : Option Text) (o : ApiError ⊎ (Text × Text)) (c : Conn)
      → Replied c.db (log_in_decoded crypto random o c)
  log_in_decoded-Replied random (inl x) c = Evolves-refl c.db
  log_in_decoded-Replied random (inr (email, password)) c =
      checked-Replied random c.db (verify_password crypto email password c)
        (verify_password-Keeps crypto email password c)

module _ {Rate Bucket : Type 0} (new_limiter : Rate → ℕ → Bucket)
    (allow : ℕ → Bucket → Bool × Bucket) (go : GoLibrary) where
  limited-Evolves :
      (next : ApiRequest → Conn → ApiReply × Conn) (now : Readings) (r : ApiRequest)
      (l : IpLimiter Rate Bucket) (c : Conn)
      → Replied c.db (next r c)
      → Evolves c.db (rate_limit_auth new_limiter allow next now r l c).1.1.db
  unfolding rate_limit_auth
  limited-Evolves next now r l c h =
      choose (λ (x : ApiReply × (IpLimiter Rate Bucket × Conn)). Evolves c.db x.1.1.db)
        (allow_key new_limiter allow now r.ip l).0 _ _ h (Evolves-refl c.db)

  pub serve_api-Evolves :
      (session_of : AgentSession → Session) (s : ApiServer) (route : Route) (random : Option Text)
      (now : Readings) (r : ApiRequest) (l : IpLimiter Rate Bucket) (c : Conn)
      → Evolves c.db (serve_api new_limiter allow go session_of s route random now r l c).1.1.db
  unfolding serve_api post_sign_up post_log_in
  serve_api-Evolves session_of s (no_route status text) random now r l c = Evolves-refl c.db
  serve_api-Evolves session_of s sign_up_route random now r l c =
      limited-Evolves (post_sign_up go random) now r l c
        (sign_up_decoded-Replied go.crypto random (decode_credentials go r.credentials) c)
  serve_api-Evolves session_of s log_in_route random now r l c =
      limited-Evolves (post_log_in go random) now r l c
        (log_in_decoded-Replied go.crypto random (decode_credentials go r.credentials) c)
  serve_api-Evolves session_of s tunnels_route random now r l c =
      with_auth-Replied go.crypto (get_tunnels s) r c (get_tunnels-Replied s)
  serve_api-Evolves session_of s events_route random now r l c =
      with_auth-Replied go.crypto get_events r c get_events-Replied
  serve_api-Evolves session_of s clear_route random now r l c =
      with_auth-Replied go.crypto delete_events r c delete_events-Replied
  serve_api-Evolves session_of s replay_route random now r l c =
      with_auth-Replied go.crypto (post_replay go session_of s) r c
        (post_replay-Replied go session_of s)
  serve_api-Evolves session_of s status_route random now r l c =
      with_auth-Replied go.crypto (get_status s) r c (get_status-Replied s)

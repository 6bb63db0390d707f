-- ===== src/Control.antt =====
-- internal/control/server.go: the control API's handlers. A reply holds the value that is encoded, not
-- its JSON. A request is what the handlers read of it: the Authorization header, the parameters, the
-- event's id where ParseInt accepts it, and the credentials where the body decodes.
pub mod Handlers
pub mod Ownership
pub mod Listing
pub mod Tokens
pub mod Routes
use liveurl.Prelude.{
  Bool, List, Option, Text, [], codes, drop, false, has_prefix, if◌then◌else◌, inl, inr, length,
  ltb, none, not, some, text_eq, to_lower, true, ℕ, ◌&&◌, ◌==◌, ◌||◌, ◌∷◌, ◌⊎◌,
}
use liveurl.Registry.{Registry}
use liveurl.Store.{Conn, Failure, Result, WebhookEvent, email_taken, err, invalid_credentials, ok}
use liveurl.Store.Users.{Crypto, User, new_token, sign_up, user_by_token, verify_password}
use liveurl.Store.Snapshots.{SnapshotStats}
use liveurl.Store.Presence.{Presence, is_online}
use liveurl.Offline.{GoLibrary}
use liveurl.Replay.{ReplayError}
use liveurl.RateLimit.{IpLimiter, Readings, allow_key}

pub record ApiRequest : Type 0 where
  pub authorization : Text
  pub tunnel : Text
  pub state : Text
  pub event_id : Option ℕ
  pub credentials : Option (Text × Text)
  pub ip : Text

-- An error's text, or the failure of the store whose text it is.
pub data ApiError : Type 0 where
  message : Text → ApiError
  of_failure : Failure → ApiError
  of_replay : ReplayError → ApiError

pub data Payload : Type 0 where
  empty : Payload
  failure : ApiError → Payload
  account : Text → Text → Payload
  tunnel_items : List (Text × Bool) → Payload
  event_items : List WebhookEvent → Payload
  tunnel_status : Text → Bool → ℕ → SnapshotStats → Payload
  replay_status : Text → Text → Payload
  plain : Text → Payload

pub record ApiReply : Type 0 where
  pub status_code : ℕ
  pub retry_after : Option Text
  pub payload : Payload

abbrev pub reply : ℕ → Payload → ApiReply
reply status payload = record { status_code = status; retry_after = none; payload = payload }

-- `writeErr`
abbrev pub write_err : ℕ → ApiError → ApiReply
write_err status x = reply status (failure x)

-- The part of the server that the handlers read.
pub record ApiServer : Type 0 where
  pub registry : Registry
  pub presence : Presence
  pub now : ℕ
  pub redis_ok : Bool

abbrev pub shown_online : ApiServer → Text → Bool
shown_online s sub = s.redis_ok && is_online s.now sub s.presence

-- `strings.TrimPrefix`
unfoldable pub trim_prefix : Text → Text → Text
unfolding has_prefix
trim_prefix p s = if has_prefix p s then drop (length p) s else s

abbrev pub Handler : Type 0
Handler = ApiRequest → User → Conn → ApiReply × Conn

abbrev pub authorized : Handler → ApiRequest → Result User × Conn → ApiReply × Conn
authorized next r (err x, c) = (write_err 401 (message (codes "invalid token")), c)
authorized next r (ok user, c) = next r user c

-- `withAuth`
unfoldable pub with_auth : Crypto → Handler → ApiRequest → Conn → ApiReply × Conn
unfolding trim_prefix user_by_token
with_auth crypto next r c =
    let token = trim_prefix (codes "Bearer ") r.authorization in
    if text_eq token []
    then (write_err 401 (message (codes "missing bearer token")), c)
    else authorized next r (user_by_token crypto token c)

module _ {Rate Bucket : Type 0} (new_limiter : Rate → ℕ → Bucket)
    (allow : ℕ → Bucket → Bool × Bucket) where
  -- `rateLimitAuth`, with the times of the call; the limiter is keyed on the client's IP.
  unfoldable pub rate_limit_auth :
      (ApiRequest → Conn → ApiReply × Conn)
      → Readings
      → ApiRequest
      → IpLimiter Rate Bucket
      → Conn
      → ApiReply × (IpLimiter Rate Bucket × Conn)
  unfolding allow_key
  rate_limit_auth next now r limiter c =
      let (pass, limiter') = allow_key new_limiter allow now r.ip limiter in
      if pass then (let (a, c') = next r c in (a, (limiter', c'))) else (
        record (write_err 429 (message (codes "too many attempts; try again in a minute"))) {
          retry_after = some (codes "60");
        },
        (limiter', c),
      )

-- `\s` of the e-mail expression
abbrev pub is_space : ℕ → Bool
is_space c = c == 32 || (c == 9 || (c == 10 || (c == 12 || c == 13)))

abbrev pub is_part : ℕ → Bool
is_part c = not (is_space c || c == b'@')

unfoldable pub is_domain_rest : Text → Bool
is_domain_rest [] = false
is_domain_rest (c ∷ s) =
    let rest = is_domain_rest s in
    is_part c && (c == b'.' && not (text_eq s []) && all_parts s || rest)
  where
    all_parts : Text → Bool
    all_parts [] = true
    all_parts (d ∷ t) = is_part d && all_parts t

-- `[^\s@]+\.[^\s@]+$`
abbrev pub is_domain : Text → Bool
is_domain [] = false
is_domain (c ∷ s) = is_part c && is_domain_rest s

unfoldable pub is_mailbox_rest : Text → Bool
unfolding is_domain_rest
is_mailbox_rest [] = false
is_mailbox_rest (c ∷ s) =
    let rest = is_mailbox_rest s in if c == b'@' then is_domain s else is_part c && rest

-- `^[^\s@]+@[^\s@]+\.[^\s@]+$`
abbrev pub is_email : Text → Bool
is_email [] = false
is_email (c ∷ s) = is_part c && is_mailbox_rest s

abbrev pub min_password_len : ℕ
min_password_len = 8

-- `decodeCredentials`
unfoldable pub decode_credentials : GoLibrary → Option (Text × Text) → ApiError ⊎ (Text × Text)
unfolding to_lower is_mailbox_rest
decode_credentials go none = inl (message (codes "invalid JSON body"))
decode_credentials go (some (address, password)) =
    let email = to_lower go.lower_unicode (go.trim_space address) in
    if not (is_email email)
    then inl (message (codes "invalid email address"))
    else if ltb (length password) min_password_len
    then inl (message (codes "password must be at least 8 characters"))
    else inr (email, password)

abbrev pub signed_up : Result (User × Text) × Conn → ApiReply × Conn
signed_up (ok (user, token), c) = (reply 201 (account user.email token), c)
signed_up (err email_taken, c) =
    (write_err 409 (message (codes "an account with that email already exists")), c)
signed_up (err x, c) = (write_err 500 (message (codes "could not create account")), c)

abbrev pub sign_up_decoded :
    Crypto → Option Text → ApiError ⊎ (Text × Text) → Conn → ApiReply × Conn
sign_up_decoded crypto random (inl x) c = (write_err 400 x, c)
sign_up_decoded crypto random (inr (email, password)) c =
    signed_up (sign_up crypto random email password c)

-- The handler `signUp`; `random` is what crypto/rand gives.
unfoldable pub post_sign_up : GoLibrary → Option Text → ApiRequest → Conn → ApiReply × Conn
unfolding decode_credentials sign_up
post_sign_up go random r c =
    sign_up_decoded go.crypto random (decode_credentials go r.credentials) c

abbrev pub token_minted : User → Result Text × Conn → ApiReply × Conn
token_minted user (ok token, c) = (reply 200 (account user.email token), c)
token_minted user (err x, c) = (write_err 500 (message (codes "could not create token")), c)

abbrev pub password_checked : Crypto → Option Text → Result User × Conn → ApiReply × Conn
password_checked crypto random (ok user, c) = token_minted user (new_token crypto random user.id c)
password_checked crypto random (err invalid_credentials, c) =
    (write_err 401 (message (codes "invalid email or password")), c)
password_checked crypto random (err x, c) = (write_err 500 (message (codes "could not log in")), c)

abbrev pub log_in_decoded : Crypto → Option Text → ApiError ⊎ (Text × Text) → Conn → ApiReply × Conn
log_in_decoded crypto random (inl x) c = (write_err 400 x, c)
log_in_decoded crypto random (inr (email, password)) c =
    password_checked crypto random (verify_password crypto email password c)

-- The handler `logIn`
unfoldable pub post_log_in : GoLibrary → Option Text → ApiRequest → Conn → ApiReply × Conn
unfolding decode_credentials verify_password new_token
post_log_in go random r c = log_in_decoded go.crypto random (decode_credentials go r.credentials) c

-- ===== src/Tests.antt =====
-- Tests of the edge and of the control API (internal/edge, internal/control).
use liveurl.Proxy.Public.{may_store}
use liveurl.Store.Snapshots.{stored_bytes, upsert}
use liveurl.Prelude.{
  Bool, List, Text, [], arith, codes, contains, false, has_prefix, if◌then◌else◌, leb, ltb, none,
  refl, some, text_eq, to_lower, true, ℕ, ◌*◌, ◌++◌, ◌+◌, ◌-◌, ◌<◌, ◌↔◌, ◌∷◌, ◌≡◌, ◌≤◌,
}
use liveurl.Http.{Response, header_get}
use liveurl.PageCache.{body_end, inject_banner}
use liveurl.PageCache.Banner.{
  IsMarked, inject_banner-IsMarked, inject_banner-panics, lower_letter, repeat_text, upper_letter,
}
use liveurl.RateLimit.{IpLimiter, LimiterEntry, Readings, allow_key, new_ip_limiter}
use liveurl.RateLimit.Idle.{IsSwept, allow_key-IsSwept, new_ip_limiter-IsSwept}
use liveurl.RateLimit.Isolation.{
  IsUsed, asked, bucket_verdicts, key_verdicts, key_verdicts-isolated, new_bucket,
}
use liveurl.Registry.{AgentSession, new_registry}
use liveurl.Offline.{serve_offline}
use liveurl.Offline.Buffered.{Acknowledges, serve_offline-Acknowledges}
use liveurl.Proxy.{forward_live, replies}
use liveurl.Proxy.Tee.{IsCached, concat, forward_live-caches}
use liveurl.Router.{subdomain_of}
use liveurl.Replay.{Session}
use liveurl.Control.{ApiRequest, ApiServer, with_auth}
use liveurl.Control.Handlers.{delete_events, get_events, post_replay}
use liveurl.Control.Ownership.{
  DeletesOwn, ReplaysOwn, delete_events-DeletesOwn, post_replay-ReplaysOwn,
}
use liveurl.Control.Tokens.{RunsFor, with_auth-RunsFor}
use liveurl.Control.Listing.{ShowsOwn, get_events-ShowsOwn}
use liveurl.Fixtures.{
  alice_user, page_request, plain_crypto, plain_go, quiet_conn, shop, two_events,
  two_events-IsValid, webhook,
}
use liveurl.Router.Hosts.{subdomain_of_iff}

serve_offline-Acknowledges_example :
    Acknowledges
      (some (codes "x"))
      webhook
      shop
      two_events
      (serve_offline plain_go (some (codes "x")) webhook shop quiet_conn)
serve_offline-Acknowledges_example =
    serve_offline-Acknowledges plain_go (some (codes "x")) webhook shop quiet_conn
      two_events-IsValid

-- A token bucket in thousandths of a token: its rate for each unit of time, its burst, what it holds and
-- the time of the last use.
record TokenBucket : Type 0 where
  rate : ℕ
  burst : ℕ
  tokens : ℕ
  last : ℕ

abbrev full : ℕ → ℕ → TokenBucket
full rps burst = record { rate = rps; burst = burst; tokens = burst * 1000; last = 0 }

abbrev filled : ℕ → TokenBucket → ℕ
filled now b =
    let tokens = b.tokens + b.rate * (now - b.last) in
    if ltb tokens (b.burst * 1000) then tokens else b.burst * 1000

abbrev take_token : ℕ → TokenBucket → Bool × TokenBucket
take_token now b =
    if leb 1000 (filled now b)
    then (true, record b { tokens = filled now b - 1000; last = now })
    else (false, record b { tokens = filled now b; last = now })

abbrev calls : List (Readings × Text)
calls =
    (record { at_start = 10; at_bucket = 11 }, codes "a")
    ∷ (record { at_start = 20; at_bucket = 20 }, codes "b")
    ∷ (record { at_start = 30; at_bucket = 32 }, codes "a")
    ∷ []

-- Three thousandths for each unit of time fill a burst of two after nine hundred.
Fits : ℕ → TokenBucket → Type 0
Fits t b = (b.rate ≡ 3) × (b.burst ≡ 2) × (b.last ≤ t) × (b.tokens ≤ 2000)

IsUsed-Fits : (t : ℕ) (b : TokenBucket) → IsUsed full take_token 3 2 t b → Fits t b
unfolding Fits
IsUsed-Fits t _ new_bucket = (refl, refl, omega arith, omega arith)
IsUsed-Fits t _ (asked {s} {b = b} h first last) =
    let (rate, burst, past, tokens) = IsUsed-Fits s b h in ground (arith, rate, burst, first, last)

after_used :
    (b : TokenBucket) (t t' : ℕ)
    → IsUsed full take_token 3 2 t b
    → t + 1000 < t' + 100
    → take_token t' (take_token t b).1 ≡ take_token t' (full 3 2)
unfolding Fits
after_used b t t' used later =
    let (rate, burst, past, tokens) = IsUsed-Fits t b used in
    ground (arith, rate, burst, past, tokens, later)

key_verdicts-isolated_example :
    key_verdicts full take_token (codes "a") calls (new_ip_limiter 3 2 1000)
    ≡ bucket_verdicts full take_token (codes "a") calls (full 3 2)
key_verdicts-isolated_example =
    key_verdicts-isolated full take_token 3 2 1000 100 after_used (codes "a") calls (
      omega arith,
      omega arith,
      omega arith,
      (omega arith, omega arith, omega arith, (omega arith, omega arith, omega arith, tt)),
    )

abbrev new_map : IpLimiter ℕ TokenBucket
new_map = new_ip_limiter 1 1 1000

abbrev at_five : Readings
at_five = record { at_start = 5; at_bucket = 6 }

allow_key-IsSwept_example :
    let l' = (allow_key full take_token at_five (codes "a") new_map).1 in
    IsSwept 5 l'
    × ((k : Text) (e : LimiterEntry TokenBucket)
        → l'.entries k ≡ some e
        → 5 < e.last_seen + 2 * 1000)
unfolding new_ip_limiter
allow_key-IsSwept_example =
    allow_key-IsSwept full take_token 0 at_five (codes "a") new_map (omega arith) (omega arith)
      (new_ip_limiter-IsSwept 1 1 1000 0)

abbrev about_shop : Text → ApiRequest
about_shop state = record {
  authorization = codes "Bearer t";
  tunnel = codes "shop";
  state = state;
  event_id = some 1;
  credentials = none;
  ip = [];
}

delete_events-DeletesOwn_example :
    DeletesOwn
      (about_shop [])
      alice_user
      two_events
      (delete_events (about_shop []) alice_user quiet_conn)
delete_events-DeletesOwn_example = delete_events-DeletesOwn (about_shop []) alice_user quiet_conn

get_events-ShowsOwn_example :
    ShowsOwn
      (about_shop (codes "dead"))
      alice_user
      two_events
      (get_events (about_shop (codes "dead")) alice_user quiet_conn)
get_events-ShowsOwn_example = get_events-ShowsOwn (about_shop (codes "dead")) alice_user quiet_conn

abbrev no_session : AgentSession → Session
no_session s = record { outcomes = []; sent = [] }

abbrev server : ApiServer
server = record { registry = new_registry; presence = λ s. none; now = 0; redis_ok = true }

post_replay-ReplaysOwn_example :
    ReplaysOwn
      (some 1)
      alice_user
      two_events
      (post_replay plain_go no_session server (about_shop []) alice_user quiet_conn)
post_replay-ReplaysOwn_example =
    post_replay-ReplaysOwn plain_go no_session server (about_shop []) alice_user quiet_conn

abbrev html_response : Response
html_response = record {
  status_code = 200;
  header = (codes "Content-Type", codes "text/html" ∷ []) ∷ [];
  body = [];
}

abbrev chunks : List Text
chunks = codes "<p>" ∷ codes "hi" ∷ []

forward_live-caches_example :
    let c' =
      (forward_live plain_go page_request (replies html_response chunks true) 7 quiet_conn).1 in
    let stores = may_store (λ s. s) 7 page_request html_response (codes "<p>hi") true in
    (stores ≡ true → IsCached plain_go page_request html_response 7 (codes "<p>hi") two_events c')
    × (stores ≡ false → c' ≡ quiet_conn)
unfolding concat upsert stored_bytes
forward_live-caches_example =
    forward_live-caches plain_go page_request html_response 7 chunks true quiet_conn refl refl
      (omega arith)

html-may_store : may_store (λ s. s) 7 page_request html_response (codes "<p>hi") true ≡ true
unfolding text_eq header_get to_lower contains has_prefix
html-may_store = refl

subdomain_of_iff_example :
    (subdomain_of (λ s. s) (codes "lvh.me") (codes "Shop.lvh.me") ≡ codes "shop") ↔ (
      to_lower (λ s. s) (codes "Shop.lvh.me")
      ≡ codes "shop" ++ (codes "." ++ to_lower (λ s. s) (codes "lvh.me")))
subdomain_of_iff_example =
    subdomain_of_iff (λ s. s) (codes "lvh.me") (codes "Shop.lvh.me") b's' (codes "hop")

inject_banner-IsMarked_example :
    IsMarked
      (codes "a</BODY>")
      (codes "!")
      (codes "a</body>")
      (inject_banner (λ s. s) (codes "a</BODY>") (codes "!"))
inject_banner-IsMarked_example = inject_banner-IsMarked (λ s. s) (codes "a</BODY>") (codes "!") refl

abbrev lower_letters : Text → Text
lower_letters s = repeat_text 8 lower_letter ++ body_end

inject_banner-panics_example :
    inject_banner lower_letters (repeat_text 8 upper_letter ++ body_end) [] ≡ none
inject_banner-panics_example = inject_banner-panics lower_letters 8 [] (omega arith) refl

with_auth-RunsFor_example :
    RunsFor plain_crypto delete_events
      (about_shop [])
      quiet_conn
      (with_auth plain_crypto delete_events (about_shop []) quiet_conn)
with_auth-RunsFor_example = with_auth-RunsFor plain_crypto delete_events (about_shop []) quiet_conn

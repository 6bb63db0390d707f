-- ===== src/Server/Tests.antt =====
-- Tests of the server as a whole (cmd/liveurld/main.go).
use liveurl.Config.{Environment, Floats, load_server}
use liveurl.Router.Isolation.{Untouched, serve_http-Untouched}
use liveurl.Http.{Request}
use liveurl.Replay.{Session, answered, build_request, drain}
use liveurl.Server.Delivery.{IsReplay, acknowledged-delivered}
use liveurl.Offline.{buffer_webhook, serve_offline}
use liveurl.Prelude.{
  Bool, Text, [], arith, codes, false, map, none, order_by, refl, some, text_eq, true, ℕ, ◌++◌, ◌∷◌,
  ◌≡◌,
}
use liveurl.Fixtures.{no_time, plain_go, quiet_conn, shop, two_events, two_events-IsValid, webhook}
use liveurl.Registry.{AgentSession}
use liveurl.TunnelServer.{Public}
use liveurl.TunnelServer.Listener.{hello}
use liveurl.Server.{
  Input, ServerState, closes, dials, drains, new_state, router_of, started_at, step, stepped,
}
use liveurl.Server.Invariant.{IsSound, Reachable-IsSound}
use liveurl.Store.Events.{queue}
use liveurl.Proxy.{Exchange, open_fails}
use liveurl.Router.{Arrival, Router, serve_http, subdomain_of}

abbrev no_bucket : ℕ → ℕ → ℕ
no_bucket rps burst = burst

abbrev passing : ℕ → ℕ → Bool × ℕ
passing now bucket = (true, bucket)

abbrev at_lvh : Public
at_lvh = record { public_host = codes "lvh.me"; public_tls = false }

-- Rates are numbers, all of them positive, and the environment is empty.
abbrev whole_rates : Floats ℕ
whole_rates = record { literal = λ n. n; is_nonpositive = λ x. false; per_second = λ x. x }

abbrev no_environment : Environment ℕ
no_environment = record { lookup = λ key. []; atoi = λ s. none; parse_float = λ s. none }

abbrev first_state : ServerState ℕ ℕ
first_state =
    new_state whole_rates (load_server whole_rates no_environment) two_events (λ s. none) 0

abbrev first_dial : Input
first_dial = dials (record {
  host = some (codes "10.0.0.1");
  limiter_now = record { at_start = 0; at_bucket = 0 };
  random = [];
  brings =
      hello
        (record { version = 1; token = codes "t"; subdomain = codes "shop"; buffer_rules = [] });
  sent = true;
  redis_ok = true;
  number = 1;
})

abbrev refusing_session : AgentSession → Session
refusing_session sess = record { outcomes = answered 500 ∷ []; sent = [] }

abbrev shop_session : AgentSession
shop_session = record { number = 1; subdomain = codes "shop"; tunnel_id = 7 }

-- An agent connects, its drain is refused while a statement fails, and its connection closes.
abbrev last_state : ServerState ℕ ℕ
last_state = step no_bucket passing plain_go at_lvh [] (closes true shop_session) (
    step no_bucket passing plain_go at_lvh (false ∷ false ∷ true ∷ [])
      (drains refusing_session shop_session)
      (step no_bucket passing plain_go at_lvh [] first_dial first_state))

Reachable-IsSound_example : IsSound last_state
Reachable-IsSound_example =
    Reachable-IsSound no_bucket passing plain_go at_lvh whole_rates
      (load_server whole_rates no_environment) two_events (λ s. none) 0 last_state
      two_events-IsValid
      (stepped [] (closes true shop_session) (
        stepped (false ∷ false ∷ true ∷ []) (drains refusing_session shop_session)
          (stepped [] first_dial started_at)))

acknowledged-delivered_example :
    let (a, c') = serve_offline plain_go (some (codes "x")) webhook shop quiet_conn in
    let l' = drain no_time 7 (record {
      conn = record { db = c'.db; faults = [] };
      session = record { outcomes = answered 200 ∷ answered 204 ∷ answered 404 ∷ []; sent = [] };
    }) in
    ((body : Text) × ((q : Request) × (some (codes "x") ≡ some body)
        × IsReplay no_time 30 webhook body q
        × (l'.session.sent ≡ map (build_request no_time) (queue 7 two_events) ++ q ∷ [])))
    × (queue 7 l'.conn.db ≡ [])
unfolding serve_offline buffer_webhook queue order_by text_eq
acknowledged-delivered_example =
    acknowledged-delivered plain_go (some (codes "x")) webhook shop quiet_conn
      (200 ∷ 204 ∷ 404 ∷ []) [] two_events-IsValid (omega arith) refl refl
      (omega arith, (omega arith, (omega arith, tt)))

abbrev app_answers : AgentSession → Request → Exchange
app_answers sess r = open_fails

abbrev first_arrival : Arrival
first_arrival = record {
  ip = codes "10.0.0.1";
  sent = some (codes "x");
  limiter_now = record { at_start = 0; at_bucket = 0 };
  presence_now = 0;
  redis_ok = true;
}

abbrev first_router : Router ℕ ℕ
first_router = router_of no_bucket passing plain_go at_lvh first_state

serve_http-Untouched_example :
    Untouched 8 two_events
      (serve_http no_bucket passing plain_go app_answers first_arrival webhook first_router
        quiet_conn).1.1.db
unfolding subdomain_of text_eq
serve_http-Untouched_example =
    serve_http-Untouched no_bucket passing plain_go app_answers first_arrival webhook first_router
      quiet_conn 8 (λ t found. ground (arith, found))

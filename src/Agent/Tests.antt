-- ===== src/Agent/Tests.antt =====
-- Tests of the agent's reconnect loop (internal/agent/agent.go).
use liveurl.Agent.Local.{agent-down}
use liveurl.Agent.Stream.{as_exchange, bad_gateway, bad_gateway_chunks, dial_fails, handle_stream}
use liveurl.Agent.Handshake.{Attempt, connect_and_serve-Attempt}
use liveurl.Agent.Connect.{Reached, connect_and_serve, handshake_of, server}
use liveurl.Cli.Commands.{AgentConfig}
use liveurl.TunnelServer.{Public, authenticate}
use liveurl.Proxy.{copied, forward_live}
use liveurl.Replay.Backlog.{pending, pending_of}
use liveurl.Replay.{Link, answered, drain}
use liveurl.Store.Events.{queue}
use liveurl.Fixtures.{
  event_of, no_time, page_request, plain_crypto, plain_go, quiet_conn, two_events-IsValid,
}
use liveurl.Prelude.{
  All, Option, Text, [], arith, codes, false, order_by, refl, some, true, ℕ, ◌-◌, ◌∷◌, ◌≡◌,
}
use liveurl.Agent.{min_backoff, run}
use liveurl.Agent.Backoff.{IsWait, run-IsWait}

-- The greatest draw each time.
abbrev greatest : ℕ → ℕ → ℕ
greatest i n = n - 1

run-IsWait_example : All IsWait (run greatest (false ∷ true ∷ false ∷ []) 0 min_backoff)
run-IsWait_example =
    run-IsWait greatest (λ i n h. omega (arith, h)) (false ∷ true ∷ false ∷ []) 0 min_backoff
      (omega arith) (omega arith)

run_runs : run greatest (false ∷ false ∷ []) 0 min_backoff ≡ 500000000 ∷ 1000000000 ∷ []
unfolding run
run_runs = refl

abbrev down_link : Link
down_link = record {
  conn = quiet_conn;
  session = record { outcomes = answered 502 ∷ []; sent = [] };
}

agent-down_example :
    (forward_live plain_go page_request (as_exchange (handle_stream dial_fails)) 7 quiet_conn
      ≡ (copied 502 bad_gateway.header bad_gateway_chunks true, quiet_conn))
    × (pending 7 (drain no_time 7 down_link).conn.db
        ≡ record (pending_of (event_of 2 10)) { attempts = 1 } ∷ pending_of (event_of 1 20) ∷ [])
unfolding queue order_by bad_gateway handle_stream
agent-down_example =
    agent-down plain_go page_request 7 down_link dial_fails [] (pending_of (event_of 2 10))
      (pending_of (event_of 1 20) ∷ []) (omega arith) refl two_events-IsValid refl refl refl

abbrev shop_agent : AgentConfig
shop_agent = record {
  server_addr = codes "host:4443";
  use_tls = true;
  token = codes "t";
  subdomain = codes "shop";
  buffer_rules = [];
  local_addr = codes "127.0.0.1:3000";
}

abbrev at_host : Public
at_host = record { public_host = codes "lvh.me"; public_tls = false }

abbrev reachable : Text → Option Text → Reached
reachable addr name = server (λ hs. (authenticate plain_crypto at_host [] hs quiet_conn).0)

connect_and_serve-Attempt_example :
    Attempt plain_crypto shop_agent quiet_conn
      (authenticate plain_crypto at_host [] (handshake_of shop_agent) quiet_conn)
      (connect_and_serve (λ addr. some (codes "host")) reachable shop_agent)
connect_and_serve-Attempt_example =
    connect_and_serve-Attempt plain_crypto at_host [] (λ addr. some (codes "host")) (codes "host")
      reachable shop_agent quiet_conn (λ tls. refl) (λ name. refl)

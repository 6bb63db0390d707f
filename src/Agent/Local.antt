-- ===== src/Agent/Local.antt =====
-- What the clients and the webhooks of a connected tunnel see of the local app (internal/agent/stream.go
-- with internal/edge/proxy.go and internal/edge/replay/replay.go).
use liveurl.Prelude.{
  Bool, List, Text, [], ap, arith, choose, codes, false, if◌then◌else◌, leb, not, refl, text_eq,
  true, ℕ, ◌&&◌, ◌+◌, ◌==◌, ◌∙◌, ◌∷◌, ◌≡◌, ◌≢◌,
}
use liveurl.Http.{Request}
use liveurl.PageCache.{cacheable}
use liveurl.Store.{Conn}
use liveurl.Store.Events.Retries.{IsValid}
use liveurl.Replay.{Link, Outcome, answered, drain}
use liveurl.Replay.Backlog.{Pending, pending, serve}
use liveurl.Replay.Refinement.{drain-Serves}
use liveurl.Proxy.{
  LiveReply, copied, empty_buffer, forward_live, is_candidate, store_unless_over, write_all,
}
use liveurl.Offline.{GoLibrary}
use liveurl.Agent.Stream.{
  LocalApp, as_exchange, as_outcome, bad_gateway, bad_gateway_chunks, dial_fails, handle_stream,
  local_replies, request_fails, response, response_fails,
}

-- The local app gave no response.
abbrev pub is_down : LocalApp → Bool
is_down (local_replies resp chunks complete) = false
is_down _ = true

handle_stream-down :
    (app : LocalApp)
    → is_down app ≡ true
    → handle_stream app ≡ response bad_gateway bad_gateway_chunks true
unfolding handle_stream
handle_stream-down dial_fails down = refl
handle_stream-down request_fails down = refl
handle_stream-down response_fails down = refl
handle_stream-down (local_replies resp chunks complete) down = cc

and-false : (a : Bool) → (a && false) ≡ false
and-false true = refl
and-false false = refl

bad_gateway-cacheable :
    (go : GoLibrary) (r : Request) → cacheable go.lower_unicode r bad_gateway ≡ false
unfolding cacheable bad_gateway
bad_gateway-cacheable go r =
    choose (λ b. b ≡ false) (not (text_eq r.method (codes "GET"))) false false refl refl

bad_gateway-candidate :
    (go : GoLibrary) (tunnel_id : ℕ) (r : Request) → is_candidate go tunnel_id r bad_gateway ≡ false
bad_gateway-candidate go tunnel_id r =
    rw (bad_gateway-cacheable go r, and-false (text_eq r.method (codes "GET")))
      (and-false (not (tunnel_id == 0)))

-- While the agent is connected and the local app is not there, a client gets the agent's 502 page, which
-- no cache keeps.
forward_live-down :
    (go : GoLibrary) (r : Request) (app : LocalApp) (tunnel_id : ℕ) (c : Conn)
    → is_down app ≡ true
    → forward_live go r (as_exchange (handle_stream app)) tunnel_id c
      ≡ (copied 502 bad_gateway.header bad_gateway_chunks true, c)
unfolding forward_live bad_gateway
forward_live-down go r app tunnel_id c down =
    rw (handle_stream-down app down) (ap told (bad_gateway-candidate go tunnel_id r))
  where
    told : Bool → LiveReply × Conn
    told b = (
      copied 502 bad_gateway.header bad_gateway_chunks true,
      if b
          then store_unless_over go tunnel_id r bad_gateway
              (write_all bad_gateway_chunks empty_buffer) true c
          else c,
    )

-- Meanwhile a drain counts one refusal of the first event.
drain-down :
    (format_time : ℕ → Text) (t : ℕ) (l : Link) (app : LocalApp) (rest : List Outcome) (p : Pending)
    (q : List Pending)
    → t ≢ 0
    → l.conn.faults ≡ []
    → IsValid l.conn.db
    → l.session.outcomes ≡ as_outcome (handle_stream app) ∷ rest
    → is_down app ≡ true
    → pending t l.conn.db ≡ p ∷ q
    → pending t (drain format_time t l).conn.db
      ≡ (if leb 5 (p.attempts + 1) then q else record p { attempts = p.attempts + 1 } ∷ q)
unfolding bad_gateway serve
drain-down format_time t l app rest p q real quiet valid next down front =
    drain-Serves format_time t l real quiet valid t
    ∙ (let own : (t == t) ≡ true = ground arith in
        let said : as_outcome (handle_stream app) ≡ answered 502 =
          ap as_outcome (handle_stream-down app down) in
        rw (own, next, said, front) refl)

-- While the agent is connected and its local app gives no response: a client gets the agent's 502 page,
-- and the database is as it was, so that no page is cached; and a drain of a tunnel with a waiting event,
-- on a valid database that does not fail, counts one refusal of the first event, which leaves the queue
-- if it was the fifth, and serves no other.
pub agent-down :
    (go : GoLibrary) (r : Request) (t : ℕ) (l : Link) (app : LocalApp) (rest : List Outcome)
    (p : Pending) (q : List Pending)
    → t ≢ 0
    → l.conn.faults ≡ []
    → IsValid l.conn.db
    → l.session.outcomes ≡ as_outcome (handle_stream app) ∷ rest
    → is_down app ≡ true
    → pending t l.conn.db ≡ p ∷ q
    → (forward_live go r (as_exchange (handle_stream app)) t l.conn
        ≡ (copied 502 bad_gateway.header bad_gateway_chunks true, l.conn))
      × (pending t (drain go.format_time t l).conn.db
          ≡ (if leb 5 (p.attempts + 1) then q else record p { attempts = p.attempts + 1 } ∷ q))
agent-down go r t l app rest p q real quiet valid next down front = (
  forward_live-down go r app t l.conn down,
  drain-down go.format_time t l app rest p q real quiet valid next down front,
)

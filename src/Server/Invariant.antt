-- ===== src/Server/Invariant.antt =====
-- What holds in every state that the server reaches (cmd/liveurld/main.go, serve).
use liveurl.Prelude.{All-weaken, Bool, List, arith, choose, refl, ℕ, ◌+◌, ◌≡◌, ◌≤◌}
use liveurl.Registry.{get, new_registry}
use liveurl.Config.{Floats, ServerConfig}
use liveurl.Store.Presence.{Presence}
use liveurl.Store.{Conn, Db}
use liveurl.Store.Events.Retries.{IsValid}
use liveurl.Store.Keeping.Evolution.{Evolves, Evolves-refl}
use liveurl.TunnelServer.{Public, on_close, on_tick}
use liveurl.TunnelServer.Listener.{admit, on_connect}
use liveurl.Server.{
  Input, Reachable, ServerState, api_of, calls, closes, dials, drains, new_state, passes, requests,
  router_of, started_at, step, stepped, ticks,
}
use liveurl.Offline.{GoLibrary}
use liveurl.Replay.{exchange}
use liveurl.Replay.Keeping.{drain-Evolves}
use liveurl.Server.Requests.{serve_http-Evolves}
use liveurl.Server.Api.{serve_api-Evolves}
use liveurl.Server.Connections.{
  HasOwners, HasOwners-Evolves, HasOwners-remove, handle_conn-Evolves, handle_conn-HasOwners,
}

pub record IsSound {Rate Bucket : Type 0} (s : ServerState Rate Bucket) : Type 0 where
  pub events : IsValid s.db
  pub sessions : HasOwners s.edge.registry s.db

later-Evolves : (a : Db) (t : ℕ) → Evolves a (record a { now = a.now + t })
later-Evolves a t = record {
  valid = λ v. record {
    keyed = v.keyed;
    below = v.below;
    past =
        All-weaken (λ e. e.received_at ≤ a.now) (λ e. e.received_at ≤ a.now + t) a.events
          (λ e h. omega (arith, h)) v.past;
    retryable = v.retryable;
  };
  owners = λ j w o. o;
  numbers = λ j w o. o;
  sequence = omega arith;
}

IsSound-start :
    {Rate Bucket : Type 0} (s : ServerState Rate Bucket)
    → IsValid s.db
    → s.edge.registry ≡ new_registry
    → IsSound s
unfolding get
IsSound-start s v fresh = record { events = v; sessions = λ j. rw fresh tt }

module _ {Rate Bucket : Type 0} (new_limiter : Rate → ℕ → Bucket)
    (allow : ℕ → Bucket → Bool × Bucket) (go : GoLibrary) (public : Public) where
  IsSound-Evolves :
      (s t : ServerState Rate Bucket)
      → IsSound s
      → t.edge.registry ≡ s.edge.registry
      → Evolves s.db t.db
      → IsSound t
  IsSound-Evolves s t h same p = record {
    events = p.valid h.events;
    sessions = rw same (HasOwners-Evolves s.edge.registry s.db t.db p h.sessions);
  }

  step-IsSound :
      (faults : List Bool) (i : Input) (s : ServerState Rate Bucket)
      → IsSound s
      → IsSound (step new_limiter allow go public faults i s)
  unfolding step on_tick on_close on_connect
  step-IsSound faults (dials d) s h =
      let (pass, limiter) = admit new_limiter allow d.limiter_now d.host s.handshake_limiter in
      let c : Conn = record { db = s.db; faults = faults } in
      choose IsSound pass _ (record s { handshake_limiter = limiter })
        (record {
          events =
              (handle_conn-Evolves go.crypto public d.random d.brings d.sent d.redis_ok d.number
                  s.edge c).valid
                h.events;
          sessions =
              handle_conn-HasOwners go.crypto public d.random d.brings d.sent d.redis_ok d.number
                s.edge c h.sessions;
        })
        (record { events = h.events; sessions = h.sessions })
  step-IsSound faults (drains session_of sess) s h =
      IsSound-Evolves s _ h refl (drain-Evolves go.format_time sess.tunnel_id _)
  step-IsSound faults (ticks up sess) s h = IsSound-Evolves s _ h refl (Evolves-refl s.db)
  step-IsSound faults (closes up sess) s h = record {
    events = h.events;
    sessions = HasOwners-remove sess s.edge.registry s.db h.sessions;
  }
  step-IsSound faults (requests exchange a r) s h = IsSound-Evolves s _ h refl (
      serve_http-Evolves new_limiter allow go exchange (record a { presence_now = s.edge.now }) r
        (router_of new_limiter allow go public s) (record { db = s.db; faults = faults }))
  step-IsSound faults (calls call) s h = IsSound-Evolves s _ h refl (
      serve_api-Evolves new_limiter allow go call.session_of
        (api_of new_limiter allow go public call.redis_ok s) call.route call.random call.limiter_now
        call.request s.auth_limiter (record { db = s.db; faults = faults }))
  step-IsSound faults (passes t) s h = IsSound-Evolves s _ h refl (later-Evolves s.db t)

  -- In every state that the server reaches from its start on a valid database, with whatever configuration
  -- and presence keys, by connections, drains, heartbeats, closes, requests, API calls and passing of
  -- time, in any order and with any statements failing: the table of events is valid, and each session of
  -- the registry stands under its own subdomain, which an account owns, and has the number of that
  -- subdomain's tunnel or the number 0.
  pub Reachable-IsSound :
      (fl : Floats Rate) (cfg : ServerConfig Rate) (db : Db) (presence : Presence) (now : ℕ)
      (s : ServerState Rate Bucket)
      → IsValid db
      → Reachable new_limiter allow go public (new_state fl cfg db presence now) s
      → IsSound s
  unfolding new_state
  Reachable-IsSound fl cfg db presence now _ v started_at = IsSound-start _ v refl
  Reachable-IsSound fl cfg db presence now _ v (stepped faults i before) =
      step-IsSound faults i _ (Reachable-IsSound fl cfg db presence now _ v before)

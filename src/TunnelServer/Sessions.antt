-- ===== src/TunnelServer/Sessions.antt =====
-- The session of a subdomain when its agents reconnect (internal/edge/tunnelserver.go, heartbeatLoop).
use liveurl.Prelude.{
  Bool, List, [], arith, false, some, text_eq, text_eq_iff, text_eq_refl, true, ℕ, ◌+◌, ◌∷◌, ◌≡◌,
  ◌≢◌,
}
use liveurl.Store.Presence.{clear, heartbeat, is_online}
use liveurl.Registry.{AgentSession, get, put, remove}
use liveurl.TunnelServer.{Edge, connect, on_close, on_tick}

-- What a connection of the tunnel server does next; the flag says whether Redis answers.
pub data ServerEvent : Type 0 where
  connects : Bool → AgentSession → ServerEvent
  ticks : Bool → AgentSession → ServerEvent
  closes : Bool → AgentSession → ServerEvent
  passes : ℕ → ServerEvent

unfoldable pub serve_event : ServerEvent → Edge → Edge
unfolding connect on_tick on_close
serve_event (connects up sess) e = connect up sess e
serve_event (ticks up sess) e = on_tick up sess e
serve_event (closes up sess) e = on_close up sess e
serve_event (passes t) e = record e { now = e.now + t }

unfoldable pub serve_events : List ServerEvent → Edge → Edge
unfolding serve_event
serve_events [] e = e
serve_events (v ∷ vs) e = serve_events vs (serve_event v e)

-- An event that leaves the session of `sess` in its place: no other session connects under its
-- subdomain, and its own connection does not close.
abbrev pub Keeps : AgentSession → ServerEvent → Type 0
Keeps sess (connects up s) = text_eq s.subdomain sess.subdomain ≡ false
Keeps sess (ticks up s) = Unit
Keeps sess (closes up s) = s.number ≢ sess.number
Keeps sess (passes t) = Unit

unfoldable pub AllKeep : AgentSession → List ServerEvent → Type 0
AllKeep sess [] = Unit
AllKeep sess (v ∷ vs) = Keeps sess v × AllKeep sess vs

serve_event-Keeps :
    (sess : AgentSession) (v : ServerEvent) (e : Edge)
    → Keeps sess v
    → get sess.subdomain e.registry ≡ some sess
    → get sess.subdomain (serve_event v e).registry ≡ some sess
unfolding serve_event put remove get connect on_close on_tick
serve_event-Keeps sess (connects up s) e kept here = ground arith
serve_event-Keeps sess (ticks up s) e kept here = here
serve_event-Keeps sess (closes up s) e kept here =
    ground (arith, text_eq_iff s.subdomain sess.subdomain)
serve_event-Keeps sess (passes t) e kept here = here

serve_events-Keeps :
    (sess : AgentSession) (vs : List ServerEvent) (e : Edge)
    → AllKeep sess vs
    → get sess.subdomain e.registry ≡ some sess
    → get sess.subdomain (serve_events vs e).registry ≡ some sess
unfolding serve_events AllKeep
serve_events-Keeps sess [] e kept here = here
serve_events-Keeps sess (v ∷ vs) e (kept, rest) here =
    serve_events-Keeps sess vs (serve_event v e) rest (serve_event-Keeps sess v e kept here)

-- Once an agent is connected, its session is the one that the registry has for the subdomain,
-- whatever ticks, heartbeat failures, agents of other subdomains and closes of other connections
-- (among them the older connections of the same subdomain) follow.
pub connect-stays :
    (up : Bool) (sess : AgentSession) (vs : List ServerEvent) (e : Edge)
    → AllKeep sess vs
    → get sess.subdomain (serve_events (connects up sess ∷ vs) e).registry ≡ some sess
unfolding serve_events AllKeep put get connect
connect-stays up sess vs e kept =
    serve_events-Keeps sess vs (connect up sess e) kept
      (ground (arith, text_eq_refl sess.subdomain))

-- Where an agent reconnects before its older connection is closed, the close of the older one clears
-- the presence key: the registry has the newer session, and the subdomain counts as offline.
pub reconnect-offline :
    (old new : AgentSession) (e : Edge)
    → old.subdomain ≡ new.subdomain
    → old.number ≢ new.number
    → let e' = serve_events (connects true old ∷ connects true new ∷ closes true old ∷ []) e in
      (get new.subdomain e'.registry ≡ some new)
      × (is_online e'.now new.subdomain e'.presence ≡ false)
unfolding serve_events serve_event connect on_close put remove get is_online heartbeat clear
reconnect-offline old new e same differ =
    ground (arith, text_eq_refl new.subdomain, (text_eq_iff old.subdomain new.subdomain).1 same)

-- ===== src/Server/Requests.antt =====
-- A public request keeps the events valid and the owners of the subdomains (internal/edge/router.go).
use liveurl.Prelude.{Bool, Text, inl, inr, sym, ℕ}
use liveurl.Http.{Request}
use liveurl.Registry.{AgentSession}
use liveurl.Store.{Conn, Db}
use liveurl.Store.Keeping.Evolution.{Evolves, Evolves-refl, put_snapshot-Keeps}
use liveurl.Store.Keeping.Queue.{enqueue_event-Keeps}
use liveurl.Offline.{GoLibrary}
use liveurl.Proxy.{Exchange}
use liveurl.Router.{Arrival, Router, serve_http}
use liveurl.Router.Writes.{IsWritten, WritesTo, serve_http-WritesTo}
use mathlib.Core.Path.{subst}

abbrev EvolvesAny : ℕ → Db → Db → Type 0
EvolvesAny t a b = Evolves a b

Evolves-IsWritten : IsWritten EvolvesAny
Evolves-IsWritten = record {
  same = λ t a. Evolves-refl a;
  enqueued = enqueue_event-Keeps;
  stored = put_snapshot-Keeps;
}

WritesTo-Evolves :
    (go : GoLibrary) (sub : Text) (a b : Db)
    → WritesTo EvolvesAny Evolves-IsWritten go sub a b
    → Evolves a b
WritesTo-Evolves go sub a b (inl e) = subst (Evolves a) (sym e) (Evolves-refl a)
WritesTo-Evolves go sub a b (inr (t, found, h)) = h

pub serve_http-Evolves :
    {Rate Bucket : Type 0} (new_limiter : Rate → ℕ → Bucket) (allow : ℕ → Bucket → Bool × Bucket)
    (go : GoLibrary) (exchange : AgentSession → Request → Exchange) (a : Arrival) (r : Request)
    (rt : Router Rate Bucket) (c : Conn)
    → Evolves c.db (serve_http new_limiter allow go exchange a r rt c).1.1.db
serve_http-Evolves new_limiter allow go exchange a r rt c =
    WritesTo-Evolves go _ c.db _
      (serve_http-WritesTo EvolvesAny Evolves-IsWritten go new_limiter allow exchange a r rt c)

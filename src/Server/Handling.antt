-- ===== src/Server/Handling.antt =====
-- The handlers behind withAuth keep the events valid and the owners of the subdomains
-- (internal/control/server.go).
use liveurl.Prelude.{
  List, Option, Text, [], choose, codes, inl, inr, none, some, text_eq, ℕ, ◌==◌, ◌⊎◌,
}
use liveurl.Registry.{AgentSession, get}
use liveurl.Store.{
  Conn, Db, Done, Result, Tunnel, WebhookEvent, dead, delivered, err, ok, queued, replaying,
}
use liveurl.Store.Users.{User}
use liveurl.Store.Events.{clear_events, event_by_id, list_events, requeue_event}
use liveurl.Store.Snapshots.{snapshot_stats}
use liveurl.Store.Tunnels.{list_tunnels, tunnel_by_id, tunnel_by_subdomain}
use liveurl.Store.Keeping.Evolution.{DbKeeps, Evolves, Evolves-refl, Evolves-trans, reads-Evolves}
use liveurl.Store.Keeping.Queue.{clear_events-Keeps, requeue_event-Keeps}
use liveurl.Store.Keeping.Reads.{
  event_by_id-Keeps, list_events-Keeps, list_tunnels-Keeps, snapshot_stats-Keeps,
  tunnel_by_id-Keeps, tunnel_by_subdomain-Keeps,
}
use liveurl.Offline.{GoLibrary}
use liveurl.Replay.{Session}
use liveurl.Replay.Keeping.{replay_event-Evolves}
use liveurl.Control.{ApiReply, ApiRequest, ApiServer, Handler}
use liveurl.Control.Handlers.{
  ResolveError, after_requeue, clear_of, delete_events, encoded, events_of, for_owned, get_events,
  get_status, get_tunnels, list_by_text, owned_by, post_replay, replay_for, replay_found, replay_id,
  replay_to, resolve_owned_tunnel, stats_after, status_of_tunnel,
}

-- A reply and the database after it.
abbrev pub Replied : Db → ApiReply × Conn → Type 0
Replied db (a, c) = Evolves db c.db

abbrev pub Handles : Handler → Type 0
Handles h = (r : ApiRequest) (user : User) (c : Conn) → Replied c.db (h r user c)

encoded-Replied :
    {A : Type 0} (f : A → ApiReply) (db : Db) (x : Result A × Conn)
    → Evolves db x.1.db
    → Replied db (encoded f x)
encoded-Replied f db (ok a, c) h = h
encoded-Replied f db (err x, c) h = h

owned-Evolves :
    (user : User) (db : Db) (x : Result Tunnel × Conn)
    → Evolves db x.1.db
    → Evolves db (owned_by user x).1.db
owned-Evolves user db (err x, c) h = h
owned-Evolves user db (ok t, c) h =
    choose (λ (x : (ResolveError ⊎ Tunnel) × Conn). Evolves db x.1.db) (t.user_id == user.id) _ _ h
      h

resolve-Evolves :
    (r : ApiRequest) (user : User) (c : Conn) → Evolves c.db (resolve_owned_tunnel r user c).1.db
unfolding resolve_owned_tunnel
resolve-Evolves r user c =
    choose (λ (x : (ResolveError ⊎ Tunnel) × Conn). Evolves c.db x.1.db) (text_eq r.tunnel []) _ _
      (Evolves-refl c.db)
      (owned-Evolves user c.db (tunnel_by_subdomain r.tunnel c)
        (tunnel_by_subdomain-Keeps r.tunnel c))

for_owned-Replied :
    (body : Tunnel → Conn → ApiReply × Conn) (db : Db) (x : (ResolveError ⊎ Tunnel) × Conn)
    → Evolves db x.1.db
    → ((t : Tunnel) (c : Conn) → Replied c.db (body t c))
    → Replied db (for_owned body x)
for_owned-Replied body db (inl x, c) h k = h
for_owned-Replied body db (inr t, c) h k = Evolves-trans db c.db _ h (k t c)

pub get_tunnels-Replied : (s : ApiServer) → Handles (get_tunnels s)
unfolding get_tunnels
get_tunnels-Replied s r user c =
    encoded-Replied _ c.db (list_tunnels user.id c) (list_tunnels-Keeps user.id c)

list_by_text-Keeps : (t : ℕ) (state : Text) → DbKeeps (list_by_text t state)
list_by_text-Keeps t state = choose DbKeeps (text_eq state []) _ _ (list_events-Keeps t none) (
    choose DbKeeps (text_eq state (codes "queued")) _ _ (list_events-Keeps t (some queued)) (
      choose DbKeeps (text_eq state (codes "replaying")) _ _ (list_events-Keeps t (some replaying))
        (choose DbKeeps (text_eq state (codes "delivered")) _ _
          (list_events-Keeps t (some delivered))
          (choose DbKeeps (text_eq state (codes "dead")) _ _ (list_events-Keeps t (some dead))
            (reads-Evolves _)))))

pub get_events-Replied : Handles get_events
unfolding get_events
get_events-Replied r user c =
    for_owned-Replied (events_of r) c.db (resolve_owned_tunnel r user c) (resolve-Evolves r user c)
      (λ t c.
        encoded-Replied _ c.db (list_by_text t.id r.state c) (list_by_text-Keeps t.id r.state c))

pub delete_events-Replied : Handles delete_events
unfolding delete_events
delete_events-Replied r user c =
    for_owned-Replied clear_of c.db (resolve_owned_tunnel r user c) (resolve-Evolves r user c)
      (λ t c. encoded-Replied _ c.db (clear_events t.id c) (clear_events-Keeps t.id c))

stats-Replied :
    (s : ApiServer) (t : Tunnel) (db : Db) (x : Result (List WebhookEvent) × Conn)
    → Evolves db x.1.db
    → Replied db (stats_after s t x)
stats-Replied s t db (err x, c) h = h
stats-Replied s t db (ok es, c) h =
    Evolves-trans db c.db _ h
      (encoded-Replied _ c.db (snapshot_stats t.id c) (snapshot_stats-Keeps t.id c))

pub get_status-Replied : (s : ApiServer) → Handles (get_status s)
unfolding get_status
get_status-Replied s r user c =
    for_owned-Replied (status_of_tunnel s) c.db (resolve_owned_tunnel r user c)
      (resolve-Evolves r user c)
      (λ t c.
        stats-Replied s t c.db (list_events t.id (some queued) c)
          (list_events-Keeps t.id (some queued) c))

module _ (go : GoLibrary) (session_of : AgentSession → Session) (s : ApiServer) where
  replay_to-Replied :
      (e : WebhookEvent) (o : Option AgentSession) (c : Conn)
      → Replied c.db (replay_to go session_of s e o c)
  replay_to-Replied e none c = Evolves-refl c.db
  replay_to-Replied e (some sess) c =
      replay_event-Evolves go.format_time e (record { conn = c; session = session_of sess })

  requeued-Replied :
      (e : WebhookEvent) (t : Tunnel) (db : Db) (x : Result Done × Conn)
      → Evolves db x.1.db
      → Replied db (after_requeue go session_of s e t x)
  requeued-Replied e t db (err x, c) h = h
  requeued-Replied e t db (ok _, c) h =
      Evolves-trans db c.db _ h (replay_to-Replied e (get t.subdomain s.registry) c)

  replay_for-Replied :
      (user : User) (e : WebhookEvent) (db : Db) (x : Result Tunnel × Conn)
      → Evolves db x.1.db
      → Replied db (replay_for go session_of s user e x)
  replay_for-Replied user e db (err x, c) h = h
  replay_for-Replied user e db (ok t, c) h =
      choose (Replied db) (t.user_id == user.id) _ _
        (Evolves-trans db c.db _ h
          (requeued-Replied e t c.db (requeue_event e.id c) (requeue_event-Keeps e.id c)))
        h

  replay_found-Replied :
      (user : User) (db : Db) (x : Result WebhookEvent × Conn)
      → Evolves db x.1.db
      → Replied db (replay_found go session_of s user x)
  replay_found-Replied user db (err x, c) h = h
  replay_found-Replied user db (ok e, c) h = Evolves-trans db c.db _ h (
      replay_for-Replied user e c.db (tunnel_by_id e.tunnel_id c)
        (tunnel_by_id-Keeps e.tunnel_id c))

  replay_id-Replied :
      (user : User) (o : Option ℕ) (c : Conn) → Replied c.db (replay_id go session_of s user o c)
  replay_id-Replied user none c = Evolves-refl c.db
  replay_id-Replied user (some i) c =
      replay_found-Replied user c.db (event_by_id i c) (event_by_id-Keeps i c)

  pub post_replay-Replied : Handles (post_replay go session_of s)
  unfolding post_replay
  post_replay-Replied r user c = replay_id-Replied user r.event_id c

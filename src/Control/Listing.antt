-- ===== src/Control/Listing.antt =====
-- Which events the control API shows to an account (internal/control/server.go, listEvents).
use mathlib.Core.Path.{subst}
use liveurl.Prelude.{
  All, All-weaken, Bool, List, Option, Text, [], arith, choose, codes, inl, inr, keep, keep-All,
  none, order_by, order_by-All, refl, some, text_eq, true, ℕ, ◌&&◌, ◌≡◌, ◌⊎◌,
}
use liveurl.Store.{
  Conn, Db, EventState, Exec, Result, Tunnel, WebhookEvent, dead, delivered, err, ok, queued,
  replaying, statement,
}
use liveurl.Store.Hoare.{EndsAt, reads}
use liveurl.Store.Users.{User}
use liveurl.Store.Events.{in_tunnel, is_state, list_events, received_before}
use liveurl.Control.{ApiReply, ApiRequest, Payload, event_items, reply}
use liveurl.Control.Handlers.{
  ResolveError, encoded, events_of, for_owned, get_events, list_by_text, resolve_owned_tunnel,
}
use liveurl.Control.Ownership.{OwnTunnel, Resolves, resolve_owned_tunnel-Resolves}

-- The events of a payload.
abbrev pub items_of : Payload → List WebhookEvent
items_of (event_items es) = es
items_of _ = []

-- What GET /api/events shows: nothing, or events of the account's tunnel.
abbrev pub ShowsOwn : ApiRequest → User → Db → ApiReply × Conn → Type 0
ShowsOwn r user db (a, c') =
    (c'.db ≡ db)
    × ((items_of a.payload ≡ [])
        ⊎ ((t : Tunnel) × OwnTunnel r.tunnel user db t
            × All (λ e. in_tunnel t.id e ≡ true) (items_of a.payload)))

abbrev pub ListsOwn : ℕ → Db → Result (List WebhookEvent) × Conn → Type 0
ListsOwn t db x =
    EndsAt (λ es db'. All (λ e. in_tunnel t e ≡ true) es × (db' ≡ db)) (λ db'. db' ≡ db) x

ordered-own :
    (t : ℕ) (db : Db)
    → All (λ e. in_tunnel t e ≡ true) (order_by received_before (keep (in_tunnel t) db.events))
ordered-own t db =
    order_by-All received_before _ (keep (in_tunnel t) db.events) (keep-All (in_tunnel t) db.events)

of_state-own :
    (t : ℕ) (st : EventState) (db : Db)
    → All
        (λ e. in_tunnel t e ≡ true)
        (order_by received_before (keep (λ e. in_tunnel t e && is_state e.state st) db.events))
of_state-own t st db = order_by-All received_before _ (keep both db.events) (
    All-weaken (λ e. both e ≡ true) (λ e. in_tunnel t e ≡ true) (keep both db.events) first
      (keep-All both db.events))
  where
    both : WebhookEvent → Bool
    both e = in_tunnel t e && is_state e.state st

    first : (e : WebhookEvent) → both e ≡ true → in_tunnel t e ≡ true
    first e h = ground (arith, h)

list_events-ListsOwn :
    (t : ℕ) (o : Option EventState) (c : Conn) → ListsOwn t c.db (list_events t o c)
unfolding list_events
list_events-ListsOwn t none c =
    reads (λ db. ok (order_by received_before (keep (in_tunnel t) db.events))) (ListsOwn t c.db) c
      (λ faults. (ordered-own t c.db, refl)) (λ faults. refl)
list_events-ListsOwn t (some st) c =
    reads
      (λ db.
        ok (order_by received_before (keep (λ e. in_tunnel t e && is_state e.state st) db.events)))
      (ListsOwn t c.db) c (λ faults. (of_state-own t st c.db, refl)) (λ faults. refl)

list_by_text-ListsOwn : (t : ℕ) (text : Text) (c : Conn) → ListsOwn t c.db (list_by_text t text c)
list_by_text-ListsOwn t text c =
    choose Lists (text_eq text []) (list_events t none) _ (list_events-ListsOwn t none c) (
      choose Lists (text_eq text (codes "queued")) (list_events t (some queued)) _
        (list_events-ListsOwn t (some queued) c)
        (choose Lists (text_eq text (codes "replaying")) (list_events t (some replaying)) _
          (list_events-ListsOwn t (some replaying) c)
          (choose Lists (text_eq text (codes "delivered")) (list_events t (some delivered)) _
            (list_events-ListsOwn t (some delivered) c)
            (choose Lists (text_eq text (codes "dead")) (list_events t (some dead))
              (statement λ db. (ok [], db)) (list_events-ListsOwn t (some dead) c)
              (reads (λ db. ok []) (ListsOwn t c.db) c (λ faults. (tt, refl)) (λ faults. refl))))))
  where
    Lists : Exec (List WebhookEvent) → Type 0
    Lists m = ListsOwn t c.db (m c)

events_of-ShowsOwn :
    (r : ApiRequest) (user : User) (t : Tunnel) (db : Db) (x : Result (List WebhookEvent) × Conn)
    → OwnTunnel r.tunnel user db t
    → ListsOwn t.id db x
    → ShowsOwn r user db (encoded (λ es. reply 200 (event_items es)) x)
events_of-ShowsOwn r user t db (ok shown, c) own (h, same) = (same, inr (t, own, h))
events_of-ShowsOwn r user t db (err x, c) own same = (same, inl refl)

for_owned-ShowsOwn :
    (r : ApiRequest) (user : User) (db : Db) (x : (ResolveError ⊎ Tunnel) × Conn)
    → Resolves r.tunnel user db x
    → ShowsOwn r user db (for_owned (events_of r) x)
for_owned-ShowsOwn r user db (inl x, c) same = (same, inl refl)
for_owned-ShowsOwn r user db (inr t, c) (own, same) =
    events_of-ShowsOwn r user t db (list_by_text t.id r.state c) own (
      subst (λ (d : Db). ListsOwn t.id d (list_by_text t.id r.state c)) same
        (list_by_text-ListsOwn t.id r.state c))

-- GET /api/events changes nothing, and shows no events, or events that all belong to the tunnel of
-- the request, which is the account's own; whatever the state filter says.
pub get_events-ShowsOwn :
    (r : ApiRequest) (user : User) (c : Conn) → ShowsOwn r user c.db (get_events r user c)
unfolding get_events
get_events-ShowsOwn r user c =
    for_owned-ShowsOwn r user c.db (resolve_owned_tunnel r user c)
      (resolve_owned_tunnel-Resolves r user c)

-- ===== src/Control/Ownership.antt =====
-- No account reaches another account's tunnels and events (internal/control/server.go).
use mathlib.Core.Path.{subst}
use liveurl.Prelude.{
  ==_iff, Bool, Bool-cases, List, Option, Text, [], arith, false, find_where, inl, inr, keep, none,
  not, refl, some, sym, text_eq, true, ℕ, ◌==◌, ◌∷◌, ◌≡◌, ◌≢◌, ◌≤◌, ◌⊎◌,
}
use liveurl.Store.{
  Conn, Db, Tunnel, WebhookEvent, database, email_taken, hashing, invalid_credentials, no_rows,
  not_found, out_of_fuel, randomness, statement, subdomain_taken,
}
use liveurl.Store.Hoare.{reads}
use liveurl.Store.Users.{User}
use liveurl.Store.Tunnels.{
  has_subdomain, has_tunnel_id, or_missing, tunnel_by_id, tunnel_by_subdomain,
}
use liveurl.Offline.{GoLibrary}
use liveurl.Registry.{AgentSession}
use liveurl.Replay.{Session}
use liveurl.Control.{ApiReply, ApiRequest, ApiServer}
use liveurl.Control.Handlers.{
  ResolveError, clear_of, delete_events, for_owned, lookup, missing_param, not_owner, owned_by,
  post_replay, replay_for, replay_found, replay_id, resolve_owned_tunnel, status_for,
}
use liveurl.Store.Events.{clear_events, event_by_id, has_id, in_tunnel, or_not_found}

-- The tunnel under a subdomain is the account's.
abbrev pub OwnTunnel : Text → User → Db → Tunnel → Type 0
OwnTunnel sub user db t =
    (find_where (has_subdomain sub) db.tunnels ≡ some t) × (t.user_id ≡ user.id)

abbrev pub Resolves : Text → User → Db → (ResolveError ⊎ Tunnel) × Conn → Type 0
Resolves sub user db (inl x, c) = c.db ≡ db
Resolves sub user db (inr t, c) = OwnTunnel sub user db t × (c.db ≡ db)

resolve_found :
    (sub : Text) (user : User) (db : Db) (faults : List Bool) (o : Option Tunnel)
    → find_where (has_subdomain sub) db.tunnels ≡ o
    → Resolves sub user db (owned_by user (or_missing o, record { db = db; faults = faults }))
resolve_found sub user db faults none e = refl
resolve_found sub user db faults (some t) e = elim (Bool-cases (t.user_id == user.id)) [
  | inl own ↦ rw own ((e, (==_iff t.user_id user.id).0 own), refl)
  | inr other ↦ rw other refl
]

resolve_statement :
    (sub : Text) (user : User) (db : Db) (faults : List Bool)
    → Resolves sub user db
        (owned_by user (tunnel_by_subdomain sub (record { db = db; faults = faults })))
unfolding tunnel_by_subdomain statement
resolve_statement sub user db [] =
    resolve_found sub user db [] (find_where (has_subdomain sub) db.tunnels) refl
resolve_statement sub user db (true ∷ rest) = refl
resolve_statement sub user db (false ∷ rest) =
    resolve_found sub user db rest (find_where (has_subdomain sub) db.tunnels) refl

pub resolve_owned_tunnel-Resolves :
    (r : ApiRequest) (user : User) (c : Conn)
    → Resolves r.tunnel user c.db (resolve_owned_tunnel r user c)
unfolding resolve_owned_tunnel
resolve_owned_tunnel-Resolves r user c = elim (Bool-cases (text_eq r.tunnel [])) [
  | inl missing ↦ rw missing refl
  | inr named ↦ rw named (resolve_statement r.tunnel user c.db c.faults)
]

status_for_lem : (x : ResolveError) → 400 ≤ status_for x
unfolding status_for
status_for_lem missing_param = omega arith
status_for_lem not_owner = omega arith
status_for_lem (lookup not_found) = omega arith
status_for_lem (lookup no_rows) = omega arith
status_for_lem (lookup email_taken) = omega arith
status_for_lem (lookup subdomain_taken) = omega arith
status_for_lem (lookup invalid_credentials) = omega arith
status_for_lem (lookup hashing) = omega arith
status_for_lem (lookup randomness) = omega arith
status_for_lem (lookup database) = omega arith
status_for_lem (lookup out_of_fuel) = omega arith

abbrev pub ap_some : Option ℕ → (ℕ → Option WebhookEvent) → Option WebhookEvent
ap_some none f = none
ap_some (some i) f = f i

-- What DELETE /api/events did.
abbrev pub DeletesOwn : ApiRequest → User → Db → ApiReply × Conn → Type 0
DeletesOwn r user db (a, c') =
    ((a.status_code ≡ 204)
      × ((t : Tunnel) × OwnTunnel r.tunnel user db t
          × (c'.db ≡ record db { events = keep (λ e. not (in_tunnel t.id e)) db.events })))
    ⊎ ((a.status_code ≢ 204) × (c'.db ≡ db))

clear_of-DeletesOwn :
    (r : ApiRequest) (user : User) (t : Tunnel) (db : Db) (faults : List Bool)
    → OwnTunnel r.tunnel user db t
    → DeletesOwn r user db (clear_of t (record { db = db; faults = faults }))
unfolding clear_events statement
clear_of-DeletesOwn r user t db [] own = inl (refl, (t, own, refl))
clear_of-DeletesOwn r user t db (true ∷ rest) own = inr (omega arith, refl)
clear_of-DeletesOwn r user t db (false ∷ rest) own = inl (refl, (t, own, refl))

for_owned-DeletesOwn :
    (r : ApiRequest) (user : User) (db : Db) (x : (ResolveError ⊎ Tunnel) × Conn)
    → Resolves r.tunnel user db x
    → DeletesOwn r user db (for_owned clear_of x)
for_owned-DeletesOwn r user db (inl x, c) same = inr (omega (arith, status_for_lem x), same)
for_owned-DeletesOwn r user db (inr t, c) (own, same) =
    subst (λ (d : Db). DeletesOwn r user d (clear_of t c)) same
      (clear_of-DeletesOwn r user t c.db c.faults
        (subst (λ (d : Db). OwnTunnel r.tunnel user d t) (sym same) own))

-- Where DELETE /api/events answers 204, the tunnel of the request is the account's own, and exactly
-- its events are gone; otherwise, a failing statement included, the database is as it was.
pub delete_events-DeletesOwn :
    (r : ApiRequest) (user : User) (c : Conn) → DeletesOwn r user c.db (delete_events r user c)
unfolding delete_events
delete_events-DeletesOwn r user c =
    for_owned-DeletesOwn r user c.db (resolve_owned_tunnel r user c)
      (resolve_owned_tunnel-Resolves r user c)

-- What POST /api/events/{id}/replay did: the event's tunnel is the account's, or nothing is changed.
abbrev pub ReplaysOwn : Option ℕ → User → Db → ApiReply × Conn → Type 0
ReplaysOwn i user db (a, c') =
    ((e : WebhookEvent) × (t : Tunnel) × (ap_some i (λ j. find_where (has_id j) db.events) ≡ some e)
      × (find_where (has_tunnel_id e.tunnel_id) db.tunnels ≡ some t)
      × (t.user_id ≡ user.id))
    ⊎ ((400 ≤ a.status_code) × (c'.db ≡ db))

replay_for-ReplaysOwn :
    (go : GoLibrary) (session_of : AgentSession → Session) (s : ApiServer) (i : ℕ) (user : User)
    (e : WebhookEvent) (db : Db) (c : Conn) (o : Option Tunnel)
    → find_where (has_id i) db.events ≡ some e
    → find_where (has_tunnel_id e.tunnel_id) db.tunnels ≡ o
    → c.db ≡ db
    → ReplaysOwn (some i) user db (replay_for go session_of s user e (or_missing o, c))
replay_for-ReplaysOwn go session_of s i user e db c none found tunnel same = inr (omega arith, same)
replay_for-ReplaysOwn go session_of s i user e db c (some t) found tunnel same =
    elim (Bool-cases (t.user_id == user.id)) [
      | inl own ↦ inl (e, t, found, tunnel, (==_iff t.user_id user.id).0 own)
      | inr other ↦ rw other (inr (omega arith, same))
    ]

replay_found-ReplaysOwn :
    (go : GoLibrary) (session_of : AgentSession → Session) (s : ApiServer) (i : ℕ) (user : User)
    (c : Conn) (o : Option WebhookEvent)
    → find_where (has_id i) c.db.events ≡ o
    → ReplaysOwn (some i) user c.db (replay_found go session_of s user (or_not_found o, c))
unfolding tunnel_by_id
replay_found-ReplaysOwn go session_of s i user c none found =
    inr (status_for_lem (lookup not_found), refl)
replay_found-ReplaysOwn go session_of s i user c (some e) found =
    reads (λ db. or_missing (find_where (has_tunnel_id e.tunnel_id) db.tunnels))
      (λ x. ReplaysOwn (some i) user c.db (replay_for go session_of s user e x)) c
      (λ faults.
        replay_for-ReplaysOwn go session_of s i user e c.db (record { db = c.db; faults = faults })
          (find_where (has_tunnel_id e.tunnel_id) c.db.tunnels) found refl refl)
      (λ faults. inr (omega arith, refl))

replay_id-ReplaysOwn :
    (go : GoLibrary) (session_of : AgentSession → Session) (s : ApiServer) (i : Option ℕ)
    (user : User) (c : Conn)
    → ReplaysOwn i user c.db (replay_id go session_of s user i c)
unfolding event_by_id
replay_id-ReplaysOwn go session_of s none user c = inr (omega arith, refl)
replay_id-ReplaysOwn go session_of s (some i) user c =
    reads (λ db. or_not_found (find_where (has_id i) db.events))
      (λ x. ReplaysOwn (some i) user c.db (replay_found go session_of s user x)) c
      (λ faults.
        replay_found-ReplaysOwn go session_of s i user (record { db = c.db; faults = faults })
          (find_where (has_id i) c.db.events) refl)
      (λ faults. inr (status_for_lem (lookup database), refl))

-- POST /api/events/{id}/replay changes the database only where the event's tunnel belongs to the
-- account; otherwise it answers with an error status and leaves the database as it was.
pub post_replay-ReplaysOwn :
    (go : GoLibrary) (session_of : AgentSession → Session) (s : ApiServer) (r : ApiRequest)
    (user : User) (c : Conn)
    → ReplaysOwn r.event_id user c.db (post_replay go session_of s r user c)
unfolding post_replay
post_replay-ReplaysOwn go session_of s r user c =
    replay_id-ReplaysOwn go session_of s r.event_id user c

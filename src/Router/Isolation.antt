-- ===== src/Router/Isolation.antt =====
-- The requests of one subdomain and the data of the other tunnels (internal/edge/router.go with
-- internal/store/events.go and snapshots.go).
use mathlib.Core.Path.{subst}
use liveurl.Prelude.{
  Bool, List, Option, Text, [], arith, choose_by, false, find_where, inl, inr, keep, none, refl,
  some, sym, true, ℕ, ◌++◌, ◌==◌, ◌∙◌, ◌∷◌, ◌≡◌,
}
use liveurl.Store.{Conn, Db, SnapshotRow, Tunnel, WebhookEvent, rolled_back}
use liveurl.Store.Events.{enqueue_event, in_tunnel, insert_event, new_event}
use liveurl.Store.Snapshots.{
  evicted, keep_row, new_snapshot, of_tunnel, put_snapshot, remove_oldest, take_older, upsert,
  upserted,
}
use liveurl.Http.{Header, Request}
use liveurl.Registry.{AgentSession}
use liveurl.Store.Tunnels.{has_subdomain, has_tunnel}
use liveurl.Store.Keeping.{Keeps, Keeps-statement}
use liveurl.Store.Keeping.Cache.{Keeps-put_snapshot}
use liveurl.Offline.{GoLibrary}
use liveurl.Proxy.{Exchange}
use liveurl.Router.{Arrival, Router, serve_http, subdomain_of}
use liveurl.Router.Writes.{IsWritten, WritesTo, serve_http-WritesTo}

-- What belongs to tunnel `u`, its events and its pages in their order, and the accounts, tokens and tunnels.
pub record Untouched (u : ℕ) (a b : Db) : Type 0 where
  pub events : keep (in_tunnel u) b.events ≡ keep (in_tunnel u) a.events
  pub pages : keep (of_tunnel u) b.snapshots ≡ keep (of_tunnel u) a.snapshots
  pub users : b.users ≡ a.users
  pub tokens : b.tokens ≡ a.tokens
  pub tunnels : b.tunnels ≡ a.tunnels

Untouched-refl : (u : ℕ) (a : Db) → Untouched u a a
Untouched-refl u a = record {
  events = refl;
  pages = refl;
  users = refl;
  tokens = refl;
  tunnels = refl;
}

Untouched-trans : (u : ℕ) (a b c : Db) → Untouched u a b → Untouched u b c → Untouched u a c
Untouched-trans u a b c p q = record {
  events = q.events ∙ p.events;
  pages = q.pages ∙ p.pages;
  users = q.users ∙ p.users;
  tokens = q.tokens ∙ p.tokens;
  tunnels = q.tunnels ∙ p.tunnels;
}

rolled_back-Untouched :
    (u : ℕ) (a b : Db)
    → Untouched u a b
    → (c : Conn) → c.db ≡ b
    → Untouched u a (rolled_back a c).db
rolled_back-Untouched u a b p c e = record {
  events = refl;
  pages = refl;
  users = refl;
  tokens = refl;
  tunnels = refl;
}

module _ (u t : ℕ) (other : (t == u) ≡ false) where
  upsert-pages :
      (n : SnapshotRow) (rows : List SnapshotRow)
      → n.tunnel_id ≡ t
      → keep (of_tunnel u) (upsert n rows) ≡ keep (of_tunnel u) rows
  unfolding upsert
  upsert-pages n [] own = ground (arith, other, own)
  upsert-pages n (r ∷ rows) own = ground (arith, other, own, upsert-pages n rows own)

  -- What an eviction of `t` takes away is not of `u`.
  abbrev Removes : List SnapshotRow → Option (SnapshotRow × List SnapshotRow) → Type 0
  Removes rows none = Unit
  Removes rows (some (d, rest)) =
      (d.tunnel_id ≡ t) × (keep (of_tunnel u) rest ≡ keep (of_tunnel u) rows)

  take_older-Removes :
      (r : SnapshotRow) (rows : List SnapshotRow) (o : Option (SnapshotRow × List SnapshotRow))
      → of_tunnel t r ≡ true
      → Removes rows o
      → Removes (r ∷ rows) (some (take_older r rows o))
  take_older-Removes r rows none own h = ground (arith, other, own)
  take_older-Removes r rows (some (d, rest)) own (mine, kept) =
      ground (arith, other, own, mine, kept)

  keep_row-Removes :
      (r : SnapshotRow) (rows : List SnapshotRow) (o : Option (SnapshotRow × List SnapshotRow))
      → Removes rows o
      → Removes (r ∷ rows) (keep_row r o)
  keep_row-Removes r rows none h = tt
  keep_row-Removes r rows (some (d, rest)) (mine, kept) = (mine, ground (arith, kept))

  remove_oldest-Removes : (rows : List SnapshotRow) → Removes rows (remove_oldest t rows)
  unfolding remove_oldest
  remove_oldest-Removes [] = tt
  remove_oldest-Removes (r ∷ rows) =
      choose_by (Removes (r ∷ rows)) (of_tunnel t r) _ _
        (λ own. take_older-Removes r rows (remove_oldest t rows) own (remove_oldest-Removes rows))
        (λ _. keep_row-Removes r rows (remove_oldest t rows) (remove_oldest-Removes rows))

  evicted-Untouched :
      (db : Db) (o : Option (SnapshotRow × List SnapshotRow))
      → Removes db.snapshots o
      → Untouched u db (evicted o db).1
  evicted-Untouched db none h = Untouched-refl u db
  evicted-Untouched db (some (d, rest)) (mine, kept) = record {
    events = refl;
    pages = kept;
    users = refl;
    tokens = refl;
    tunnels = refl;
  }

  put_snapshot-Untouched :
      (path query content_type : Text) (headers : List (Text × Text)) (body : Option Text)
      → Keeps (Untouched u) (Untouched-refl u) (put_snapshot t path query content_type headers body)
  put_snapshot-Untouched path query content_type headers body =
      Keeps-put_snapshot (Untouched u) (Untouched-refl u) (Untouched-trans u)
        (rolled_back-Untouched u) t
        (λ db.
          evicted-Untouched db (remove_oldest t db.snapshots) (remove_oldest-Removes db.snapshots))
        path query content_type headers body (λ db. upserted-Untouched db body (has_tunnel t db))
    where
      upserted-Untouched :
          (db : Db) (o : Option Text) (known : Bool)
          → Untouched u db (upserted t path query content_type headers o known db).1
      upserted-Untouched db none known = Untouched-refl u db
      upserted-Untouched db (some b) false = Untouched-refl u db
      upserted-Untouched db (some b) true = record {
        events = refl;
        pages =
            upsert-pages (new_snapshot db t path query content_type headers b) db.snapshots refl;
        users = refl;
        tokens = refl;
        tunnels = refl;
      }

  append-events :
      (e : WebhookEvent) (es : List WebhookEvent)
      → e.tunnel_id ≡ t
      → keep (in_tunnel u) (es ++ e ∷ []) ≡ keep (in_tunnel u) es
  append-events e [] own = ground (arith, other, own)
  append-events e (x ∷ es) own = ground (arith, append-events e es own)

  enqueue_event-Untouched :
      (method path query : Text) (headers : Header) (body : Text)
      → Keeps (Untouched u) (Untouched-refl u) (enqueue_event t method path query headers body)
  unfolding enqueue_event
  enqueue_event-Untouched method path query headers body =
      Keeps-statement (Untouched u) (Untouched-refl u) _
        (λ db. inserted-Untouched db (has_tunnel t db))
    where
      inserted-Untouched :
          (db : Db) (known : Bool)
          → Untouched u db (insert_event t method path query headers body known db).1
      inserted-Untouched db false = record {
        events = refl;
        pages = refl;
        users = refl;
        tokens = refl;
        tunnels = refl;
      }
      inserted-Untouched db true = record {
        events = append-events (new_event db t method path query headers body) db.events refl;
        pages = refl;
        users = refl;
        tokens = refl;
        tunnels = refl;
      }

-- A call that writes to another tunnel.
abbrev Elsewhere : ℕ → ℕ → Db → Db → Type 0
Elsewhere u t a b = (t == u) ≡ false → Untouched u a b

Elsewhere-IsWritten : (u : ℕ) → IsWritten (Elsewhere u)
Elsewhere-IsWritten u = record {
  same = λ t a other. Untouched-refl u a;
  enqueued = λ t method path query headers body c other.
      enqueue_event-Untouched u t other method path query headers body c;
  stored = λ t path query content_type headers body c other.
      put_snapshot-Untouched u t other path query content_type headers body c;
}

WritesTo-Untouched :
    (u : ℕ) (go : GoLibrary) (sub : Text) (a b : Db)
    → ((t : Tunnel) → find_where (has_subdomain sub) a.tunnels ≡ some t → (t.id == u) ≡ false)
    → WritesTo (Elsewhere u) (Elsewhere-IsWritten u) go sub a b
    → Untouched u a b
WritesTo-Untouched u go sub a b others (inl e) = subst (Untouched u a) (sym e) (Untouched-refl u a)
WritesTo-Untouched u go sub a b others (inr (t, found, h)) = h (others t found)

-- A public request, whatever it is, whatever the agent answers and whatever statements fail, leaves the
-- events and the pages of each tunnel but the one of its subdomain as they are, and all accounts, tokens
-- and tunnels.
pub serve_http-Untouched :
    {Rate Bucket : Type 0} (new_limiter : Rate → ℕ → Bucket) (allow : ℕ → Bucket → Bool × Bucket)
    (go : GoLibrary) (exchange : AgentSession → Request → Exchange) (a : Arrival) (r : Request)
    (rt : Router Rate Bucket) (c : Conn) (u : ℕ)
    → ((t : Tunnel)
        → find_where
            (has_subdomain (subdomain_of go.lower_unicode rt.base_host r.host))
            c.db.tunnels
          ≡ some t
        → (t.id == u) ≡ false)
    → Untouched u c.db (serve_http new_limiter allow go exchange a r rt c).1.1.db
serve_http-Untouched new_limiter allow go exchange a r rt c u others =
    WritesTo-Untouched u go _ c.db _ others (
      serve_http-WritesTo (Elsewhere u) (Elsewhere-IsWritten u) go new_limiter allow exchange a r rt
        c)

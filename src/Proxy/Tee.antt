-- ===== src/Proxy/Tee.antt =====
-- Which responses go into the snapshot cache (internal/edge/proxy.go, cappedBuffer and forwardLive).
use mathlib.Core.Path.{subst}
use mathlib.Core.List.{append-nil}
use mathlib.Core.List.{append_assoc}
use liveurl.Proxy.Public.{may_store, may_store_lem}
use liveurl.Store.Snapshots.{
  IsPage, get_snapshot, max_snapshot_bytes, new_snapshot, put_in_transaction, put_snapshot,
  stored_bytes, upsert, upsert_snapshot,
}
use liveurl.Store.Snapshots.Lookup.{put_snapshot-get_snapshot}
use liveurl.Store.Tunnels.{has_tunnel}
use liveurl.Http.{Request, Response, header_get}
use liveurl.PageCache.{stored_headers}
use liveurl.Prelude.{
  Bool, Bool-cases, List, Text, [], arith, codes, false, if◌then◌else◌, inl, inr, leb, length,
  length-append, ltb, not, refl, sym, true, true≢false, ℕ, ◌&&◌, ◌++◌, ◌+◌, ◌==◌, ◌∙◌, ◌∷◌, ◌≡◌,
  ◌≤◌,
}
use liveurl.Store.{Conn, Db, SnapshotRow, ok, statement, transaction, ◌>>=◌}
use liveurl.Offline.{GoLibrary, query_hash}
use liveurl.Proxy.{
  CappedBuffer, empty_buffer, forward_live, is_candidate, max_tee_body, replies, store_snapshot,
  store_unless_over, write, write_all,
}

-- The chunks of a body, put together.
unfoldable pub concat : List Text → Text
concat [] = []
concat (p ∷ ps) = p ++ concat ps

write_all-over : (ps : List Text) (c : CappedBuffer) → c.over ≡ true → (write_all ps c).over ≡ true
unfolding write_all write
write_all-over [] c h = h
write_all-over (p ∷ ps) c h = write_all-over ps (write p c) (ground (arith, h))

-- A buffer that is within its limit before the chunks is over after them just when they do not fit.
write_all-over_iff :
    (ps : List Text) (c : CappedBuffer)
    → c.over ≡ false
    → length c.buf ≤ c.limit
    → (write_all ps c).over ≡ ltb c.limit (length c.buf + length (concat ps))
unfolding write_all concat write
write_all-over_iff [] c h within = ground arith
write_all-over_iff (p ∷ ps) c h within = elim (Bool-cases (ltb c.limit (length c.buf + length p))) [
  | inl spills ↦
      write_all-over ps (write p c) (ground (arith, h, spills))
      ∙ ground (arith, length-append p (concat ps), spills)
  | inr fits ↦ ground (
    arith,
    fits,
    length-append p (concat ps),
    length-append c.buf p,
    write_all-over_iff ps (record c { buf = c.buf ++ p }) h,
  )
]

-- A buffer that is not over after the chunks holds all of them.
write_all-buf :
    (ps : List Text) (c : CappedBuffer)
    → (write_all ps c).over ≡ false
    → (write_all ps c).buf ≡ c.buf ++ concat ps
unfolding write_all concat write
write_all-buf [] c h = sym (append-nil c.buf)
write_all-buf (p ∷ ps) c h = ground (
  arith,
  write_all-over ps (write p c),
  write_all-buf ps (write p c) h,
  append_assoc c.buf p (concat ps),
)

store_unless_over_lem :
    (go : GoLibrary) (r : Request) (resp : Response) (chunks : List Text) (complete : Bool)
    (tunnel_id : ℕ) (c : Conn)
    → store_unless_over go tunnel_id r resp (write_all chunks empty_buffer) complete c ≡ (
        if complete && leb (length (concat chunks)) max_tee_body
        then store_snapshot go tunnel_id r resp (concat chunks) c
        else c)
store_unless_over_lem go r resp chunks complete tunnel_id c =
    let over = write_all-over_iff chunks empty_buffer refl (omega arith) in
    let whole = write_all-buf chunks empty_buffer in ground (arith, over, whole)

if-if :
    {A : Type 0} (a b : Bool) (x y : A)
    → (if a then if b then x else y else y) ≡ (if a && b then x else y)
if-if true b x y = refl
if-if false b x y = refl

forward_live_lem :
    (go : GoLibrary) (r : Request) (resp : Response) (chunks : List Text) (complete : Bool)
    (tunnel_id : ℕ) (c : Conn)
    → (forward_live go r (replies resp chunks complete) tunnel_id c).1 ≡ (
        if not (resp.status_code == 101)
          && (is_candidate go tunnel_id r resp
              && (complete && leb (length (concat chunks)) max_tee_body))
        then store_snapshot go tunnel_id r resp (concat chunks) c
        else c)
unfolding forward_live
forward_live_lem go r resp chunks complete tunnel_id c =
    elim (Bool-cases (resp.status_code == 101)) [
      | inl upgrade ↦ rw upgrade refl
      | inr reply ↦ rw reply (
          rw (store_unless_over_lem go r resp chunks complete tunnel_id c) (
            if-if (is_candidate go tunnel_id r resp)
              (complete && leb (length (concat chunks)) max_tee_body)
              (store_snapshot go tunnel_id r resp (concat chunks) c) c))
    ]

module _ (go : GoLibrary) (r : Request) (resp : Response) (tunnel_id : ℕ) where
  -- The response is found under the request's path and query, with its body.
  abbrev pub IsCached : Text → Db → Conn → Type 0
  IsCached body db c' =
      (n : SnapshotRow) × IsPage db tunnel_id r.path (query_hash go r.raw_query)
        (header_get (codes "Content-Type") resp.header) (stored_headers resp.header) body n
      × (get_snapshot tunnel_id r.path (query_hash go r.raw_query) c' ≡ (ok n, c'))

  -- Where nothing was written to the buffer, NULL is refused.
  quiet-refused :
      (db : Db)
      → store_snapshot go tunnel_id r resp [] (record { db = db; faults = [] })
        ≡ record { db = db; faults = [] }
  unfolding store_snapshot put_snapshot put_in_transaction upsert_snapshot ◌>>=◌ statement
      transaction
  quiet-refused db = refl

  store_snapshot-IsCached :
      (body : Text) (c : Conn)
      → c.faults ≡ []
      → has_tunnel tunnel_id c.db ≡ true
      → leb 1 (length body) ≡ true
      → stored_bytes tunnel_id (
          upsert
            (new_snapshot c.db tunnel_id r.path
              (query_hash go r.raw_query)
              (header_get (codes "Content-Type") resp.header)
              (stored_headers resp.header)
              body)
            c.db.snapshots)
        ≤ max_snapshot_bytes
      → IsCached body c.db (store_snapshot go tunnel_id r resp body c)
  unfolding store_snapshot
  store_snapshot-IsCached [] c quiet known filled fits = cc
  store_snapshot-IsCached (b ∷ body) c quiet known filled fits =
      let (done, (n, page, kept, found)) =
        put_snapshot-get_snapshot tunnel_id r.path (query_hash go r.raw_query)
          (header_get (codes "Content-Type") resp.header) (stored_headers resp.header) (b ∷ body) c
          quiet known fits in
      (n, page, found)

  -- On a database that does not fail, for a tunnel in the table and a body that fits under the tunnel's
  -- cap: if a live response is a whole public GET with status 200, with 1 byte to 20 MiB, it is
  -- found under the request's path and query afterwards, whole, in whatever chunks it came; and
  -- otherwise, also where the body is empty, nothing is changed. Public means without Cookie,
  -- Authorization and Set-Cookie, neither private nor no-store, and of one of eight content types.
  pub forward_live-caches :
      (chunks : List Text) (complete : Bool) (c : Conn)
      → c.faults ≡ []
      → has_tunnel tunnel_id c.db ≡ true
      → let body = concat chunks in
        stored_bytes tunnel_id (
            upsert
              (new_snapshot c.db tunnel_id r.path
                (query_hash go r.raw_query)
                (header_get (codes "Content-Type") resp.header)
                (stored_headers resp.header)
                body)
              c.db.snapshots)
          ≤ max_snapshot_bytes
        → let c' = (forward_live go r (replies resp chunks complete) tunnel_id c).1 in
          (may_store go.lower_unicode tunnel_id r resp body complete ≡ true → IsCached body c.db c')
          × (may_store go.lower_unicode tunnel_id r resp body complete ≡ false → c' ≡ c)
  forward_live-caches chunks complete c quiet known fits = (
    λ stored.
        let whole = may_store_lem go tunnel_id r resp (concat chunks) complete ∙ stored in
        let taken : takes ≡ true = ground (arith, whole) in
        let filled : leb 1 (length (concat chunks)) ≡ true = ground (arith, whole) in
        rw (forward_live_lem go r resp chunks complete tunnel_id c, taken)
          (store_snapshot-IsCached (concat chunks) c quiet known filled fits),
    λ refused.
        forward_live_lem go r resp chunks complete tunnel_id c
        ∙ left takes (concat chunks)
            (may_store_lem go tunnel_id r resp (concat chunks) complete ∙ refused),
  )
    where
      takes : Bool
      takes =
          not (resp.status_code == 101)
          && (is_candidate go tunnel_id r resp
              && (complete && leb (length (concat chunks)) max_tee_body))

      unstored : store_snapshot go tunnel_id r resp [] c ≡ c
      unstored =
          subst
            (λ (faults : List Bool).
              store_snapshot go tunnel_id r resp [] (record { db = c.db; faults = faults })
              ≡ record { db = c.db; faults = faults })
            (sym quiet) (quiet-refused c.db)

      left :
          (b : Bool) (body : Text)
          → (b && leb 1 (length body)) ≡ false
          → (if b then store_snapshot go tunnel_id r resp body c else c) ≡ c
      left false body h = refl
      left true [] h = unstored
      left true (x ∷ body) h =
          let filled : leb 1 (length (x ∷ body)) ≡ true = ground arith in
          absurd (true≢false (sym filled ∙ h))

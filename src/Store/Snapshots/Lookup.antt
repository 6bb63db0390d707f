-- ===== src/Store/Snapshots/Lookup.antt =====
-- A stored page is the page that is served (internal/store/snapshots.go, PutSnapshot and GetSnapshot).
use mathlib.Core.Path.{subst}
use liveurl.Store.Tunnels.{has_tunnel}
use liveurl.Prelude.{
  Bool, Bool-cases, List, Text, [], arith, false, find_where, inl, inr, length, ltb, refl, some,
  suc, sym, text_eq_refl, true, zero, ℕ, ◌+◌, ◌<◌, ◌∷◌, ◌≡◌, ◌≤◌,
}
use liveurl.Store.{Conn, Db, SnapshotRow, ok, statement, transaction, ◌>>=◌}
use liveurl.Store.Snapshots.{
  IsPage, evict, get_snapshot, max_snapshot_bytes, new_snapshot, new_snapshot-IsPage,
  put_in_transaction, put_snapshot, same_page, stored_bytes, total_bytes, upsert, upsert_snapshot,
}

same_page_refl : (n : SnapshotRow) → same_page n.tunnel_id n.path n.query_hash n ≡ true
same_page_refl n = ground (arith, text_eq_refl n.path, text_eq_refl n.query_hash)

find-upsert :
    (n : SnapshotRow) (rows : List SnapshotRow)
    → find_where (same_page n.tunnel_id n.path n.query_hash) (upsert n rows) ≡ some n
unfolding upsert
find-upsert n [] = ground (arith, same_page_refl n)
find-upsert n (r ∷ rows) = elim (Bool-cases (same_page n.tunnel_id n.path n.query_hash r)) [
  | inl same ↦ ground (arith, same, same_page_refl n)
  | inr other ↦ ground (arith, other, find-upsert n rows)
]

ltb-within : (n m : ℕ) → m ≤ n → ltb n m ≡ false
ltb-within n m h = ground (arith, h)

evict-within :
    (fuel t total : ℕ) (c : Conn)
    → 0 < fuel
    → total ≤ max_snapshot_bytes
    → evict fuel t total c ≡ (ok tt, c)
unfolding evict
evict-within zero t total c h k = ground (arith, h)
evict-within (suc fuel) t total c h k = rw (ltb-within max_snapshot_bytes total k) refl

module _ (t : ℕ) (path query_hash content_type : Text) (headers : List (Text × Text))
    (body : Text) where
  -- What a put and a lookup of the same page give, from a connection.
  abbrev pub PageFound : Conn → Type 0
  PageFound c =
      let (r, c') = put_snapshot t path query_hash content_type headers (some body) c in
      (r ≡ ok tt)
      × ((n : SnapshotRow) × (IsPage c.db t path query_hash content_type headers body n)
          × (c'.db ≡ record c.db { snapshots = upsert n c.db.snapshots })
          × (get_snapshot t path query_hash c' ≡ (ok n, c')))

  quiet-PageFound :
      (db : Db)
      → has_tunnel t db ≡ true
      → stored_bytes t
          (upsert (new_snapshot db t path query_hash content_type headers body) db.snapshots)
        ≤ max_snapshot_bytes
      → PageFound (record { db = db; faults = [] })
  unfolding put_snapshot put_in_transaction upsert_snapshot total_bytes get_snapshot ◌>>=◌ statement
      transaction
  quiet-PageFound db known fits =
      let n = new_snapshot db t path query_hash content_type headers body in
      let rows = upsert n db.snapshots in
      let done =
        evict-within (length rows + 1) t (stored_bytes t rows)
          (record { db = record db { snapshots = rows }; faults = [] }) (omega arith) fits in
      let page = new_snapshot-IsPage db t path query_hash content_type headers body in
      rw known (rw done (refl, (n, page, refl, rw (find-upsert n db.snapshots) refl)))

  pub put_snapshot-get_snapshot :
      (c : Conn)
      → c.faults ≡ []
      → has_tunnel t c.db ≡ true
      → stored_bytes t
          (upsert (new_snapshot c.db t path query_hash content_type headers body) c.db.snapshots)
        ≤ max_snapshot_bytes
      → PageFound c
  put_snapshot-get_snapshot c quiet known fits =
      subst (λ (faults : List Bool). PageFound (record { db = c.db; faults = faults })) (sym quiet)
        (quiet-PageFound c.db known fits)

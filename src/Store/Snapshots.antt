-- ===== src/Store/Snapshots.antt =====
-- internal/store/snapshots.go: the snapshot cache of a tunnel and its size cap.
pub mod Cap
pub mod Lookup
use liveurl.Store.Json.{IsAscii, json_pairs, json_pairs-ascii}
use liveurl.Store.Tunnels.{has_tunnel}
use liveurl.Prelude.{
  All, Bool, List, Option, Text, [], false, find_where, if◌then◌else◌, keep, leb, length, ltb, none,
  refl, some, suc, text_eq, true, zero, ℕ, ◌&&◌, ◌+◌, ◌-◌, ◌==◌, ◌∷◌, ◌≡◌,
}
use liveurl.Store.{
  Conn, Db, Done, Exec, Result, SnapshotRow, database, err, no_rows, not_found, ok, out_of_fuel,
  statement, transaction, ◌>>=◌, ◌>>◌,
}

-- 100 << 20
abbrev pub max_snapshot_bytes : ℕ
max_snapshot_bytes = 104857600

-- PRIMARY KEY (tunnel_id, path, query_hash)
abbrev pub same_page : ℕ → Text → Text → SnapshotRow → Bool
same_page t path query_hash r =
    r.tunnel_id == t && (text_eq r.path path && text_eq r.query_hash query_hash)

abbrev pub of_tunnel : ℕ → SnapshotRow → Bool
of_tunnel t r = r.tunnel_id == t

-- INSERT … ON CONFLICT DO UPDATE: the row of the page is replaced, or added at the end.
unfoldable pub upsert : SnapshotRow → List SnapshotRow → List SnapshotRow
upsert n [] = n ∷ []
upsert n (r ∷ rows) =
    if same_page n.tunnel_id n.path n.query_hash r then n ∷ rows else r ∷ upsert n rows

-- SELECT COALESCE(SUM(octet_length(body)),0) … WHERE tunnel_id=$1
unfoldable pub stored_bytes : ℕ → List SnapshotRow → ℕ
stored_bytes t [] = 0
stored_bytes t (r ∷ rows) = (if of_tunnel t r then length r.body else 0) + stored_bytes t rows

abbrev pub take_older :
    SnapshotRow
    → List SnapshotRow
    → Option (SnapshotRow × List SnapshotRow)
    → SnapshotRow × List SnapshotRow
take_older r rows none = (r, rows)
take_older r rows (some (d, rest)) =
    if leb r.captured_at d.captured_at then (r, rows) else (d, r ∷ rest)

abbrev pub keep_row :
    SnapshotRow → Option (SnapshotRow × List SnapshotRow) → Option (SnapshotRow × List SnapshotRow)
keep_row r none = none
keep_row r (some (d, rest)) = some (d, r ∷ rest)

-- SELECT ctid … ORDER BY captured_at LIMIT 1, and the rows without that one: the tunnel's oldest row,
-- the first of those that are as old.
unfoldable pub remove_oldest : ℕ → List SnapshotRow → Option (SnapshotRow × List SnapshotRow)
remove_oldest t [] = none
remove_oldest t (r ∷ rows) =
    let rest = remove_oldest t rows in
    if of_tunnel t r then some (take_older r rows rest) else keep_row r rest

abbrev pub evicted : Option (SnapshotRow × List SnapshotRow) → Db → Result ℕ × Db
evicted none db = (err no_rows, db)
evicted (some (d, rest)) db = (ok (length d.body), record db { snapshots = rest })

-- One statement deletes the tunnel's oldest row and returns its size.
unfoldable pub delete_oldest : ℕ → Exec ℕ
unfolding statement remove_oldest
delete_oldest t = statement λ db. evicted (remove_oldest t db.snapshots) db

-- The loop ends where the tunnel has no row left; another error is returned.
abbrev pub evict_rest : (ℕ → Exec Done) → Result ℕ × Conn → Result Done × Conn
evict_rest rest (ok n, c) = rest n c
evict_rest rest (err no_rows, c) = (ok tt, c)
evict_rest rest (err x, c) = (err x, c)

-- `for total > MaxSnapshotBytes`
unfoldable pub evict : ℕ → ℕ → ℕ → Exec Done
unfolding delete_oldest
evict zero t total c = (err out_of_fuel, c)
evict (suc fuel) t total c =
    let rest = λ (n : ℕ). evict fuel t (total - n) in
    if ltb max_snapshot_bytes total then evict_rest rest (delete_oldest t c) else (ok tt, c)

unfoldable pub total_bytes : ℕ → Exec ℕ
unfolding statement stored_bytes
total_bytes t = statement λ db. (ok (stored_bytes t db.snapshots), db)

abbrev pub new_snapshot : Db → ℕ → Text → Text → Text → List (Text × Text) → Text → SnapshotRow
new_snapshot db t path query_hash content_type headers body = record {
  tunnel_id = t;
  path = path;
  query_hash = query_hash;
  content_type = content_type;
  headers = json_pairs headers;
  body = body;
  captured_at = db.now;
}

-- What a row holds of the page that it is for.
pub record IsPage (db : Db) (t : ℕ) (path query_hash content_type : Text)
    (headers : List (Text × Text)) (body : Text) (r : SnapshotRow) : Type 0 where
  pub tunnel : r.tunnel_id ≡ t
  pub same_path : r.path ≡ path
  pub same_query : r.query_hash ≡ query_hash
  pub same_type : r.content_type ≡ content_type
  pub same_body : r.body ≡ body
  pub through_json : r.headers ≡ json_pairs headers
  pub verbatim : All (λ kv. IsAscii kv.1) headers → r.headers ≡ headers
  pub time : r.captured_at ≡ db.now

pub new_snapshot-IsPage :
    (db : Db) (t : ℕ) (path query_hash content_type : Text) (headers : List (Text × Text))
    (body : Text)
    → IsPage db t path query_hash content_type headers body
        (new_snapshot db t path query_hash content_type headers body)
new_snapshot-IsPage db t path query_hash content_type headers body = record {
  tunnel = refl;
  same_path = refl;
  same_query = refl;
  same_type = refl;
  same_body = refl;
  through_json = refl;
  verbatim = json_pairs-ascii headers;
  time = refl;
}

-- `none` is the nil slice, which is written as NULL and refused; and so is a page of a tunnel that is
-- not in the table, which the row REFERENCES.
abbrev pub upserted :
    ℕ → Text → Text → Text → List (Text × Text) → Option Text → Bool → Db → Result Done × Db
upserted t path query_hash content_type headers none _ db = (err database, db)
upserted t path query_hash content_type headers (some body) false db = (err database, db)
upserted t path query_hash content_type headers (some body) true db = (
  ok tt,
  record db {
    snapshots = upsert (new_snapshot db t path query_hash content_type headers body) db.snapshots;
  },
)

unfoldable pub upsert_snapshot :
    ℕ → Text → Text → Text → List (Text × Text) → Option Text → Exec Done
unfolding statement upsert
upsert_snapshot t path query_hash content_type headers body =
    statement λ db. upserted t path query_hash content_type headers body (has_tunnel t db) db

-- There are as many rounds as rows, and the one that ends the loop.
abbrev pub evict_all : ℕ → ℕ → Exec Done
evict_all t total c = evict (length c.db.snapshots + 1) t total c

-- The statements between Begin and Commit.
unfoldable pub put_in_transaction :
    ℕ → Text → Text → Text → List (Text × Text) → Option Text → Exec Done
unfolding upsert_snapshot total_bytes evict ◌>>=◌
put_in_transaction t path query_hash content_type headers body = do
  upsert_snapshot t path query_hash content_type headers body
  total ← total_bytes t
  evict_all t total

unfoldable pub put_snapshot : ℕ → Text → Text → Text → List (Text × Text) → Option Text → Exec Done
unfolding put_in_transaction transaction
put_snapshot t path query_hash content_type headers body =
    transaction (put_in_transaction t path query_hash content_type headers body)

abbrev found_snapshot : Option SnapshotRow → Result SnapshotRow
found_snapshot none = err not_found
found_snapshot (some r) = ok r

unfoldable pub get_snapshot : ℕ → Text → Text → Exec SnapshotRow
unfolding statement
get_snapshot t path query_hash =
    statement λ db. (found_snapshot (find_where (same_page t path query_hash) db.snapshots), db)

pub record SnapshotStats : Type 0 where
  pub pages : ℕ
  pub bytes : ℕ

unfoldable pub snapshot_stats : ℕ → Exec SnapshotStats
unfolding statement stored_bytes
snapshot_stats t = statement λ db. (
  ok (record {
    pages = length (keep (of_tunnel t) db.snapshots);
    bytes = stored_bytes t db.snapshots;
  }),
  db,
)

-- ===== src/Store/Keeping/Cache.antt =====
-- What PutSnapshot keeps, by what its statements keep (internal/store/snapshots.go).
use liveurl.Store.Tunnels.{has_tunnel}
use liveurl.Prelude.{List, Option, Text, choose, ltb, suc, zero, ℕ, ◌-◌, ◌≡◌}
use liveurl.Store.{
  Conn, Db, Done, Exec, Result, database, email_taken, err, hashing, invalid_credentials, no_rows,
  not_found, ok, out_of_fuel, randomness, rolled_back, subdomain_taken,
}
use liveurl.Store.Snapshots.{
  delete_oldest, evict, evict_rest, evicted, max_snapshot_bytes, put_in_transaction, put_snapshot,
  remove_oldest, total_bytes, upsert_snapshot, upserted,
}
use liveurl.Store.Keeping.{Keeps, Keeps-bind, Keeps-reads, Keeps-statement, Keeps-transaction}

module _ (R : Db → Db → Type 0) (same : (a : Db) → R a a)
    (next : (a b c : Db) → R a b → R b c → R a c)
    (back : (a b : Db) → R a b → (c : Conn) → c.db ≡ b → R a (rolled_back a c).db) (t : ℕ)
    (deletes : (db : Db) → R db (evicted (remove_oldest t db.snapshots) db).1) where
  delete_oldest-Keeps : Keeps R same (delete_oldest t)
  unfolding delete_oldest
  delete_oldest-Keeps = Keeps-statement R same _ deletes

  evict_rest-Keeps :
      (rest : ℕ → Exec Done) (db : Db) (x : Result ℕ × Conn)
      → R db x.1.db
      → ((n : ℕ) → Keeps R same (rest n))
      → R db (evict_rest rest x).1.db
  evict_rest-Keeps rest db (ok n, c) h k = next db c.db (rest n c).1.db h (k n c)
  evict_rest-Keeps rest db (err no_rows, c) h k = h
  evict_rest-Keeps rest db (err not_found, c) h k = h
  evict_rest-Keeps rest db (err email_taken, c) h k = h
  evict_rest-Keeps rest db (err subdomain_taken, c) h k = h
  evict_rest-Keeps rest db (err invalid_credentials, c) h k = h
  evict_rest-Keeps rest db (err hashing, c) h k = h
  evict_rest-Keeps rest db (err randomness, c) h k = h
  evict_rest-Keeps rest db (err database, c) h k = h
  evict_rest-Keeps rest db (err out_of_fuel, c) h k = h

  evict-Keeps : (fuel total : ℕ) → Keeps R same (evict fuel t total)
  unfolding evict
  evict-Keeps zero total c = same c.db
  evict-Keeps (suc fuel) total c =
      choose (λ (x : Result Done × Conn). R c.db x.1.db) (ltb max_snapshot_bytes total) _ _
        (evict_rest-Keeps (λ n. evict fuel t (total - n)) c.db (delete_oldest t c)
          (delete_oldest-Keeps c) (λ n c'. evict-Keeps fuel (total - n) c'))
        (same c.db)

  pub Keeps-put_snapshot :
      (path query content_type : Text) (headers : List (Text × Text)) (body : Option Text)
      → ((db : Db) → R db (upserted t path query content_type headers body (has_tunnel t db) db).1)
      → Keeps R same (put_snapshot t path query content_type headers body)
  unfolding put_snapshot put_in_transaction upsert_snapshot total_bytes
  Keeps-put_snapshot path query content_type headers body h = Keeps-transaction R same next back _ (
      Keeps-bind R same next (upsert_snapshot t path query content_type headers body) _
        (Keeps-statement R same _ h)
        (λ _.
          Keeps-bind R same next (total_bytes t) _ (Keeps-reads R same _)
            (λ total c. evict-Keeps _ total c)))

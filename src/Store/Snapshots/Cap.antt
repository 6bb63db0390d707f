-- ===== src/Store/Snapshots/Cap.antt =====
-- The size cap of the snapshot cache (internal/store/snapshots.go, PutSnapshot).
use liveurl.Store.Tunnels.{has_tunnel}
use liveurl.Prelude.{
  Bool, Bool-cases, List, Option, Text, [], arith, false, if◌then◌else◌, inl, inr, length, ltb,
  none, refl, some, suc, sym, true, zero, ℕ, ◌+◌, ◌-◌, ◌<◌, ◌∷◌, ◌≡◌, ◌≢◌, ◌≤◌,
}
use liveurl.Store.{Conn, Done, Failure, Result, SnapshotRow, err, ok, out_of_fuel, resume, ◌>>=◌}
use liveurl.Store.Snapshots.{
  evict, evict_all, evict_rest, evicted, keep_row, max_snapshot_bytes, of_tunnel,
  put_in_transaction, put_snapshot, remove_oldest, stored_bytes, take_older, total_bytes,
  upsert_snapshot, upserted,
}
use liveurl.Store.Atomic.{Transacted, in_body, own_statement, transaction-Transacted}
use liveurl.Store.Hoare.{statement-cases}

-- A tunnel without an oldest row stores nothing.
pub remove_oldest-none :
    (t : ℕ) (rows : List SnapshotRow) → remove_oldest t rows ≡ none → stored_bytes t rows ≡ 0
unfolding remove_oldest stored_bytes
remove_oldest-none t [] e = refl
remove_oldest-none t (r ∷ rows) e = ground (arith, remove_oldest-none t rows)

-- What an eviction takes away, for its own tunnel and for each other.
pub record Evicts (t : ℕ) (rows : List SnapshotRow) (d : SnapshotRow) (rest : List SnapshotRow)
    : Type 0 where
  pub own : d.tunnel_id ≡ t
  pub frees : stored_bytes t rows ≡ length d.body + stored_bytes t rest
  pub one : length rows ≡ suc (length rest)

remove_oldest-step :
    (t : ℕ) (r : SnapshotRow) (rows : List SnapshotRow)
    (o : Option (SnapshotRow × List SnapshotRow)) {d : SnapshotRow} {rest : List SnapshotRow}
    → ((d' : SnapshotRow) (rest' : List SnapshotRow)
        → o ≡ some (d', rest')
        → Evicts t rows d' rest')
    → (if of_tunnel t r then some (take_older r rows o) else keep_row r o) ≡ some (d, rest)
    → Evicts t (r ∷ rows) d rest
unfolding stored_bytes
remove_oldest-step t r rows none ih e = ground arith
remove_oldest-step t r rows (some (d', rest')) ih e =
    let v : Evicts t rows d' rest' = ih d' rest' refl in ground arith

pub remove_oldest-Evicts :
    (t : ℕ) (rows : List SnapshotRow) {d : SnapshotRow} {rest : List SnapshotRow}
    → remove_oldest t rows ≡ some (d, rest)
    → Evicts t rows d rest
unfolding remove_oldest
remove_oldest-Evicts t [] e = cc
remove_oldest-Evicts t (r ∷ rows) e =
    remove_oldest-step t r rows (remove_oldest t rows) (λ d' rest' p. remove_oldest-Evicts t rows p)
      e

-- The loop has ended within the cap, or a statement has failed; the fuel has not run out.
abbrev Capped : ℕ → Result Done × Conn → Type 0
Capped t (ok _, c) = stored_bytes t c.db.snapshots ≤ max_snapshot_bytes
Capped t (err x, c) = x ≢ out_of_fuel

evicted-Capped :
    (t total fuel : ℕ) (c : Conn) (rest : List Bool) (o : Option (SnapshotRow × List SnapshotRow))
    → remove_oldest t c.db.snapshots ≡ o
    → total ≡ stored_bytes t c.db.snapshots
    → length c.db.snapshots ≤ fuel
    → ((n : ℕ) (c' : Conn)
        → total - n ≡ stored_bytes t c'.db.snapshots
        → length c'.db.snapshots < fuel
        → Capped t (evict fuel t (total - n) c'))
    → Capped t (
        evict_rest
          (λ n. evict fuel t (total - n))
          ((evicted o c.db).0, record { db = (evicted o c.db).1; faults = rest }))
evicted-Capped t total fuel c rest none e sum room ih =
    let nothing = remove_oldest-none t c.db.snapshots e in omega arith
evicted-Capped t total fuel c rest (some (d, rows)) e sum room ih =
    let v = remove_oldest-Evicts t c.db.snapshots e in
    ih (length d.body) _ (omega (arith, v.frees)) (omega (arith, v.one))

evict-Capped :
    (fuel t total : ℕ) (c : Conn)
    → total ≡ stored_bytes t c.db.snapshots
    → length c.db.snapshots < fuel
    → Capped t (evict fuel t total c)
unfolding evict
evict-Capped zero t total c sum room = absurd (omega arith)
evict-Capped (suc fuel) t total c sum room = elim (Bool-cases (ltb max_snapshot_bytes total)) [
  | inl over ↦ rw over (elim (statement-cases (λ db. evicted (remove_oldest t db.snapshots) db) c) [
    | inl (rest, run) ↦ rw run (
        evicted-Capped t total fuel c rest (remove_oldest t c.db.snapshots) refl sum (omega arith)
          (λ n c' s l. evict-Capped fuel t (total - n) c' s l))
    | inr (rest, broken) ↦ rw broken (λ e. cc)
  ])
  | inr within ↦ rw within (ground arith)
]

fuel_left :
    (t : ℕ) (r : Result Done × Conn) (x : Failure) → Capped t r → r.0 ≡ err x → x ≢ out_of_fuel
fuel_left t (ok _, c) x h e = cc
fuel_left t (err y, c) x h e = λ out. h (cc (e, out))

module _ (t : ℕ) (path query_hash content_type : Text) (headers : List (Text × Text))
    (body : Option Text) where
  total-Capped : (c : Conn) → Capped t ((total_bytes t >>= evict_all t) c)
  unfolding total_bytes ◌>>=◌
  total-Capped c = elim (statement-cases (λ db. (ok (stored_bytes t db.snapshots), db)) c) [
    | inl (rest, run) ↦ rw run (
        evict-Capped (length c.db.snapshots + 1) t _ (record c { faults = rest }) refl
          (omega arith))
    | inr (rest, broken) ↦ rw broken (λ e. cc)
  ]

  put-Capped :
      (c : Conn) → Capped t (put_in_transaction t path query_hash content_type headers body c)
  unfolding put_in_transaction upsert_snapshot
  put-Capped c =
      elim (statement-cases
        (λ db. upserted t path query_hash content_type headers body (has_tunnel t db) db) c) [
          | inl (rest, run) ↦ rw run (go body (has_tunnel t c.db) rest)
          | inr (rest, broken) ↦ rw broken (λ e. cc)
        ]
    where
      go :
          (b : Option Text) (known : Bool) (rest : List Bool)
          → let x = upserted t path query_hash content_type headers b known c.db in
            let c' : Conn = record { db = x.1; faults = rest } in
            Capped t (resume x.0 (λ _. total_bytes t >>= evict_all t) c')
      go none known rest = λ e. cc
      go (some b) false rest = λ e. cc
      go (some b) true rest = total-Capped (record {
        db = (upserted t path query_hash content_type headers (some b) true c.db).1;
        faults = rest;
      })

  -- What PutSnapshot has done, by how it ended.
  abbrev pub Stored : Conn → Result Done × Conn → Type 0
  Stored c (ok _, c') = stored_bytes t c'.db.snapshots ≤ max_snapshot_bytes
  Stored c (err x, c') = (x ≢ out_of_fuel) × (c'.db.snapshots ≡ c.db.snapshots)

  Transacted-Stored :
      (c : Conn) (r : Result Done × Conn)
      → Transacted (put_in_transaction t path query_hash content_type headers body) c r
      → Stored c r
  Transacted-Stored c (ok _, c') ran =
      rw (← ran.left)
        (let capped : Capped t (ok tt, ran.finish) = rw ran.run at (put-Capped ran.start) in capped)
  Transacted-Stored c (err x, c') (same, own_statement e) =
      ((λ out. cc (e, out)), sym same.snapshots)
  Transacted-Stored c (err x, c') (same, in_body start _ failed) =
      (fuel_left t _ x (put-Capped start) failed, sym same.snapshots)

  -- Whatever statements fail: PutSnapshot returns with the tunnel's snapshots within the size cap,
  -- or fails and leaves every snapshot as it was; its eviction loop always ends.
  pub put_snapshot-Stored :
      (c : Conn) → Stored c (put_snapshot t path query_hash content_type headers body c)
  unfolding put_snapshot
  put_snapshot-Stored c = Transacted-Stored c _ (transaction-Transacted _ c)

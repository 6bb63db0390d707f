-- ===== src/Store/Keeping.antt =====
-- Relations between the database before and after the actions of internal/store, whichever statements fail.
pub mod Cache
pub mod Evolution
pub mod Queue
pub mod Reads
use liveurl.Prelude.{inl, inr, refl, ◌≡◌}
use liveurl.Store.{
  Conn, Db, Exec, Result, commit_or_roll_back, err, ok, resume, rolled_back, statement, transaction,
  ◌>>=◌,
}
use liveurl.Store.Hoare.{statement-cases}

module _ (R : Db → Db → Type 0) (same : (a : Db) → R a a) where
  -- The database that an action leaves is in the relation to the one that it finds.
  abbrev pub Keeps : {A : Type 0} → Exec A → Type 0
  Keeps m = (c : Conn) → R c.db (m c).1.db

  pub Keeps-statement :
      {A : Type 0} (f : Db → Result A × Db) → ((db : Db) → R db (f db).1) → Keeps (statement f)
  Keeps-statement f h c = elim (statement-cases f c) [
    | inl (rest, done) ↦ rw done (h c.db)
    | inr (rest, broken) ↦ rw broken (same c.db)
  ]

  pub Keeps-reads : {A : Type 0} (f : Db → Result A) → Keeps (statement (λ db. (f db, db)))
  Keeps-reads f = Keeps-statement (λ db. (f db, db)) (λ db. same db)

  module _ (next : (a b c : Db) → R a b → R b c → R a c) where
    resumed :
        {A B : Type 0} (a : Db) (k : A → Exec B) (x : Result A × Conn)
        → R a x.1.db
        → ((v : A) → Keeps (k v))
        → R a (resume x.0 k x.1).1.db
    resumed a k (ok v, c) h g = next a c.db (k v c).1.db h (g v c)
    resumed a k (err x, c) h g = h

    pub Keeps-bind :
        {A B : Type 0} (m : Exec A) (k : A → Exec B)
        → Keeps m
        → ((v : A) → Keeps (k v))
        → Keeps (m >>= k)
    unfolding ◌>>=◌
    Keeps-bind m k h g c = resumed c.db k (m c) (h c) g

    module _ (back : (a b : Db) → R a b → (c : Conn) → c.db ≡ b → R a (rolled_back a c).db) where
      committed-Keeps :
          {A : Type 0} (a : Db) (x : Result A × Conn)
          → R a x.1.db
          → R a (commit_or_roll_back a x).1.db
      committed-Keeps a (err x, c) h = back a c.db h c refl
      committed-Keeps a (ok v, c) h = elim (statement-cases (λ db. (ok tt, db)) c) [
        | inl (rest, done) ↦ rw done h
        | inr (rest, broken) ↦ rw broken (back a c.db h (record c { faults = rest }) refl)
      ]

      pub Keeps-transaction : {A : Type 0} (body : Exec A) → Keeps body → Keeps (transaction body)
      unfolding transaction
      Keeps-transaction body h c = elim (statement-cases (λ db. (ok tt, db)) c) [
        | inl (rest, done) ↦ rw done (
            committed-Keeps c.db (body (record c { faults = rest }))
              (h (record c { faults = rest })))
        | inr (rest, broken) ↦ rw broken (same c.db)
      ]

-- ===== src/Store/Hoare.antt =====
-- Pre- and postconditions of the actions of internal/store, whichever statements fail.
use liveurl.Prelude.{Bool, List, [], false, inl, inr, refl, true, ◌∷◌, ◌≡◌, ◌⊎◌}
use liveurl.Store.{Conn, Db, Exec, Result, attempt, database, err, ok, resume, statement, ◌>>=◌}

module _ {A : Type 0} where
  abbrev pub Ends : (A → Db → Type 0) → (Db → Type 0) → Result A × Db → Type 0
  Ends Q E (ok a, db) = Q a db
  Ends Q E (err _, db) = E db

  abbrev pub EndsAt : (A → Db → Type 0) → (Db → Type 0) → Result A × Conn → Type 0
  EndsAt Q E (ok a, c) = Q a c.db
  EndsAt Q E (err _, c) = E c.db

  -- From a database with `P`, the action returns a value and a database with `Q`, or fails with `E`.
  pub record Triple (P : Db → Type 0) (m : Exec A) (Q : A → Db → Type 0) (E : Db → Type 0)
      : Type 0 where
    pub at : (c : Conn) → P c.db → EndsAt Q E (m c)

  module _ (Q : A → Db → Type 0) (E : Db → Type 0) where
    attempt-EndsAt :
        (f : Db → Result A × Db) (db : Db) (faults : List Bool)
        → Ends Q E (f db)
        → E db
        → EndsAt Q E (statement f (record { db = db; faults = faults }))
    unfolding statement
    attempt-EndsAt f db [] h e = keep_ends (f db) h
      where
        keep_ends :
            (r : Result A × Db) → Ends Q E r → EndsAt Q E (r.0, record { db = r.1; faults = [] })
        keep_ends (ok a, _) h = h
        keep_ends (err x, _) h = h
    attempt-EndsAt f db (true ∷ rest) h e = e
    attempt-EndsAt f db (false ∷ rest) h e = keep_ends (f db) h
      where
        keep_ends :
            (r : Result A × Db) → Ends Q E r → EndsAt Q E (r.0, record { db = r.1; faults = rest })
        keep_ends (ok a, _) h = h
        keep_ends (err x, _) h = h

  module _ {P E : Db → Type 0} {Q : A → Db → Type 0} where
    pub Triple-statement :
        (f : Db → Result A × Db)
        → ((db : Db) → P db → Ends Q E (f db))
        → ((db : Db) → P db → E db)
        → Triple P (statement f) Q E
    Triple-statement f h e = record {
      at = λ c p. attempt-EndsAt Q E f c.db c.faults (h c.db p) (e c.db p);
    }

module _ {A B : Type 0} {P E : Db → Type 0} {Q : A → Db → Type 0} {R : B → Db → Type 0} where
  pub Triple-bind :
      (m : Exec A) (k : A → Exec B)
      → Triple P m Q E
      → ((a : A) → Triple (Q a) (k a) R E)
      → Triple P (m >>= k) R E
  unfolding ◌>>=◌
  Triple-bind m k hm hk = record { at = λ c p. next (m c) (hm.at c p) }
    where
      next : (r : Result A × Conn) → EndsAt Q E r → EndsAt R E (let (x, c') = r in resume x k c')
      next (ok a, c') h = (hk a).at c' h
      next (err x, c') h = h

-- A statement is carried out, or fails and changes nothing.
pub statement-cases :
    {A : Type 0} (f : Db → Result A × Db) (c : Conn)
    → ((rest : List Bool) × (statement f c
          ≡ ((f c.db).0, record { db = (f c.db).1; faults = rest })))
      ⊎ ((rest : List Bool) × (statement f c ≡ (err database, record c { faults = rest })))
unfolding statement
statement-cases {A} f c = go c.faults refl
  where
    go :
        (faults : List Bool)
        → c.faults ≡ faults
        → ((rest : List Bool) × (attempt f c.db c.faults
              ≡ ((f c.db).0, record { db = (f c.db).1; faults = rest })))
          ⊎ ((rest : List Bool) × (attempt f c.db c.faults
                ≡ (err database, record c { faults = rest })))
    go [] e = inl ([], rw e)
    go (true ∷ rest) e = inr (rest, rw e)
    go (false ∷ rest) e = inl (rest, rw e)

reads_from :
    {A : Type 0} (f : Db → Result A) (P : Result A × Conn → Type 0) (db : Db) (faults : List Bool)
    → ((rest : List Bool) → P (f db, record { db = db; faults = rest }))
    → ((rest : List Bool) → P (err database, record { db = db; faults = rest }))
    → P (attempt (λ db. (f db, db)) db faults)
reads_from f P db [] good bad = good []
reads_from f P db (true ∷ rest) good bad = bad rest
reads_from f P db (false ∷ rest) good bad = good rest

-- A statement that only reads returns what it reads, or fails.
pub reads :
    {A : Type 0} (f : Db → Result A) (P : Result A × Conn → Type 0) (c : Conn)
    → ((faults : List Bool) → P (f c.db, record { db = c.db; faults = faults }))
    → ((faults : List Bool) → P (err database, record { db = c.db; faults = faults }))
    → P (statement (λ db. (f db, db)) c)
unfolding statement
reads f P c good bad = reads_from f P c.db c.faults good bad

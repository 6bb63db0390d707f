-- ===== src/Store/Atomic.antt =====
-- Transactions of internal/store are atomic: they commit what their body did, or leave the tables.
use liveurl.Prelude.{ap, inl, inr, refl, ◌≡◌}
use liveurl.Store.{
  Conn, Db, Exec, Failure, Result, commit_or_roll_back, database, err, ok, rolled_back, transaction,
}
use liveurl.Store.Hoare.{statement-cases}

pub record SameTables (a b : Db) : Type 0 where
  pub users : a.users ≡ b.users
  pub tokens : a.tokens ≡ b.tokens
  pub tunnels : a.tunnels ≡ b.tunnels
  pub events : a.events ≡ b.events
  pub snapshots : a.snapshots ≡ b.snapshots
  pub now : a.now ≡ b.now

pub SameTables-refl : (a : Db) → SameTables a a
SameTables-refl a = record {
  users = refl;
  tokens = refl;
  tunnels = refl;
  events = refl;
  snapshots = refl;
  now = refl;
}

module _ {A : Type 0} (body : Exec A) where
  -- A run of the body from the same database that returned `a` and left the database `db`.
  pub record Ran (c : Conn) (a : A) (db : Db) : Type 0 where
    pub start : Conn
    pub same : start.db ≡ c.db
    pub finish : Conn
    pub run : body start ≡ (ok a, finish)
    pub left : finish.db ≡ db

  -- Why the transaction failed: a statement of its own, or its body.
  pub data Failed (c : Conn) (x : Failure) : Type 0 where
    own_statement : x ≡ database → Failed c x
    in_body : (start : Conn) → start.db ≡ c.db → (body start).0 ≡ err x → Failed c x

  abbrev pub Transacted : Conn → Result A × Conn → Type 0
  Transacted c (ok a, c') = Ran c a c'.db
  Transacted c (err x, c') = SameTables c.db c'.db × Failed c x

  rolled_back-SameTables : (old : Db) (c : Conn) → SameTables old (rolled_back old c).db
  rolled_back-SameTables old c = record {
    users = refl;
    tokens = refl;
    tunnels = refl;
    events = refl;
    snapshots = refl;
    now = refl;
  }

  commit-Transacted :
      (c start : Conn) (r : Result A × Conn)
      → start.db ≡ c.db
      → body start ≡ r
      → Transacted c (commit_or_roll_back c.db r)
  commit-Transacted c start (err x, c') same run =
      (rolled_back-SameTables c.db c', in_body start same (ap (λ (r : Result A × Conn). r.0) run))
  commit-Transacted c start (ok a, c') same run = elim (statement-cases (λ db. (ok tt, db)) c') [
    | inl (rest, done) ↦
        rw done (record { start = start; same = same; finish = c'; run = run; left = refl })
    | inr (rest, broken) ↦
        rw broken (rolled_back-SameTables c.db (record c' { faults = rest }), own_statement refl)
  ]

  -- A transaction that returns has done what its body did from the same tables; one that fails has
  -- left every table as it was, and failed by a statement of its own or by its body.
  pub transaction-Transacted : (c : Conn) → Transacted c (transaction body c)
  unfolding transaction
  transaction-Transacted c = elim (statement-cases (λ db. (ok tt, db)) c) [
    | inl (rest, done) ↦ rw done (
        commit-Transacted c (record c { faults = rest }) (body (record c { faults = rest })) refl
          refl)
    | inr (rest, broken) ↦ rw broken (SameTables-refl c.db, own_statement refl)
  ]

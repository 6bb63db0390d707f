-- ===== src/Store.antt =====
-- internal/store: the Postgres tables as lists of rows, and a statement of SQL as a step on them.
pub mod Tests
pub mod Json
pub mod Hoare
pub mod Keeping
pub mod Atomic
pub mod Events
pub mod Snapshots
pub mod Users
pub mod Tunnels
pub mod Presence
pub mod Migrations
use liveurl.Prelude.{Bool, List, Option, Text, [], false, true, ℕ, ◌∷◌}
use liveurl.Http.{Header}

pub data EventState : Type 0 where
  queued replaying delivered dead : EventState

-- A row of webhook_events.
pub record WebhookEvent : Type 0 where
  pub id : ℕ
  pub tunnel_id : ℕ
  pub method : Text
  pub path : Text
  pub query : Text
  pub headers : Header
  pub body : Text
  pub received_at : ℕ
  pub state : EventState
  pub attempts : ℕ
  pub last_status : ℕ
  pub delivered_at : Option ℕ

-- A row of snapshots.
pub record SnapshotRow : Type 0 where
  pub tunnel_id : ℕ
  pub path : Text
  pub query_hash : Text
  pub content_type : Text
  pub headers : List (Text × Text)
  pub body : Text
  pub captured_at : ℕ

-- A row of tunnels.
pub record Tunnel : Type 0 where
  pub id : ℕ
  pub user_id : ℕ
  pub subdomain : Text
  pub buffer_rules : List Text

-- A row of users; a seeded account has no password.
pub record UserRow : Type 0 where
  pub id : ℕ
  pub email : Text
  pub password_hash : Option Text

-- A row of auth_tokens.
pub record TokenRow : Type 0 where
  pub token_hash : Text
  pub user_id : ℕ

-- The tables, the three sequences of BIGSERIAL keys, and the time that `now()` returns.
pub record Db : Type 0 where
  pub users : List UserRow
  pub tokens : List TokenRow
  pub tunnels : List Tunnel
  pub events : List WebhookEvent
  pub snapshots : List SnapshotRow
  pub next_user : ℕ
  pub next_tunnel : ℕ
  pub next_event : ℕ
  pub now : ℕ

-- A connection: the database, and for each statement to come whether it fails, without an effect. An
-- error that is reported after a statement took effect is not modelled. Where the list has ended,
-- statements are carried out.
pub record Conn : Type 0 where
  pub db : Db
  pub faults : List Bool

-- The errors of the package. `no_rows` is pgx.ErrNoRows; `database` is any failure of a statement.
-- `out_of_fuel` belongs to the model only.
pub data Failure : Type 0 where
  no_rows not_found email_taken subdomain_taken invalid_credentials : Failure
  hashing randomness database : Failure
  out_of_fuel : Failure

pub data Result (A : Type 0) : Type 0 where
  ok : A → Result A
  err : Failure → Result A

-- What a call returns that has only an error to report.
abbrev pub Done : Type 0
Done = Unit

abbrev pub Exec : Type 0 → Type 0
Exec A = Conn → Result A × Conn

module _ {A : Type 0} where
  abbrev pub pure : A → Exec A
  pure a c = (ok a, c)

  abbrev pub raise : Failure → Exec A
  raise e c = (err e, c)

  -- A statement that fails has no effect.
  abbrev pub attempt : (Db → Result A × Db) → Db → List Bool → Result A × Conn
  attempt f db [] = let (r, db') = f db in (r, record { db = db'; faults = [] })
  attempt f db (true ∷ rest) = (err database, record { db = db; faults = rest })
  attempt f db (false ∷ rest) = let (r, db') = f db in (r, record { db = db'; faults = rest })

  unfoldable pub statement : (Db → Result A × Db) → Exec A
  statement f c = attempt f c.db c.faults

module _ {A B : Type 0} where
  abbrev pub resume : Result A → (A → Exec B) → Exec B
  resume (ok a) f c = f a c
  resume (err e) f c = (err e, c)

  infixl 5 ◌>>=◌ ◌>>◌
  unfoldable pub ◌>>=◌ : Exec A → (A → Exec B) → Exec B
  ◌>>=◌ m f c = let (r, c') = m c in resume r f c'

  abbrev pub ◌>>◌ : Exec A → Exec B → Exec B
  m >> n = m >>= λ _. n

-- What is left of a transaction that is rolled back: the tables as they were, and the sequences,
-- which do not go back.
abbrev pub rolled_back : Db → Conn → Conn
rolled_back old c = record c {
  db = record old {
    next_user = c.db.next_user;
    next_tunnel = c.db.next_tunnel;
    next_event = c.db.next_event;
  };
}

abbrev pub empty_statement : Exec Done
empty_statement = statement λ db. (ok tt, db)

module _ {A : Type 0} where
  abbrev pub commit_or_roll_back : Db → Result A × Conn → Result A × Conn
  commit_or_roll_back old (err e, c) = (err e, rolled_back old c)
  commit_or_roll_back old (ok a, c) = committed (empty_statement c)
    where
      committed : Result Done × Conn → Result A × Conn
      committed (ok _, c') = (ok a, c')
      committed (err e, c') = (err e, rolled_back old c')

  abbrev pub begun : Db → Exec A → Result Done × Conn → Result A × Conn
  begun old body (err e, c) = (err e, c)
  begun old body (ok _, c) = commit_or_roll_back old (body c)

  -- pool.Begin, the body, Commit; any error on the way rolls back.
  unfoldable pub transaction : Exec A → Exec A
  unfolding statement
  transaction body c = begun c.db body (empty_statement c)

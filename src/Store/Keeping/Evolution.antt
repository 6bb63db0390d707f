-- ===== src/Store/Keeping/Evolution.antt =====
-- What every call of internal/store keeps: a valid table of events, and the owner and the tunnel of each
-- subdomain.
use liveurl.Prelude.{
  All-weaken, Bool, List, Option, Text, any, arith, choose, false, none, not, refl, some, true, ℕ,
  ◌<◌, ◌||◌, ◌≡◌, ◌≤◌,
}
use liveurl.Store.{
  Conn, Db, Done, Exec, Result, SnapshotRow, hashing, randomness, rolled_back, statement, ◌>>=◌,
}
use liveurl.Store.Events.Retries.{IsValid}
use liveurl.Store.Tunnels.Owner.{owner, tunnel_of}
use liveurl.Store.Users.{
  Crypto, has_email, has_token_hash, has_user_id, insert_token, insert_user, lift_result, new_token,
  or_failure, sign_up, sign_up_in_transaction, token_of,
}
use liveurl.Store.Snapshots.{evicted, put_snapshot, remove_oldest, upserted}
use liveurl.Store.Keeping.Cache.{Keeps-put_snapshot}
use liveurl.Store.Keeping.{Keeps, Keeps-bind, Keeps-reads, Keeps-statement, Keeps-transaction}
use liveurl.Store.Tunnels.{has_tunnel}

pub record Evolves (a b : Db) : Type 0 where
  pub valid : IsValid a → IsValid b
  pub owners : (j : Text) (w : ℕ) → owner j a.tunnels ≡ some w → owner j b.tunnels ≡ some w
  pub numbers : (j : Text) (w : ℕ) → tunnel_of j a.tunnels ≡ some w → tunnel_of j b.tunnels ≡ some w
  pub sequence : a.next_event ≤ b.next_event

pub Evolves-refl : (a : Db) → Evolves a a
Evolves-refl a = record {
  valid = λ v. v;
  owners = λ j w o. o;
  numbers = λ j w o. o;
  sequence = omega arith;
}

pub Evolves-trans : (a b c : Db) → Evolves a b → Evolves b c → Evolves a c
Evolves-trans a b c p q = record {
  valid = λ v. q.valid (p.valid v);
  owners = λ j w o. q.owners j w (p.owners j w o);
  numbers = λ j w o. q.numbers j w (p.numbers j w o);
  sequence = omega (arith, p.sequence, q.sequence);
}

-- The tables of events and of tunnels, the clock and the sequence of the events are the same.
pub record IsAside (a b : Db) : Type 0 where
  pub events : b.events ≡ a.events
  pub tunnels : b.tunnels ≡ a.tunnels
  pub now : b.now ≡ a.now
  pub next_event : b.next_event ≡ a.next_event

pub IsAside-Evolves : (a b : Db) → IsAside a b → Evolves a b
IsAside-Evolves a b s = record {
  valid = λ v. record {
    keyed = rw s.events v.keyed;
    below = rw (s.events, s.next_event) v.below;
    past = rw (s.events, s.now) v.past;
    retryable = rw s.events v.retryable;
  };
  owners = λ j w o. rw s.tunnels o;
  numbers = λ j w o. rw s.tunnels o;
  sequence = omega (arith, s.next_event);
}

aside :
    (a b : Db)
    → b.events ≡ a.events
    → b.tunnels ≡ a.tunnels
    → b.now ≡ a.now
    → b.next_event ≡ a.next_event
    → Evolves a b
aside a b e t n x =
    IsAside-Evolves a b (record { events = e; tunnels = t; now = n; next_event = x })

rolled_back-Evolves :
    (a b : Db) → Evolves a b → (c : Conn) → c.db ≡ b → Evolves a (rolled_back a c).db
rolled_back-Evolves a b p c e = record {
  valid = λ v. record {
    keyed = v.keyed;
    below =
        All-weaken (λ r. r.id < a.next_event) (λ r. r.id < c.db.next_event) a.events
          (λ r h.
            let further : a.next_event ≤ c.db.next_event = rw e p.sequence in
            omega (arith, h, further))
          v.below;
    past = v.past;
    retryable = v.retryable;
  };
  owners = λ j w o. o;
  numbers = λ j w o. o;
  sequence = rw e p.sequence;
}

-- Every way through the action leaves the table of events valid and each subdomain with its owner.
abbrev pub DbKeeps : {A : Type 0} → Exec A → Type 0
DbKeeps m = Keeps Evolves Evolves-refl m

abbrev pub then_keeps :
    {A B : Type 0} (m : Exec A) (k : A → Exec B)
    → DbKeeps m
    → ((v : A) → DbKeeps (k v))
    → DbKeeps (m >>= k)
then_keeps m k h g = Keeps-bind Evolves Evolves-refl Evolves-trans m k h g

pub reads-Evolves : {A : Type 0} (f : Db → Result A) → DbKeeps (statement (λ db. (f db, db)))
reads-Evolves f = Keeps-reads Evolves Evolves-refl f

aside-Keeps :
    {A : Type 0} (f : Db → Result A × Db)
    → ((db : Db) → Evolves db (f db).1)
    → DbKeeps (statement f)
aside-Keeps f h = Keeps-statement Evolves Evolves-refl f h

lifted-Keeps : {A : Type 0} (r : Result A) → DbKeeps (lift_result r)
lifted-Keeps r c = Evolves-refl c.db

insert_token-Keeps : (h : Text) (i : ℕ) → DbKeeps (statement (insert_token h i))
insert_token-Keeps h i = aside-Keeps (insert_token h i) (λ db.
    choose (λ (x : Result Done × Db). Evolves db x.1)
      (any (has_token_hash h) db.tokens || not (any (has_user_id i) db.users)) _ _ (Evolves-refl db)
      (aside db _ refl refl refl refl))

insert_user-Keeps :
    (email h : Text)
    → DbKeeps (statement (λ db. insert_user email h (any (has_email email) db.users) db))
insert_user-Keeps email h = aside-Keeps _ (λ db. inserted db (any (has_email email) db.users))
  where
    inserted : (db : Db) (b : Bool) → Evolves db (insert_user email h b db).1
    inserted db true = aside db _ refl refl refl refl
    inserted db false = aside db _ refl refl refl refl

module _ (crypto : Crypto) (random : Option Text) where
  open crypto use {generate, compare_hash, sha256_hex}

  pub new_token-Keeps : (i : ℕ) → DbKeeps (new_token crypto random i)
  unfolding new_token
  new_token-Keeps i =
      then_keeps (lift_result (or_failure randomness random)) _
        (lifted-Keeps (or_failure randomness random))
        (λ raw.
          then_keeps (statement (insert_token (sha256_hex (token_of raw)) i)) _
            (insert_token-Keeps _ i) (λ _ c. Evolves-refl c.db))

  sign_up_in_transaction-Keeps :
      (email h : Text) → DbKeeps (sign_up_in_transaction crypto random email h)
  unfolding sign_up_in_transaction
  sign_up_in_transaction-Keeps email h = then_keeps _ _ (insert_user-Keeps email h) (λ u.
      then_keeps (lift_result (or_failure randomness random)) _
        (lifted-Keeps (or_failure randomness random))
        (λ raw.
          then_keeps (statement (insert_token (sha256_hex (token_of raw)) u.id)) _
            (insert_token-Keeps _ u.id) (λ _ c. Evolves-refl c.db)))

  pub sign_up-Keeps : (email password : Text) → DbKeeps (sign_up crypto random email password)
  unfolding sign_up
  sign_up-Keeps email password =
      then_keeps (lift_result (or_failure hashing (generate password))) _
        (lifted-Keeps (or_failure hashing (generate password)))
        (λ h.
          Keeps-transaction Evolves Evolves-refl Evolves-trans rolled_back-Evolves _
            (sign_up_in_transaction-Keeps email h))

evicted-Evolves :
    (db : Db) (o : Option (SnapshotRow × List SnapshotRow)) → Evolves db (evicted o db).1
evicted-Evolves db none = Evolves-refl db
evicted-Evolves db (some (d, rest)) = aside db _ refl refl refl refl

pub put_snapshot-Keeps :
    (t : ℕ) (path query content_type : Text) (headers : List (Text × Text)) (body : Option Text)
    → DbKeeps (put_snapshot t path query content_type headers body)
put_snapshot-Keeps t path query content_type headers body =
    Keeps-put_snapshot Evolves Evolves-refl Evolves-trans rolled_back-Evolves t
      (λ db. evicted-Evolves db (remove_oldest t db.snapshots)) path query content_type headers body
      (λ db. upserted-Evolves db body (has_tunnel t db))
  where
    upserted-Evolves :
        (db : Db) (o : Option Text) (known : Bool)
        → Evolves db (upserted t path query content_type headers o known db).1
    upserted-Evolves db none known = Evolves-refl db
    upserted-Evolves db (some b) false = Evolves-refl db
    upserted-Evolves db (some b) true = aside db _ refl refl refl refl

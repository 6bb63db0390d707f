-- ===== src/Store/Users/Accounts.antt =====
-- What signing up, logging in and recovering an account promise (internal/store/users.go).
use liveurl.Prelude.{
  Bool-cases, Option, Text, [], any, any-append, arith, false, find_where, find_where-append,
  find_where-update_where, found_passes, if◌then◌else◌, inl, inr, none, refl, some, text_eq_refl,
  true, ◌≡◌,
}
use liveurl.Store.{
  Conn, Db, Exec, Result, TokenRow, UserRow, email_taken, err, hashing, invalid_credentials, ok,
  transaction, ◌>>=◌,
}
use liveurl.Store.Users.{
  Crypto, User, has_email, has_token_hash, has_user_id, lift_result, or_failure, reset_password,
  set_password, sign_up, sign_up_in_transaction, token_of, user_by_token, user_of, verify_password,
}
use liveurl.Store.Atomic.{SameTables, SameTables-refl, Transacted, transaction-Transacted}

module _ (crypto : Crypto) where
  open crypto use {generate, compare_hash, sha256_hex}

  -- Signing up with a new email and a password that has a hash which accepts it (bcrypt has none for
  -- more than 72 bytes), where no account has the next number and no token the new token's hash, on a
  -- database that does not fail: the account is created, its token resolves to it, and its password
  -- verifies.
  pub sign_up_lem :
      (raw email password h : Text) (c : Conn)
      → c.faults ≡ []
      → generate password ≡ some h
      → compare_hash h password ≡ true
      → any (has_email email) c.db.users ≡ false
      → any (has_user_id c.db.next_user) c.db.users ≡ false
      → any (has_token_hash (sha256_hex (token_of raw))) c.db.tokens ≡ false
      → let (r, c') = sign_up crypto (some raw) email password c in
        let u : User = record { id = c.db.next_user; email = email } in
        (r ≡ ok (u, token_of raw))
        × ((user_by_token crypto (token_of raw) c').0 ≡ ok u)
        × ((verify_password crypto email password c').0 ≡ ok u)
  unfolding sign_up user_by_token verify_password
  sign_up_lem raw email password h c quiet hashed good new_email new_id new_token_hash =
      let row : UserRow = record { id = c.db.next_user; email = email; password_hash = some h } in
      let token : TokenRow = record {
        token_hash = sha256_hex (token_of raw);
        user_id = c.db.next_user;
      } in
      ground (
        arith,
        any-append (has_user_id c.db.next_user) c.db.users row,
        find_where-append (has_email email) c.db.users row new_email,
        find_where-append (has_user_id c.db.next_user) c.db.users row new_id,
        find_where-append (has_token_hash (sha256_hex (token_of raw))) c.db.tokens token
            new_token_hash,
        text_eq_refl email,
        text_eq_refl (sha256_hex (token_of raw)),
      )

  -- An email that has an account, with a password or without, cannot be signed up for: on a database
  -- that does not fail the answer is ErrEmailTaken, and no table changes.
  sign_up-taken :
      (random : Option Text) (email password h : Text) (c : Conn)
      → c.faults ≡ []
      → generate password ≡ some h
      → any (has_email email) c.db.users ≡ true
      → let (r, c') = sign_up crypto random email password c in
        (r ≡ err email_taken) × SameTables c.db c'.db
  unfolding sign_up
  sign_up-taken random email password h c quiet hashed taken = ground (arith, SameTables-refl c.db)

  abbrev pub Unchanged : {A : Type 0} → Db → Result A × Conn → Type 0
  Unchanged db (ok _, c') = Unit
  Unchanged db (err _, c') = SameTables db c'.db

  Transacted-Unchanged :
      {A : Type 0} (body : Exec A) (c : Conn) (r : Result A × Conn)
      → Transacted body c r
      → Unchanged c.db r
  Transacted-Unchanged body c (ok _, c') h = tt
  Transacted-Unchanged body c (err _, c') h = h.0

  hashed-Unchanged :
      (random : Option Text) (email : Text) (c : Conn) (o : Option Text)
      → Unchanged c.db (
          (lift_result (or_failure hashing o) >>= λ h.
          transaction (sign_up_in_transaction crypto random email h))
            c)
  unfolding ◌>>=◌
  hashed-Unchanged random email c none = SameTables-refl c.db
  hashed-Unchanged random email c (some h) =
      Transacted-Unchanged _ c _
        (transaction-Transacted (sign_up_in_transaction crypto random email h) c)

  -- Whatever fails, a sign-up that does not succeed leaves no account and no token behind.
  pub sign_up-atomic :
      (random : Option Text) (email password : Text) (c : Conn)
      → Unchanged c.db (sign_up crypto random email password c)
  unfolding sign_up
  sign_up-atomic random email password c = hashed-Unchanged random email c (generate password)

  -- Refused, where the account of the email has no hash that the password matches; or that account,
  -- where it has one.
  pub data Verdict (email password : Text) (db : Db) (r : Result User) : Type 0 where
    refused :
        ((u : UserRow) (h : Text)
          → find_where (has_email email) db.users ≡ some u
          → u.password_hash ≡ some h
          → compare_hash h password ≡ false)
        → r ≡ err invalid_credentials
        → Verdict email password db r
    accepted :
        (u : UserRow) (h : Text)
        → find_where (has_email email) db.users ≡ some u
        → u.password_hash ≡ some h
        → compare_hash h password ≡ true
        → r ≡ ok (user_of u)
        → Verdict email password db r

  -- A login is refused with one and the same error whether the account is missing, has no password
  -- or has another one, and succeeds only for the account of the email, with its password.
  pub verify_password_lem :
      (email password : Text) (c : Conn)
      → c.faults ≡ []
      → let (r, c') = verify_password crypto email password c in
        (c' ≡ c) × Verdict email password c.db r
  unfolding verify_password
  verify_password_lem email password c quiet =
      (ground arith, verdict (find_where (has_email email) c.db.users) refl)
    where
      with_hash :
          (u : UserRow) (o : Option Text)
          → u.password_hash ≡ o
          → find_where (has_email email) c.db.users ≡ some u
          → Verdict email password c.db (verify_password crypto email password c).0
      with_hash u none e f = refused (λ v h g k. cc) (ground arith)
      with_hash u (some h) e f = elim (Bool-cases (compare_hash h password)) [
        | inl good ↦ accepted u h f e good (ground arith)
        | inr bad ↦ refused (λ v k g l. ground arith) (ground arith)
      ]

      verdict :
          (o : Option UserRow)
          → find_where (has_email email) c.db.users ≡ o
          → Verdict email password c.db (verify_password crypto email password c).0
      verdict none f = refused (λ v h g k. cc) (ground arith)
      verdict (some u) f = with_hash u u.password_hash refl f

  -- After a reset, the account of the email accepts exactly the passwords that its new hash accepts,
  -- whatever it had before; on a database that does not fail.
  reset_password_lem :
      (email new_password other h : Text) (u : UserRow) (c : Conn)
      → c.faults ≡ []
      → generate new_password ≡ some h
      → find_where (has_email email) c.db.users ≡ some u
      → let (r, c') = reset_password crypto email new_password c in
        (r ≡ ok (user_of u))
        × ((verify_password crypto email other c').0
            ≡ (if compare_hash h other then ok (user_of u) else err invalid_credentials))
  unfolding reset_password verify_password
  reset_password_lem email new_password other h u c quiet hashed found = ground (
    arith,
    find_where-update_where (has_email email) (has_email email) (set_password h) c.db.users
        (λ x. refl),
    found_passes (has_email email) c.db.users u found,
  )

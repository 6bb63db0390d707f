-- ===== src/Store/Users.antt =====
-- internal/store/users.go: accounts, passwords and auth tokens. bcrypt and SHA-256 are parameters, as
-- are the random bytes that a call reads (`none` where the read fails).
pub mod Accounts
use liveurl.Prelude.{
  Bool, Option, Text, [], any, codes, false, find_where, if◌then◌else◌, ltb, none, not, some,
  text_eq, true, update_where, ℕ, ◌%◌, ◌++◌, ◌+◌, ◌/◌, ◌==◌, ◌||◌, ◌∷◌,
}
use liveurl.Store.{
  Db, Done, Exec, Failure, Result, TokenRow, UserRow, database, email_taken, err, hashing,
  invalid_credentials, not_found, ok, pure, randomness, statement, transaction, ◌>>=◌, ◌>>◌,
}

pub record User : Type 0 where
  pub id : ℕ
  pub email : Text

-- golang.org/x/crypto/bcrypt: a hash of the password (there is none for one of over 72 bytes), the
-- comparison, and the hex digits of a text's SHA-256.
pub record Crypto : Type 0 where
  pub generate : Text → Option Text
  pub compare_hash : Text → Text → Bool
  pub sha256_hex : Text → Text

abbrev pub has_email : Text → UserRow → Bool
has_email email u = text_eq u.email email

abbrev pub has_user_id : ℕ → UserRow → Bool
has_user_id i u = u.id == i

abbrev pub has_token_hash : Text → TokenRow → Bool
has_token_hash h t = text_eq t.token_hash h

abbrev pub user_of : UserRow → User
user_of u = record { id = u.id; email = u.email }

abbrev hex_digit : ℕ → ℕ
hex_digit n = if ltb n 10 then 48 + n else 87 + n

-- `hex.EncodeToString`
unfoldable pub hex : Text → Text
hex [] = []
hex (b ∷ s) = hex_digit (b / 16) ∷ hex_digit (b % 16) ∷ hex s

abbrev pub token_of : Text → Text
token_of raw = codes "lu_" ++ hex raw

-- INSERT … ON CONFLICT(email) DO UPDATE … RETURNING: the row of the email, added if there is none.
-- The sequence moves on in either case.
abbrev pub insert_or_same : Text → Option UserRow → Db → Result User × Db
insert_or_same email none db = (
  ok (record { id = db.next_user; email = email }),
  record db {
    users = db.users ++ record { id = db.next_user; email = email; password_hash = none } ∷ [];
    next_user = db.next_user + 1;
  },
)
insert_or_same email (some u) db = (ok (user_of u), record db { next_user = db.next_user + 1 })

unfoldable pub create_user : Text → Exec User
unfolding statement
create_user email = statement λ db. insert_or_same email (find_where (has_email email) db.users) db

-- INSERT INTO users: the email is unique.
abbrev pub insert_user : Text → Text → Bool → Db → Result User × Db
insert_user email password_hash true db =
    (err email_taken, record db { next_user = db.next_user + 1 })
insert_user email password_hash false db = (
  ok (record { id = db.next_user; email = email }),
  record db {
    users =
        db.users
        ++ record { id = db.next_user; email = email; password_hash = some password_hash } ∷ [];
    next_user = db.next_user + 1;
  },
)

-- INSERT INTO auth_tokens: the hash is the primary key, and the user must exist.
abbrev pub insert_token : Text → ℕ → Db → Result Done × Db
insert_token h user_id db =
    if any (has_token_hash h) db.tokens || not (any (has_user_id user_id) db.users)
    then (err database, db)
    else (
      ok tt,
      record db { tokens = db.tokens ++ record { token_hash = h; user_id = user_id } ∷ [] },
    )

abbrev pub or_failure : {A : Type 0} → Failure → Option A → Result A
or_failure x none = err x
or_failure x (some a) = ok a

abbrev pub lift_result : {A : Type 0} → Result A → Exec A
lift_result r c = (r, c)

abbrev pub set_password : Text → UserRow → UserRow
set_password h u = record u { password_hash = some h }

abbrev pub updated_user : Option UserRow → Result User
updated_user none = err not_found
updated_user (some u) = ok (user_of u)

module _ (crypto : Crypto) where
  open crypto use {generate, compare_hash, sha256_hex}

  unfoldable pub new_token : Option Text → ℕ → Exec Text
  unfolding statement ◌>>=◌
  new_token random user_id = do
    raw ← lift_result (or_failure randomness random)
    statement (insert_token (sha256_hex (token_of raw)) user_id)
    pure (token_of raw)

  abbrev pub joined : Option TokenRow → Db → Result User
  joined none db = err not_found
  joined (some t) db = elim (find_where (has_user_id t.user_id) db.users) [
    | none ↦ err not_found
    | some u ↦ ok (user_of u)
  ]

  -- SELECT … JOIN auth_tokens … WHERE t.token_hash = $1
  unfoldable pub user_by_token : Text → Exec User
  unfolding statement
  user_by_token token =
      statement λ db. (joined (find_where (has_token_hash (sha256_hex token)) db.tokens) db, db)

  -- The statements between Begin and Commit of SignUp.
  unfoldable pub sign_up_in_transaction : Option Text → Text → Text → Exec (User × Text)
  unfolding statement ◌>>=◌
  sign_up_in_transaction random email password_hash = do
    u ← statement (λ db. insert_user email password_hash (any (has_email email) db.users) db)
    raw ← lift_result (or_failure randomness random)
    statement (insert_token (sha256_hex (token_of raw)) u.id)
    pure (u, token_of raw)

  unfoldable pub sign_up : Option Text → Text → Text → Exec (User × Text)
  unfolding sign_up_in_transaction ◌>>=◌ transaction
  sign_up random email password = do
    hash ← lift_result (or_failure hashing (generate password))
    transaction (sign_up_in_transaction random email hash)

  abbrev pub checked : Text → Option UserRow → Result User
  checked password none = err invalid_credentials
  checked password (some u) = elim u.password_hash [
    | none ↦ err invalid_credentials
    | some h ↦ if compare_hash h password then ok (user_of u) else err invalid_credentials
  ]

  unfoldable pub verify_password : Text → Text → Exec User
  unfolding statement
  verify_password email password =
      statement λ db. (checked password (find_where (has_email email) db.users), db)

  -- UPDATE users SET password_hash … WHERE email … RETURNING
  unfoldable pub reset_password : Text → Text → Exec User
  unfolding statement ◌>>=◌
  reset_password email new_password = do
    hash ← lift_result (or_failure hashing (generate new_password))
    statement λ db. (
      updated_user (find_where (has_email email) db.users),
      record db { users = update_where (has_email email) (set_password hash) db.users },
    )

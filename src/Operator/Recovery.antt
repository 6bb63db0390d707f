-- ===== src/Operator/Recovery.antt =====
-- What `liveurld reset-password` prints is good for (cmd/liveurld/main.go with internal/store/users.go,
-- internal/control/server.go and cmd/liveurl/api.go).
use liveurl.Prelude.{
  Bool, List, Text, [], any, ap, arith, codes, false, find_where, find_where-append,
  find_where-update_where, found_passes, refl, some, text_eq, text_eq_refl, true, update_where,
  ◌++◌, ◌∙◌, ◌∷◌, ◌≡◌,
}
use liveurl.Store.{Conn, Db, Result, TokenRow, UserRow, ok, statement, ◌>>=◌}
use liveurl.Store.Users.{
  Crypto, User, has_email, has_token_hash, has_user_id, hex, joined, new_token, reset_password,
  set_password, token_of, user_by_token, user_of, verify_password,
}
use liveurl.Control.{ApiRequest, Handler, trim_prefix, with_auth}
use liveurl.Control.Tokens.{token_in}
use liveurl.Cli.{Network, call_of}
use liveurl.Operator.{reset_account}
use liveurl.Cli.Login.{call_of-token}

-- A token whose account is found, on a database that does not fail.
with_auth-known :
    (crypto : Crypto) (next : Handler) (r : ApiRequest) (user : User) (token : Text) (c : Conn)
    → token_in r ≡ token
    → text_eq token [] ≡ false
    → user_by_token crypto token c ≡ (ok user, c)
    → with_auth crypto next r c ≡ next r user c
unfolding with_auth
with_auth-known crypto next r user token c sent present known = rw (sent, present, known) refl

found-any :
    {A : Type 0} (p : A → Bool) (xs : List A) (x : A) → find_where p xs ≡ some x → any p xs ≡ true
found-any p [] x h = cc
found-any p (y ∷ ys) x h = ground (arith, found-any p ys x)

joined-known :
    (crypto : Crypto) (t : TokenRow) (u : UserRow) (db : Db)
    → find_where (has_user_id t.user_id) db.users ≡ some u
    → joined crypto (some t) db ≡ ok (user_of u)
joined-known crypto t u db found = rw (found, joined) refl

module _ (crypto : Crypto) (raw_password raw_token email h : Text) (u : UserRow) (db : Db) where
  open crypto use {generate, compare_hash, sha256_hex}

  -- The rows of the accounts, and the database, once the account is recovered.
  abbrev users_after : List UserRow
  users_after = update_where (has_email email) (set_password h) db.users

  abbrev new_row : TokenRow
  new_row = record { token_hash = sha256_hex (token_of raw_token); user_id = u.id }

  abbrev conn_after : Conn
  conn_after = record {
    db = record db { users = users_after; tokens = db.tokens ++ new_row ∷ [] };
    faults = [];
  }

  module _ (found : find_where (has_email email) db.users ≡ some u) where
    by_email : find_where (has_email email) users_after ≡ some (set_password h u)
    by_email = ground (
      arith,
      found,
      find_where-update_where (has_email email) (has_email email) (set_password h) db.users
          (λ x. refl),
      found_passes (has_email email) db.users u found,
    )

    by_id :
        find_where (has_user_id u.id) db.users ≡ some u
        → find_where (has_user_id u.id) users_after ≡ some (set_password h u)
    by_id unique = ground (
      arith,
      unique,
      find_where-update_where (has_user_id u.id) (has_email email) (set_password h) db.users
          (λ x. refl),
      found_passes (has_email email) db.users u found,
    )

    reset_account-runs :
        generate (hex raw_password) ≡ some h
        → find_where (has_user_id u.id) db.users ≡ some u
        → any (has_token_hash (sha256_hex (token_of raw_token))) db.tokens ≡ false
        → reset_account crypto true
            (some raw_password)
            (some raw_token)
            email
            (record { db = db; faults = [] })
          ≡ (
            ok (record {
              email = u.email;
              password = some (hex raw_password);
              token = token_of raw_token;
            }),
            conn_after,
          )
    unfolding reset_account reset_password new_token statement ◌>>=◌
    reset_account-runs hashed unique fresh =
        let known : any (has_user_id u.id) users_after ≡ true =
          found-any (has_user_id u.id) users_after (set_password h u) (by_id unique) in
        rw (hashed, found, fresh, known) refl

    new_token-resolves :
        find_where (has_user_id u.id) db.users ≡ some u
        → any (has_token_hash (sha256_hex (token_of raw_token))) db.tokens ≡ false
        → user_by_token crypto (token_of raw_token) conn_after ≡ (ok (user_of u), conn_after)
    unfolding user_by_token statement
    new_token-resolves unique fresh =
        rw
          (find_where-append (has_token_hash (sha256_hex (token_of raw_token))) db.tokens new_row
            fresh (text_eq_refl (sha256_hex (token_of raw_token))))
          (ap (λ (r : Result User). (r, conn_after))
            (joined-known crypto new_row (set_password h u) conn_after.db (by_id unique)))

    new_password-verifies :
        compare_hash h (hex raw_password) ≡ true
        → (verify_password crypto email (hex raw_password) conn_after).0 ≡ ok (user_of u)
    unfolding verify_password statement
    new_password-verifies good = rw (by_email, good) refl

module _ (crypto : Crypto) (net : Network) where
  open crypto use {generate, compare_hash, sha256_hex}

  -- On a database that does not fail and in which the e-mail and the number of an account find that
  -- account, no token has the new one's hash, and the new password has a hash that accepts it: the
  -- command prints the account's e-mail, a password that VerifyPassword accepts for the e-mail as it was
  -- given to the command, and a token for which the control API runs its handlers for that account, with
  -- the header that the CLI sends for it.
  pub reset_account_lem :
      (raw_password raw_token email h : Text) (u : UserRow) (db : Db)
      → generate (hex raw_password) ≡ some h
      → compare_hash h (hex raw_password) ≡ true
      → find_where (has_email email) db.users ≡ some u
      → find_where (has_user_id u.id) db.users ≡ some u
      → any (has_token_hash (sha256_hex (token_of raw_token))) db.tokens ≡ false
      → let (printed, c') =
          reset_account crypto true
            (some raw_password)
            (some raw_token)
            email
            (record { db = db; faults = [] }) in
        (printed
          ≡ ok (record {
            email = u.email;
            password = some (hex raw_password);
            token = token_of raw_token;
          }))
        × ((verify_password crypto email (hex raw_password) c').0 ≡ ok (user_of u))
        × ((next : Handler) (r : ApiRequest) (url method path : Text) (query : List (Text × Text))
            → r.authorization
              ≡ (call_of net
                  (record { base_url = url; token = token_of raw_token })
                  method
                  path
                  query).authorization
            → with_auth crypto next r c' ≡ next r (user_of u) c')
  unfolding text_eq
  reset_account_lem raw_password raw_token email h u db hashed good found unique fresh =
      rw (reset_account-runs crypto raw_password raw_token email h u db found hashed unique fresh) (
        refl,
        new_password-verifies crypto raw_password raw_token email h u db found good,
        λ next r url method path query sent.
            with_auth-known crypto next r (user_of u) (token_of raw_token) _
              (ap (trim_prefix (codes "Bearer ")) sent
                ∙ call_of-token net (record { base_url = url; token = token_of raw_token }) method
                    path query)
              refl
              (new_token-resolves crypto raw_password raw_token email h u db found unique fresh),
      )

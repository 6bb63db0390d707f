-- ===== src/Operator.antt =====
-- cmd/liveurld/main.go: the commands seed and reset-password, and what serve checks before it starts.
-- The migrations run on the same database; `migrated` says whether Open and Migrate succeed.
pub mod Recovery
use liveurl.Prelude.{Bool, Option, Text, if◌then◌else◌, none, some}
use liveurl.Store.{Exec, Result, database, err, ok, pure, randomness, ◌>>=◌, ◌>>◌}
use liveurl.Store.Users.{Crypto, create_user, hex, lift_result, new_token, reset_password}

-- What a command prints of an account: the email, the password where it sets one, and the token.
pub record Printed : Type 0 where
  pub email : Text
  pub password : Option Text
  pub token : Text

-- `randomPassword`, on the 16 bytes that were read.
abbrev pub random_password : Option Text → Result Text
unfolding hex
random_password none = err randomness
random_password (some raw) = ok (hex raw)

module _ (crypto : Crypto) where
  -- `seed`, with the bytes that NewToken reads.
  unfoldable pub seed : Bool → Option Text → Text → Exec Printed
  unfolding create_user new_token ◌>>=◌
  seed migrated token_bytes email = do
    lift_result (if migrated then ok tt else err database)
    user ← create_user email
    token ← new_token crypto token_bytes user.id
    pure (record { email = user.email; password = none; token = token })

  unfoldable pub reset_account : Bool → Option Text → Option Text → Text → Exec Printed
  unfolding reset_password new_token random_password ◌>>=◌
  reset_account migrated password_bytes token_bytes email = do
    lift_result (if migrated then ok tt else err database)
    password ← lift_result (random_password password_bytes)
    user ← reset_password crypto email password
    token ← new_token crypto token_bytes user.id
    pure (record { email = user.email; password = some password; token = token })

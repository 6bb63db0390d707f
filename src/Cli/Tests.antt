-- ===== src/Cli/Tests.antt =====
-- Tests of the command line (cmd/liveurl and cmd/liveurld).
use liveurl.Prelude.{
  List, Text, [], codes, false, inr, none, refl, some, text_eq, true, ◌++◌, ◌∷◌, ◌≡◌,
}
use liveurl.Fixtures.{alice, alice_user, plain_crypto, quiet_conn, two_events}
use liveurl.Store.{ok}
use liveurl.Store.Users.{hex, verify_password}
use liveurl.Control.{ApiRequest, Handler, with_auth}
use liveurl.Config.{AgentDefaults}
use liveurl.Cli.{CliLibrary, Network, call_of, missing, new_api_client, no_response}
use liveurl.Cli.Commands.{http, login}
use liveurl.Cli.Login.{login-roundtrip}
use liveurl.Operator.{reset_account}
use liveurl.Operator.Recovery.{reset_account_lem}

-- A file holds the token alone; the servers are those of the test.
abbrev token_file : CliLibrary
token_file = record {
  home = some (codes "home");
  join = λ a b. a ++ (codes "/" ++ b);
  marshal = λ c. some c.token;
  unmarshal = λ t.
      some
        (record { server_addr = codes "s:1"; control_url = codes "u:2"; token = t; tls = false });
}

abbrev local_defaults : AgentDefaults
local_defaults = record { server_addr = codes "s:1"; control_url = codes "u:2" }

login-roundtrip_example :
    let (r, files) =
      login token_file local_defaults [] [] false (codes "lu_1") true none (λ p. missing) in
    (r ≡ inr tt)
    × (new_api_client token_file files
        ≡ inr (record { base_url = codes "u:2"; token = codes "lu_1" }))
    × (http token_file some (λ s. s) (codes "3000") (codes "shop") [] files
        ≡ inr (record {
          server_addr = codes "s:1";
          use_tls = false;
          token = codes "lu_1";
          subdomain = codes "shop";
          buffer_rules = [];
          local_addr = codes "127.0.0.1:3000";
        }))
unfolding text_eq
login-roundtrip_example =
    login-roundtrip token_file local_defaults [] [] false (codes "lu_1") some (λ s. s)
      (codes "home") (codes "lu_1") (λ p. missing) (codes "3000") (codes "3000") (codes "shop") []
      refl refl refl refl refl

abbrev silent : Network
silent = record {
  accepts = λ method url. true;
  send = λ c. no_response;
  error_in = λ body. [];
  encode = λ query. [];
}

reset_account_lem_example :
    let (printed, c') =
      reset_account plain_crypto true (some (1 ∷ [])) (some (2 ∷ [])) (codes "a@b.c") quiet_conn in
    (printed
      ≡ ok (record { email = codes "a@b.c"; password = some (codes "01"); token = codes "lu_02" }))
    × ((verify_password plain_crypto (codes "a@b.c") (codes "01") c').0 ≡ ok alice_user)
    × ((next : Handler) (r : ApiRequest) (url method path : Text) (query : List (Text × Text))
        → r.authorization
          ≡ (call_of silent
              (record { base_url = url; token = codes "lu_02" })
              method
              path
              query).authorization
        → with_auth plain_crypto next r c' ≡ next r alice_user c')
unfolding text_eq hex
reset_account_lem_example =
    reset_account_lem plain_crypto silent (1 ∷ []) (2 ∷ []) (codes "a@b.c") (codes "h01") alice
      two_events refl refl refl refl refl

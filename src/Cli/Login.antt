-- ===== src/Cli/Login.antt =====
-- What a saved login is good for (cmd/liveurl and internal/cliconfig/cliconfig.go with the control API).
use liveurl.Prelude.{
  Bool, List, Option, Text, [], arith, codes, drop, false, has_prefix, inr, length, none, refl,
  some, text_eq, text_eq_refl, true, ◌++◌, ◌∷◌, ◌≡◌,
}
use liveurl.Config.{AgentDefaults}
use liveurl.Control.{trim_prefix}
use liveurl.Cli.{ApiClient, CliLibrary, File, Network, call_of, load, new_api_client, save}
use liveurl.Cli.Commands.{http, login, login_settings, or_default_text}

drop-append : (p s : Text) → drop (length p) (p ++ s) ≡ s
drop-append [] s = refl
drop-append (c ∷ p) s = drop-append p s

has_prefix-append : (p s : Text) → has_prefix p (p ++ s) ≡ true
unfolding has_prefix
has_prefix-append [] s = refl
has_prefix-append (c ∷ p) s = ground (arith, has_prefix-append p s)

trim_prefix-append : (p s : Text) → trim_prefix p (p ++ s) ≡ s
unfolding trim_prefix
trim_prefix-append p s = rw (has_prefix-append p s) (drop-append p s)

-- What withAuth takes from the header of a call is the client's token.
pub call_of-token :
    (net : Network) (client : ApiClient) (method path : Text) (query : List (Text × Text))
    → trim_prefix (codes "Bearer ") (call_of net client method path query).authorization
      ≡ client.token
call_of-token net client method path query = trim_prefix-append (codes "Bearer ") client.token

module _ (lib : CliLibrary) (defaults : AgentDefaults) (server control : Text) (use_tls : Bool)
    (token : Text) where
  open lib use {home, marshal, unmarshal}

  -- Once `login` has saved its settings in a file that reads back as they are, a call of the API is made
  -- for the token at the URL given, or the default one, and `http` starts the agent with the token, at the
  -- server given, or the default one. The home directory is found, the token is not empty and the port is
  -- a number.
  pub login-roundtrip :
      {Number : Type 0} (atoi : Text → Option Number) (itoa : Number → Text) (h t : Text)
      (files : Text → File) (port : Text) (n : Number) (subdomain : Text) (rules : List Text)
      → home ≡ some h
      → marshal (login_settings defaults server control use_tls token) ≡ some t
      → unmarshal t ≡ some (login_settings defaults server control use_tls token)
      → text_eq token [] ≡ false
      → atoi port ≡ some n
      → let (r, files') = login lib defaults server control use_tls token true none files in
        (r ≡ inr tt)
        × (new_api_client lib files'
            ≡ inr
                (record { base_url = or_default_text control defaults.control_url; token = token }))
        × (http lib atoi itoa port subdomain rules files'
            ≡ inr (record {
              server_addr = or_default_text server defaults.server_addr;
              use_tls = use_tls;
              token = token;
              subdomain = subdomain;
              buffer_rules = rules;
              local_addr = codes "127.0.0.1:" ++ itoa n;
            }))
  unfolding login save new_api_client load http
  login-roundtrip atoi itoa h t files port n subdomain rules at_home encoded parsed present number =
      rw
        (
          at_home,
          encoded,
          number,
          text_eq_refl (lib.join (lib.join h (codes ".liveurl")) (codes "config.json")),
          parsed,
          present,
        )
        (refl, refl, refl)

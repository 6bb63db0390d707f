-- ===== src/Cli.antt =====
-- internal/cliconfig/cliconfig.go and cmd/liveurl: the settings that `login` saves, the client of the
-- control API, and the commands, each up to what it prints or starts. The file system, encoding/json and
-- net/http are parameters.
pub mod Commands
pub mod Login
pub mod Tests
use liveurl.Prelude.{
  Bool, List, Option, Text, [], codes, false, if◌then◌else◌, inl, inr, leb, none, not, some,
  text_eq, ℕ, ◌++◌, ◌∷◌, ◌⊎◌,
}

-- `cliconfig.Config`
pub record CliConfig : Type 0 where
  pub server_addr : Text
  pub control_url : Text
  pub token : Text
  pub tls : Bool

pub data CliError : Type 0 where
  no_home mkdir_failed encode_failed write_failed unreadable undecodable not_logged_in : CliError
  bad_request unreachable body_cut : CliError
  api_error : Text → ℕ → CliError
  status_error : ℕ → Text → CliError
  bad_port : Text → CliError

abbrev pub Outcome : Type 0 → Type 0
Outcome A = CliError ⊎ A

abbrev pub then_try : {A B : Type 0} → Outcome A → (A → Outcome B) → Outcome B
then_try (inl x) next = inl x
then_try (inr a) next = next a

-- What reading a file gives.
pub data File : Type 0 where
  missing no_access : File
  holds : Text → File

-- os.UserHomeDir (`none` where it fails), filepath.Join, and encoding/json on the settings.
pub record CliLibrary : Type 0 where
  pub home : Option Text
  pub join : Text → Text → Text
  pub marshal : CliConfig → Option Text
  pub unmarshal : Text → Option CliConfig

abbrev pub or_error : {A : Type 0} → CliError → Option A → Outcome A
or_error x none = inl x
or_error x (some a) = inr a

abbrev pub no_settings : CliConfig
no_settings = record { server_addr = []; control_url = []; token = []; tls = false }

module _ (lib : CliLibrary) where
  open lib use {home, join, marshal, unmarshal}

  abbrev pub config_dir : Outcome Text
  config_dir = then_try (or_error no_home home) λ h. inr (join h (codes ".liveurl"))

  abbrev pub config_path : Outcome Text
  config_path = then_try config_dir λ d. inr (join d (codes "config.json"))

  abbrev pub settings_in : File → Outcome CliConfig
  settings_in missing = inr no_settings
  settings_in no_access = inl unreadable
  settings_in (holds text) = or_error undecodable (unmarshal text)

  -- `Load`
  unfoldable pub load : (Text → File) → Outcome CliConfig
  load files = then_try config_path λ p. settings_in (files p)

  abbrev pub write_file : Text → Text → Option File → (Text → File) → Outcome Unit × (Text → File)
  write_file p text none files = (inr tt, λ q. if text_eq p q then holds text else files q)
  write_file p text (some torn) files =
      (inl write_failed, λ q. if text_eq p q then torn else files q)

  abbrev pub save_at :
      Bool → Option File → CliConfig → (Text → File) → Outcome Text → Outcome Unit × (Text → File)
  save_at mkdir_ok torn c files (inl x) = (inl x, files)
  save_at mkdir_ok torn c files (inr p) =
      if not mkdir_ok then (inl mkdir_failed, files) else elim (marshal c) [
        | none ↦ (inl encode_failed, files)
        | some text ↦ write_file p text torn files
      ]

  -- `Save`: whether the directory can be made, and what a write that fails leaves of the file.
  unfoldable pub save :
      Bool → Option File → CliConfig → (Text → File) → Outcome Unit × (Text → File)
  unfolding text_eq
  save mkdir_ok torn c files = save_at mkdir_ok torn c files config_path

pub record ApiClient : Type 0 where
  pub base_url : Text
  pub token : Text

abbrev pub client_of : CliConfig → Outcome ApiClient
client_of creds =
    if text_eq creds.token []
    then inl not_logged_in
    else inr (record { base_url = creds.control_url; token = creds.token })

-- `newAPIClient`
unfoldable pub new_api_client : CliLibrary → (Text → File) → Outcome ApiClient
unfolding load text_eq
new_api_client lib files = then_try (load lib files) client_of

-- A request that the client sends, and what comes of it.
pub record ApiCall : Type 0 where
  pub method : Text
  pub url : Text
  pub authorization : Text

pub data ApiResult : Type 0 where
  no_response : ApiResult
  cut_off : ApiResult
  responds : ℕ → Text → ApiResult

-- net/http and encoding/json: whether NewRequest accepts a method and a URL, what the server answers, the
-- text of "error" in a body (the empty text where there is none), and `url.Values.Encode`.
pub record Network : Type 0 where
  pub accepts : Text → Text → Bool
  pub send : ApiCall → ApiResult
  pub error_in : Text → Text
  pub encode : List (Text × Text) → Text

-- The body is decoded where the caller wants a value and there is a body.
abbrev pub decoded : {A : Type 0} → Option (Text → Option A) → Text → Outcome (Option A)
decoded none body = inr none
decoded (some parse) [] = inr none
decoded (some parse) (b ∷ body) = elim (parse (b ∷ body)) [
  | none ↦ inl undecodable
  | some a ↦ inr (some a)
]

module _ (net : Network) where
  open net use {accepts, send, error_in, encode}

  abbrev pub call_url : ApiClient → Text → List (Text × Text) → Text
  call_url client path [] = client.base_url ++ path
  call_url client path (p ∷ query) = (client.base_url ++ path) ++ (codes "?" ++ encode (p ∷ query))

  abbrev pub call_of : ApiClient → Text → Text → List (Text × Text) → ApiCall
  call_of client method path query = record {
    method = method;
    url = call_url client path query;
    authorization = codes "Bearer " ++ client.token;
  }

  abbrev pub result_of : {A : Type 0} → Option (Text → Option A) → ApiResult → Outcome (Option A)
  result_of out no_response = inl unreachable
  result_of out cut_off = inl body_cut
  result_of out (responds status body) =
      if leb 400 status
      then (if text_eq (error_in body) []
          then inl (status_error status body)
          else inl (api_error (error_in body) status))
      else decoded out body

  -- `do`
  unfoldable pub call :
      {A : Type 0}
      → ApiClient
      → Text
      → Text
      → List (Text × Text)
      → Option (Text → Option A)
      → Outcome (Option A)
  unfolding text_eq
  call client method path query out =
      let c = call_of client method path query in
      if not (accepts method c.url) then inl bad_request else result_of out (send c)

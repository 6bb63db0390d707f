-- ===== src/Cli/Commands.antt =====
-- cmd/liveurl: the commands. Each gives an error or the lines that it prints; `login` writes the settings
-- and `http` gives the configuration that the agent runs with.
use liveurl.Prelude.{
  Bool, List, Option, Text, [], codes, false, if◌then◌else◌, inl, inr, map, none, some, text_eq,
  ◌++◌, ◌∷◌,
}
use liveurl.Config.{AgentDefaults, or_default}
use liveurl.Cli.{
  CliConfig, CliLibrary, File, Network, Outcome, bad_port, call, load, new_api_client,
  not_logged_in, or_error, save, then_try,
}

abbrev pub or_default_text : Text → Text → Text
or_default_text [] def = def
or_default_text (c ∷ s) def = c ∷ s

-- What `login` saves: its flags, or the defaults where a flag is empty.
abbrev pub login_settings : AgentDefaults → Text → Text → Bool → Text → CliConfig
login_settings defaults server control use_tls token = record {
  server_addr = or_default_text server defaults.server_addr;
  control_url = or_default_text control defaults.control_url;
  token = token;
  tls = use_tls;
}

module _ (lib : CliLibrary) where
  unfoldable pub login :
      AgentDefaults
      → Text
      → Text
      → Bool
      → Text
      → Bool
      → Option File
      → (Text → File)
      → Outcome Unit × (Text → File)
  unfolding save
  login defaults server control use_tls token mkdir_ok torn files =
      save lib mkdir_ok torn (login_settings defaults server control use_tls token) files

-- `agent.Config`
pub record AgentConfig : Type 0 where
  pub server_addr : Text
  pub use_tls : Bool
  pub token : Text
  pub subdomain : Text
  pub buffer_rules : List Text
  pub local_addr : Text

abbrev pub agent_config : Text → Text → List Text → CliConfig → Outcome AgentConfig
agent_config port subdomain rules creds =
    if text_eq creds.token []
    then inl not_logged_in
    else inr (record {
      server_addr = creds.server_addr;
      use_tls = creds.tls;
      token = creds.token;
      subdomain = subdomain;
      buffer_rules = rules;
      local_addr = codes "127.0.0.1:" ++ port;
    })

module _ (lib : CliLibrary) {Number : Type 0} (atoi : Text → Option Number)
    (itoa : Number → Text) where
  -- The command http, up to `agent.Run`.
  unfoldable pub http : Text → Text → List Text → (Text → File) → Outcome AgentConfig
  unfolding load text_eq
  http port subdomain rules files =
      then_try (or_error (bad_port port) (atoi port))
        λ n. then_try (load lib files) (agent_config (itoa n) subdomain rules)

-- The replies of the control API as the commands decode them, their numbers as they are printed.
pub record StatusResult : Type 0 where
  pub subdomain : Text
  pub online : Bool
  pub queued_events : Text
  pub snapshot_pages : Text
  pub snapshot_bytes : Text

pub record EventItem : Type 0 where
  pub id : Text
  pub method : Text
  pub path : Text
  pub query : Text
  pub received_at : Text
  pub state : Text
  pub attempts : Text

abbrev pub status_lines : StatusResult → List Text
status_lines r =
    (codes "tunnel:          " ++ r.subdomain)
    ∷ (codes "state:           " ++ (if r.online then codes "ONLINE" else codes "OFFLINE"))
    ∷ (codes "queued events:   " ++ r.queued_events)
    ∷ (codes "snapshot pages:  " ++ r.snapshot_pages)
    ∷ (codes "snapshot bytes:  " ++ r.snapshot_bytes)
    ∷ []

-- The zero value of the result, where the reply has no body.
abbrev pub no_status : StatusResult
no_status = record {
  subdomain = [];
  online = false;
  queued_events = codes "0";
  snapshot_pages = codes "0";
  snapshot_bytes = codes "0";
}

abbrev pub event_path : EventItem → Text
event_path e = if text_eq e.query [] then e.path else e.path ++ (codes "?" ++ e.query)

-- The columns of an event's line, before they are padded.
abbrev pub event_columns : EventItem → List Text
event_columns e = e.id ∷ e.method ∷ event_path e ∷ e.state ∷ e.attempts ∷ e.received_at ∷ []

abbrev pub event_lines : List EventItem → List (List Text)
event_lines [] = (codes "no events" ∷ []) ∷ []
event_lines (e ∷ events) =
    (codes "ID"
      ∷ codes "METHOD"
      ∷ codes "PATH"
      ∷ codes "STATE"
      ∷ codes "ATTEMPTS"
      ∷ codes "RECEIVED"
      ∷ [])
    ∷ map event_columns (e ∷ events)

abbrev pub tunnel_query : Text → List (Text × Text)
tunnel_query tunnel = (codes "tunnel", tunnel) ∷ []

abbrev pub events_query : Text → Text → List (Text × Text)
events_query tunnel [] = tunnel_query tunnel
events_query tunnel (c ∷ state) = tunnel_query tunnel ++ (codes "state", c ∷ state) ∷ []

module _ (lib : CliLibrary) (net : Network) where
  -- A call of the API with the saved credentials.
  abbrev with_client :
      {A : Type 0}
      → Text
      → Text
      → List (Text × Text)
      → Option (Text → Option A)
      → (Text → File)
      → Outcome (Option A)
  unfolding new_api_client call
  with_client method path query out files =
      then_try (new_api_client lib files) λ client. call net client method path query out

  unfoldable pub status : (Text → Option StatusResult) → Text → (Text → File) → Outcome (List Text)
  unfolding with_client
  status parse tunnel files =
      then_try
        (with_client (codes "GET") (codes "/api/status") (tunnel_query tunnel) (some parse) files)
        λ r. inr (status_lines (or_default no_status r))

  unfoldable pub events_list :
      (Text → Option (List EventItem)) → Text → Text → (Text → File) → Outcome (List (List Text))
  unfolding with_client
  events_list parse tunnel state files =
      then_try
        (with_client (codes "GET") (codes "/api/events") (events_query tunnel state) (some parse)
          files)
        λ r. inr (event_lines (or_default [] r))

  -- The "status" of the reply and its "detail" with the spaces around it trimmed.
  unfoldable pub events_replay :
      (Text → Text) → (Text → Option (Text → Text)) → Text → (Text → File) → Outcome (List Text)
  unfolding with_client
  events_replay trim_space parse event_id files =
      then_try
        (with_client (codes "POST") (codes "/api/events/" ++ (event_id ++ codes "/replay")) []
          (some parse) files)
        λ r.
          let field = or_default (λ key. []) r in
          inr (field (codes "status") ∷ trim_space (field (codes "detail")) ∷ [])

  unfoldable pub events_clear : Text → (Text → File) → Outcome (List Text)
  unfolding with_client
  events_clear tunnel files =
      then_try
        (with_client {A = Unit} (codes "DELETE") (codes "/api/events") (tunnel_query tunnel) none
          files)
        λ r. inr (codes "cleared" ∷ [])

-- ===== src/Fixtures.antt =====
-- The data of the tests: a small database, and concrete functions for the parameters of the models.
use liveurl.Prelude.{Bool, List, Text, [], arith, codes, none, refl, some, text_eq, ℕ, ◌∷◌}
use liveurl.Http.{Request}
use liveurl.Store.{Conn, Db, TokenRow, Tunnel, UserRow, WebhookEvent, queued}
use liveurl.Store.Users.{Crypto, User}
use liveurl.Store.Events.Retries.{IsValid}
use liveurl.Offline.{GoLibrary}

-- A hash that keeps the password behind a mark, and a sum that is the text itself.
abbrev pub plain_crypto : Crypto
plain_crypto = record {
  generate = λ p. some (b'h' ∷ p);
  compare_hash = λ h p. text_eq h (b'h' ∷ p);
  sha256_hex = λ s. s;
}

abbrev pub no_time : ℕ → Text
no_time t = []

abbrev pub plain_go : GoLibrary
plain_go = record {
  lower_unicode = λ s. s;
  trim_space = λ s. s;
  format_time = no_time;
  format_int = λ n. n ∷ [];
  crypto = plain_crypto;
}

abbrev pub alice : UserRow
alice = record { id = 1; email = codes "a@b.c"; password_hash = some (codes "hold password") }

abbrev pub alice_user : User
alice_user = record { id = 1; email = codes "a@b.c" }

abbrev pub alice_token : TokenRow
alice_token = record { token_hash = codes "t"; user_id = 1 }

abbrev pub shop : Tunnel
shop = record {
  id = 7;
  user_id = 1;
  subdomain = codes "shop";
  buffer_rules = codes "/hooks/*" ∷ [];
}

abbrev pub event_of : ℕ → ℕ → WebhookEvent
event_of i t = record {
  id = i;
  tunnel_id = 7;
  method = codes "POST";
  path = codes "/hooks/a";
  query = [];
  headers = [];
  body = i ∷ [];
  received_at = t;
  state = queued;
  attempts = 0;
  last_status = 0;
  delivered_at = none;
}

-- Two events wait, the one with the smaller number behind the other one.
abbrev pub two_events : Db
two_events = record {
  users = alice ∷ [];
  tokens = alice_token ∷ [];
  tunnels = shop ∷ [];
  events = event_of 1 20 ∷ event_of 2 10 ∷ [];
  snapshots = [];
  next_user = 2;
  next_tunnel = 8;
  next_event = 3;
  now = 30;
}

abbrev pub with_faults : List Bool → Conn
with_faults faults = record { db = two_events; faults = faults }

abbrev pub quiet_conn : Conn
quiet_conn = with_faults []

abbrev pub webhook : Request
webhook = record {
  method = codes "POST";
  path = codes "/hooks/b";
  raw_query = [];
  host = codes "Shop.lvh.me";
  header = [];
  body = codes "x";
}

abbrev pub page_request : Request
page_request = record {
  method = codes "GET";
  path = codes "/";
  raw_query = [];
  host = codes "shop.lvh.me";
  header = [];
  body = [];
}

-- The database is well formed.
pub two_events-IsValid : IsValid two_events
two_events-IsValid = record {
  keyed = ((refl, tt), (tt, tt));
  below = (omega arith, (omega arith, tt));
  past = (omega arith, (omega arith, tt));
  retryable = (
    record { unspent = λ e. omega arith; spent = λ e. cc },
    (record { unspent = λ e. omega arith; spent = λ e. cc }, tt),
  );
}

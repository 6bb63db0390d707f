-- ===== src/Registry.antt =====
-- internal/edge/session.go: the one active agent session of each subdomain. A session is known by the
-- number of its connection, which stands for the pointer; its yamux connection is open or closed.
use liveurl.Prelude.{Bool, Option, Text, false, if◌then◌else◌, none, some, text_eq, true, ℕ, ◌==◌}

pub record AgentSession : Type 0 where
  pub number : ℕ
  pub subdomain : Text
  pub tunnel_id : ℕ

-- Which session a subdomain has, and which connections are closed.
pub record Registry : Type 0 where
  pub sessions : Text → Option AgentSession
  pub closed : ℕ → Bool

abbrev pub new_registry : Registry
new_registry = record { sessions = λ s. none; closed = λ n. false }

abbrev pub close_number : ℕ → (ℕ → Bool) → ℕ → Bool
close_number n closed m = if n == m then true else closed m

-- `old.ymux.Close()`, if another session is there
abbrev pub close_old : Option AgentSession → AgentSession → (ℕ → Bool) → ℕ → Bool
close_old none sess closed = closed
close_old (some old) sess closed =
    if old.number == sess.number then closed else close_number old.number closed

abbrev pub set_session :
    Text → Option AgentSession → (Text → Option AgentSession) → Text → Option AgentSession
set_session s o sessions j = if text_eq s j then o else sessions j

unfoldable pub put : AgentSession → Registry → Registry
put sess r = record {
  sessions = set_session sess.subdomain (some sess) r.sessions;
  closed = close_old (r.sessions sess.subdomain) sess r.closed;
}

unfoldable pub get : Text → Registry → Option AgentSession
get s r = r.sessions s

abbrev pub is_current : Option AgentSession → AgentSession → Bool
is_current none sess = false
is_current (some cur) sess = cur.number == sess.number

unfoldable pub remove : AgentSession → Registry → Registry
remove sess r =
    if is_current (r.sessions sess.subdomain) sess
    then record r { sessions = set_session sess.subdomain none r.sessions }
    else r

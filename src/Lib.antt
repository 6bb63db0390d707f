-- ===== src/Lib.antt =====
-- liveurl: public URLs for a local web app. An agent keeps a connection to the server; requests for
-- its subdomain are forwarded to it, and while it is away webhooks are queued for an ordered replay
-- and pages are served from a cache. The server's own logic (internal/) is modelled; the files are
--
--   * Store and its children: internal/store. Postgres tables are lists of rows in a record Db, and
--     a statement of SQL is a step on it (`statement`). A connection carries a list of faults, one
--     for each statement to come: a statement that fails has no effect. So a theorem without a premise
--     on it covers every statement that is not carried out, also one that Postgres refuses for a reason
--     that is not modelled (a text that is not UTF-8 or has a zero byte, say); an error that is reported
--     after a statement or a commit took effect is not covered. `transaction` rolls back the tables
--     and not the sequences. Store/Events is events.go, Store/Snapshots snapshots.go, Store/Users
--     users.go, Store/Tunnels tunnels.go and Store/Presence presence.go (the Redis keys with their
--     expiry, in milliseconds). Store/Json is what a header column gives back of what was written.
--   * Replay: internal/edge/replay/replay.go, on the store's queue and an agent session whose
--     exchanges end as a list of outcomes says. The session records the requests that were written.
--   * Classify and Glob: internal/edge/classify/classify.go and the path.Match that it calls.
--   * PageCache: internal/edge/snapshot/snapshot.go. Where Go panics the model has `none`.
--   * RateLimit: internal/edge/ratelimit.go, over a token bucket given by two functions.
--   * Registry and TunnelServer: internal/edge/session.go and tunnelserver.go: the handshake, and
--     the session of a subdomain through connects, heartbeats and closes.
--   * Offline, Proxy, Router and Pages: internal/edge/offline.go, proxy.go and router.go. ServeHTTP
--     is serve_http; it calls forward_live for a connected agent, and serve_offline otherwise.
--   * Control: internal/control/server.go. The handlers are post_sign_up, post_log_in, get_tunnels,
--     get_events, delete_events, get_status and post_replay; a reply holds the value that is encoded.
--     serve_api has them on their routes.
--   * Agent: internal/agent/agent.go, the reconnect loop as the list of its waits, and Agent/Connect,
--     connectAndServe. Agent/Stream is handleStream of stream.go; Agent/Local puts it together with
--     the proxy and the replay.
--   * Store/Migrations: Migrate of internal/store/store.go; a script is known by its name and text, and
--     Store/Migrations/Names has the order of the names.
--   * TunnelServer/Listener: a connection from Accept to the registered session (tunnelserver.go).
--   * Config: internal/config/config.go, and the limiters that NewRouter and NewTunnelServer make.
--   * Cli: internal/cliconfig/cliconfig.go and the commands of cmd/liveurl (Cli/Commands), up to the
--     lines that they print. Operator: the commands seed and reset-password of cmd/liveurld/main.go.
--   * Server: the parts as the command serve joins them. A state holds the database, the registry, the
--     presence keys and the limiters; `step` is one call of a handler with the statements that fail in
--     it, and Reachable are the states of any sequence of such calls. A call is one step: what two
--     calls at the same time do between each other's statements is not modelled.
--   * Replay/Settled: what becomes of one event of a drain. Proxy/Public: which responses are
--     stored, as a description apart from the code. Replay/Backlog: the queue as a list of ids
--     with their failed attempts, which Replay/Refinement compares a drain with. Store/Keeping
--     and Router/Writes: lemmas on what a call of the store or a public request leaves as it is.
--   * Http: header maps, requests and responses of net/http. Prelude: what all of them share.
--     Fixtures and the modules called Tests: data, and each theorem at a concrete input.
--
-- Text is a list of bytes, and numbers are natural numbers: ids, counts and sizes here stay far below
-- 2^63. The loop of PutSnapshot runs on fuel, one round more than the tunnel's table has rows; the
-- error out_of_fuel, which only the model has, stands for fuel that is not enough: each round takes
-- one row away. The other loops follow the structure of a list.
--
-- Arguments stand for code outside the repository: the bucket of golang.org/x/time/rate (with the
-- hypothesis, where it is needed, that a used bucket which is idle for long enough answers as a
-- new one), bcrypt, SHA-256, random bytes, the format of a time, the lower-case mapping beyond
-- ASCII, the jitter's draws, the exchanges on a yamux stream, floating-point numbers, Atoi and
-- ParseFloat, the environment, the files, and the JSON of the settings. A JSON column of headers
-- is its decoded value, with U+FFFD for bytes that are not UTF-8; the buffer rules are as they
-- were given. Locks make each method of a shared map one step.
--
-- Not modelled: sockets, TLS and yamux, the relay of an upgraded connection (passthroughUpgrade), the
-- pool and the advisory lock of the database, what the migrations' SQL does, the flags and the tree of
-- the commands, the padding of printed columns, and the dashboard's files (internal/dashboard).
pub mod Prelude
pub mod Http
pub mod Glob
pub mod Classify
pub mod PageCache
pub mod RateLimit
pub mod Registry
pub mod TunnelServer
pub mod Pages
pub mod Offline
pub mod Proxy
pub mod Router
pub mod Control
pub mod Fixtures
pub mod Tests
pub mod Agent
pub mod Config
pub mod Cli
pub mod Operator
pub mod Server
pub mod Store
pub mod Replay

-- ===== src/Store/Presence.antt =====
-- internal/store/presence.go: the Redis keys that say which subdomain is online. A key lives until its
-- expiry; the clock is in milliseconds.
use liveurl.Prelude.{Bool, Option, Text, false, if◌then◌else◌, ltb, none, some, text_eq, ℕ, ◌+◌}

-- PresenceTTL
abbrev pub presence_ttl : ℕ
presence_ttl = 15000

-- When the key of a subdomain expires, if it was set and not deleted.
abbrev pub Presence : Type 0
Presence = Text → Option ℕ

unfoldable pub heartbeat : ℕ → Text → Presence → Presence
heartbeat now subdomain p s = if text_eq subdomain s then some (now + presence_ttl) else p s

abbrev pub unexpired : ℕ → Option ℕ → Bool
unexpired now none = false
unexpired now (some expiry) = ltb now expiry

unfoldable pub is_online : ℕ → Text → Presence → Bool
is_online now subdomain p = unexpired now (p subdomain)

unfoldable pub clear : Text → Presence → Presence
clear subdomain p s = if text_eq subdomain s then none else p s

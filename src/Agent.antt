-- ===== src/Agent.antt =====
-- internal/agent/agent.go: the reconnect loop of the agent. Durations are in nanoseconds. An attempt
-- is what connectAndServe comes back with, true where a handshake succeeded; `int63n i n` is the i-th
-- draw of rand.Int63n(n).
pub mod Backoff
pub mod Stream
pub mod Local
pub mod Connect
pub mod Handshake
pub mod Tests
use liveurl.Prelude.{Bool, List, [], if◌then◌else◌, ltb, ℕ, ◌*◌, ◌+◌, ◌/◌, ◌∷◌}

abbrev pub min_backoff : ℕ
min_backoff = 500000000

abbrev pub max_backoff : ℕ
max_backoff = 30000000000

-- The backoff that the wait after an attempt is drawn from.
abbrev pub reset_backoff : Bool → ℕ → ℕ
reset_backoff connected backoff = if connected then min_backoff else backoff

-- `backoff *= 2`, and the cap
unfoldable pub double_backoff : ℕ → ℕ
double_backoff backoff = if ltb max_backoff (backoff * 2) then max_backoff else backoff * 2

-- The loop's backoff after these attempts.
unfoldable pub backoff_after : List Bool → ℕ → ℕ
unfolding double_backoff
backoff_after [] backoff = backoff
backoff_after (connected ∷ rest) backoff =
    backoff_after rest (double_backoff (reset_backoff connected backoff))

module _ (int63n : ℕ → ℕ → ℕ) where
  unfoldable pub jitter : ℕ → ℕ → ℕ
  jitter i d = d / 2 + int63n i (d / 2 + 1)

  -- `Run`: the waits between the attempts.
  unfoldable pub run : List Bool → ℕ → ℕ → List ℕ
  unfolding jitter double_backoff
  run [] i backoff = []
  run (connected ∷ rest) i backoff =
      let b = reset_backoff connected backoff in jitter i b ∷ run rest (i + 1) (double_backoff b)

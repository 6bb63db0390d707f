-- ===== src/RateLimit.antt =====
-- internal/edge/ratelimit.go: one token bucket for each key. The bucket is golang.org/x/time/rate,
-- a parameter: `new_limiter` is rate.NewLimiter and `allow` is Limiter.Allow at a time. Times are
-- nanoseconds since Go's zero time.
pub mod Idle
pub mod Isolation
use liveurl.Prelude.{
  Bool, List, Option, Text, [], if◌then◌else◌, ltb, none, some, text_eq, true, ℕ, ◌-◌, ◌∷◌,
}

-- The two readings of the clock in a call of Allow: its own, and that of Limiter.Allow.
pub record Readings : Type 0 where
  pub at_start : ℕ
  pub at_bucket : ℕ

pub record LimiterEntry (Bucket : Type 0) : Type 0 where
  pub limiter : Bucket
  pub last_seen : ℕ

-- Go's map is a function.
pub record IpLimiter (Rate Bucket : Type 0) : Type 0 where
  pub rps : Rate
  pub burst : ℕ
  pub idle_ttl : ℕ
  pub entries : Text → Option (LimiterEntry Bucket)
  pub last_sweep : ℕ

abbrev pub put_entry :
    {Bucket : Type 0}
    → Text
    → LimiterEntry Bucket
    → (Text → Option (LimiterEntry Bucket))
    → Text
    → Option (LimiterEntry Bucket)
put_entry k e entries j = if text_eq k j then some e else entries j

abbrev pub unless_idle :
    {Bucket : Type 0} → ℕ → ℕ → Option (LimiterEntry Bucket) → Option (LimiterEntry Bucket)
unless_idle ttl now none = none
unless_idle ttl now (some e) = if ltb ttl (now - e.last_seen) then none else some e

module _ {Rate Bucket : Type 0} where
  -- `NewIPLimiter`
  unfoldable pub new_ip_limiter : Rate → ℕ → ℕ → IpLimiter Rate Bucket
  new_ip_limiter rps burst idle_ttl = record {
    rps = rps;
    burst = burst;
    idle_ttl = idle_ttl;
    entries = λ k. none;
    last_sweep = 0;
  }

  -- `sweepLocked`
  unfoldable pub sweep_locked : ℕ → IpLimiter Rate Bucket → IpLimiter Rate Bucket
  sweep_locked now l =
      if ltb (now - l.last_sweep) l.idle_ttl
      then l
      else record l { last_sweep = now; entries = λ k. unless_idle l.idle_ttl now (l.entries k) }

module _ {Rate Bucket : Type 0} (new_limiter : Rate → ℕ → Bucket)
    (allow : ℕ → Bucket → Bool × Bucket) where
  abbrev pub bucket_of : IpLimiter Rate Bucket → Option (LimiterEntry Bucket) → Bucket
  bucket_of l none = new_limiter l.rps l.burst
  bucket_of l (some e) = e.limiter

  -- `Allow`, on a limiter that is not nil: the verdict and the limiter after it.
  unfoldable pub allow_key : Readings → Text → IpLimiter Rate Bucket → Bool × IpLimiter Rate Bucket
  unfolding sweep_locked
  allow_key now key limiter =
      let l = sweep_locked now.at_start limiter in
      let (ok, bucket) = allow now.at_bucket (bucket_of l (l.entries key)) in
      (
        ok,
        record l {
          entries = put_entry key (record { limiter = bucket; last_seen = now.at_start }) l.entries;
        },
      )

  -- `Allow` on a pointer: nil allows everything.
  unfoldable pub allow_ptr :
      Readings → Text → Option (IpLimiter Rate Bucket) → Bool × Option (IpLimiter Rate Bucket)
  unfolding allow_key
  allow_ptr now key none = (true, none)
  allow_ptr now key (some l) = let (ok, l') = allow_key now key l in (ok, some l')

  -- The verdicts on a sequence of requests, each with its time and key.
  unfoldable pub verdicts : List (Readings × Text) → IpLimiter Rate Bucket → List Bool
  verdicts [] l = []
  verdicts ((now, key) ∷ rest) l = let (ok, l') = allow_key now key l in ok ∷ verdicts rest l'

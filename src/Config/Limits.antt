-- ===== src/Config/Limits.antt =====
-- The limits that a server starts with (internal/config/config.go, internal/edge).
use liveurl.Prelude.{Bool-cases, arith, false, inl, inr, refl, suc, zero, ℕ, ◌<◌, ◌≡◌}
use liveurl.RateLimit.{IpLimiter, new_ip_limiter}
use liveurl.Config.{
  Environment, Floats, Limiters, load_server, negsuc, new_dashboard_limiter, new_handshake_limiter,
  new_tunnel_limiter, pos, positive_or, rate_or, start_limiters, ℤ,
}

-- A limiter that lets a request of a new key pass, and keeps its keys for a while.
pub record IsUsable {Float Bucket : Type 0} (fl : Floats Float) (l : IpLimiter Float Bucket)
    : Type 0 where
  pub rate : fl.is_nonpositive l.rps ≡ false
  pub burst : 0 < l.burst
  pub lasting : 0 < l.idle_ttl

-- The same of a limiter whose rate is given for each minute.
pub record IsPaced {Float Bucket : Type 0} (fl : Floats Float) (l : IpLimiter Float Bucket)
    : Type 0 where
  pub per_minute : Float
  pub rate : l.rps ≡ fl.per_second per_minute
  pub positive : fl.is_nonpositive per_minute ≡ false
  pub burst : 0 < l.burst
  pub lasting : 0 < l.idle_ttl

positive_or-pos : (def : ℕ) (n : ℤ) → 0 < def → 0 < positive_or def n
positive_or-pos def (pos zero) h = h
positive_or-pos def (pos (suc n)) h = omega arith
positive_or-pos def (negsuc n) h = h

module _ {Float : Type 0} (fl : Floats Float) (env : Environment Float)
    (literals : (n : ℕ) → 0 < n → fl.is_nonpositive (fl.literal n) ≡ false) where
  rate_or-positive : (def : ℕ) (x : Float) → 0 < def → fl.is_nonpositive (rate_or fl def x) ≡ false
  rate_or-positive def x h = elim (Bool-cases (fl.is_nonpositive x)) [
    | inl bad ↦ rw bad (literals def h)
    | inr good ↦ rw good good
  ]

  -- Whatever the environment holds, numbers that do not parse, zero or negative ones included, each limiter
  -- of the server has a burst and an idle time above zero; the rates of the tunnels' and the dashboard's
  -- limiter are not zero or less, and the rate of the handshakes' is for each second what a number that
  -- is not zero or less is for each minute, which may round to zero. Positive literals are not zero or
  -- less.
  pub start_limiters-IsUsable :
      {Bucket : Type 0}
      → let l : Limiters Float Bucket = start_limiters fl (load_server fl env) in
        IsUsable fl l.tunnel × IsUsable fl l.dashboard × IsPaced fl l.handshake
  unfolding start_limiters new_tunnel_limiter new_dashboard_limiter new_handshake_limiter
      new_ip_limiter
  start_limiters-IsUsable = (
    record {
      rate = rate_or-positive 20 _ (omega arith);
      burst = positive_or-pos 40 _ (omega arith);
      lasting = omega arith;
    },
    record {
      rate = rate_or-positive 10 _ (omega arith);
      burst = positive_or-pos 30 _ (omega arith);
      lasting = omega arith;
    },
    record {
      per_minute = _;
      rate = refl;
      positive = rate_or-positive 10 _ (omega arith);
      burst = omega arith;
      lasting = omega arith;
    },
  )

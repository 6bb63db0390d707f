-- ===== src/RateLimit/Idle.antt =====
-- How long an unused key stays in memory (internal/edge/ratelimit.go).
use liveurl.Prelude.{
  Bool, Bool-cases, Option, Text, arith, inl, inr, ltb, none, refl, some, text_eq, ℕ, ◌*◌, ◌+◌, ◌-◌,
  ◌<◌, ◌≡◌, ◌≤◌,
}
use liveurl.RateLimit.{
  IpLimiter, LimiterEntry, Readings, allow_key, new_ip_limiter, put_entry, sweep_locked,
  unless_idle,
}

unless_idle-some :
    {Bucket : Type 0} (ttl now : ℕ) (o : Option (LimiterEntry Bucket)) (e : LimiterEntry Bucket)
    → unless_idle ttl now o ≡ some e
    → (o ≡ some e) × (now ≤ e.last_seen + ttl)
unless_idle-some ttl now none e h = cc
unless_idle-some ttl now (some d) e h = ground arith

module _ {Rate Bucket : Type 0} where
  -- No entry is from the future, nor idle for more than the time to live at the last sweep.
  pub record IsSwept (now : ℕ) (l : IpLimiter Rate Bucket) : Type 0 where
    pub past : l.last_sweep ≤ now
    pub seen :
        (k : Text) (e : LimiterEntry Bucket)
        → l.entries k ≡ some e
        → (e.last_seen ≤ now) × (l.last_sweep ≤ e.last_seen + l.idle_ttl)

  pub new_ip_limiter-IsSwept :
      (rps : Rate) (burst ttl now : ℕ) → IsSwept now (new_ip_limiter rps burst ttl)
  unfolding new_ip_limiter
  new_ip_limiter-IsSwept rps burst ttl now = record { past = omega arith; seen = λ k e h. cc }

  sweep_locked-IsSwept :
      (t now : ℕ) (l : IpLimiter Rate Bucket)
      → t ≤ now
      → 0 < l.idle_ttl
      → IsSwept t l
      → IsSwept now (sweep_locked now l)
        × (now < (sweep_locked now l).last_sweep + l.idle_ttl)
        × ((sweep_locked now l).idle_ttl ≡ l.idle_ttl)
  unfolding sweep_locked
  sweep_locked-IsSwept t now l later pos v =
      elim (Bool-cases (ltb (now - l.last_sweep) l.idle_ttl)) [
        | inl recent ↦ rw recent (
          record {
            past = omega (arith, v.past);
            seen = λ k e h. (omega (arith, (v.seen k e h).0), (v.seen k e h).1);
          },
          ground arith,
          refl,
        )
        | inr due ↦ rw due (
          record {
            past = omega arith;
            seen = λ k e h.
                let (was, fresh) = unless_idle-some l.idle_ttl now (l.entries k) e h in
                (omega (arith, (v.seen k e was).0), fresh);
          },
          omega arith,
          refl,
        )
      ]

module _ {Rate Bucket : Type 0} (new_limiter : Rate → ℕ → Bucket)
    (allow : ℕ → Bucket → Bool × Bucket) where
  -- After each request the map holds only keys that were seen less than two times-to-live ago, and
  -- the limiter can be used again, if the clock does not go back.
  pub allow_key-IsSwept :
      (t : ℕ) (now : Readings) (key : Text) (l : IpLimiter Rate Bucket)
      → t ≤ now.at_start
      → 0 < l.idle_ttl
      → IsSwept t l
      → let l' = (allow_key new_limiter allow now key l).1 in
        IsSwept now.at_start l'
        × ((k : Text) (e : LimiterEntry Bucket)
            → l'.entries k ≡ some e
            → now.at_start < e.last_seen + 2 * l.idle_ttl)
  unfolding allow_key
  allow_key-IsSwept t now key l later pos v =
      let (swept, recent, ttl) = sweep_locked-IsSwept t now.at_start l later pos v in
      let seen : (k : Text) (e : LimiterEntry Bucket)
          → (allow_key new_limiter allow now key l).1.entries k ≡ some e
          → (e.last_seen ≤ now.at_start)
            × ((sweep_locked now.at_start l).last_sweep
                ≤ e.last_seen + (sweep_locked now.at_start l).idle_ttl) =
        λ k e h. put_seen k e (sweep_locked now.at_start l) swept (allow now.at_bucket _).1 h in
      (record { past = swept.past; seen = seen }, λ k e h. omega (arith, (seen k e h).1))
    where
      put_seen :
          (k : Text) (e : LimiterEntry Bucket) (l : IpLimiter Rate Bucket)
          → IsSwept now.at_start l
          → (b : Bucket)
          → put_entry key (record { limiter = b; last_seen = now.at_start }) l.entries k ≡ some e
          → (e.last_seen ≤ now.at_start) × (l.last_sweep ≤ e.last_seen + l.idle_ttl)
      put_seen k e l swept b h = elim (Bool-cases (text_eq key k)) [
        | inl same ↦ let p = swept.past in ground arith
        | inr other ↦ swept.seen k e (rw other at h)
      ]

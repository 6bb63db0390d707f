-- ===== src/RateLimit/Isolation.antt =====
-- Each key has a bucket of its own (internal/edge/ratelimit.go).
use liveurl.Prelude.{
  Bool, Bool-cases, List, Option, Text, [], ap, arith, false, if◌then◌else◌, inl, inr, ltb, none,
  refl, some, sym, text_eq, text_eq_sound, true, ℕ, ◌+◌, ◌-◌, ◌<◌, ◌∷◌, ◌≡◌, ◌≤◌,
}
use liveurl.RateLimit.{
  IpLimiter, LimiterEntry, Readings, allow_key, bucket_of, new_ip_limiter, sweep_locked,
  unless_idle,
}

module _ {Rate Bucket : Type 0} (new_limiter : Rate → ℕ → Bucket)
    (allow : ℕ → Bucket → Bool × Bucket) where
  -- The verdicts of a bucket that is used for one key alone.
  abbrev pub bucket_verdicts : Text → List (Readings × Text) → Bucket → List Bool
  bucket_verdicts key [] b = []
  bucket_verdicts key ((now, k) ∷ rest) b =
      let (ok, b') = allow now.at_bucket b in
      if text_eq k key then ok ∷ bucket_verdicts key rest b' else bucket_verdicts key rest b

  -- The verdicts that a limiter gives to the requests of one key, among those of others.
  abbrev pub key_verdicts : Text → List (Readings × Text) → IpLimiter Rate Bucket → List Bool
  key_verdicts key [] l = []
  key_verdicts key ((now, k) ∷ rest) l =
      let (ok, l') = allow_key new_limiter allow now k l in
      let more = key_verdicts key rest l' in if text_eq k key then ok ∷ more else more

  -- No request comes before `t` or before the one above it has its verdict, and a call reads the clock
  -- the second time at most `lag` after the first.
  abbrev pub IsTimely : ℕ → ℕ → List (Readings × Text) → Type 0
  IsTimely lag t [] = Unit
  IsTimely lag t ((now, k) ∷ rest) =
      (t ≤ now.at_start)
      × (now.at_start ≤ now.at_bucket)
      × (now.at_bucket ≤ now.at_start + lag)
      × IsTimely lag now.at_bucket rest

  -- The buckets that a new one of this rate and burst becomes by uses at times in order, up to `t`.
  pub data IsUsed (rps : Rate) (burst : ℕ) : ℕ → Bucket → Type 0 where
    new_bucket : {t : ℕ} → IsUsed rps burst t (new_limiter rps burst)
    asked :
        {s t u : ℕ} {b : Bucket}
        → IsUsed rps burst s b
        → s ≤ t
        → t ≤ u
        → IsUsed rps burst u (allow t b).1

  IsUsed-later :
      (rps : Rate) (burst t u : ℕ) (b : Bucket)
      → t ≤ u
      → IsUsed rps burst t b
      → IsUsed rps burst u b
  IsUsed-later rps burst t u _ le new_bucket = new_bucket
  IsUsed-later rps burst t u _ le (asked h first last) = asked h first (omega (arith, le, last))

  module _ (rps : Rate) (burst ttl lag : ℕ)
      (refills : (b : Bucket) (t t' : ℕ)
        → IsUsed rps burst t b
        → t + ttl < t' + lag
        → allow t' (allow t b).1 ≡ allow t' (new_limiter rps burst)) where
    -- The entry of the key holds this bucket, or there is none and the bucket is as good as new.
    data Holds (t : ℕ) (b : Bucket) : Option (LimiterEntry Bucket) → Type 0 where
      held :
          (e : LimiterEntry Bucket) (b₀ : Bucket) (s : ℕ)
          → e.limiter ≡ b
          → IsUsed rps burst s b₀
          → s ≤ e.last_seen + lag
          → b ≡ (allow s b₀).1
          → Holds t b (some e)
      gone : ((t' : ℕ) → t ≤ t' → allow t' b ≡ allow t' (new_limiter rps burst)) → Holds t b none

    further :
        (seen s now t' : ℕ)
        → s ≤ seen + lag
        → ltb ttl (now - seen) ≡ true
        → now ≤ t'
        → s + ttl < t' + lag
    further seen s now t' soon idle later =
        let long : seen + ttl < now = ground (arith, idle) in omega (arith, soon, long, later)

    Holds-unless_idle :
        (t now : ℕ) (b : Bucket) (o : Option (LimiterEntry Bucket))
        → t ≤ now
        → Holds t b o
        → Holds now b (unless_idle ttl now o)
    Holds-unless_idle t now b _ le (gone new) = gone (λ t' h. new t' (omega arith))
    Holds-unless_idle t now b _ le (held e b₀ s is was soon from) =
        elim (Bool-cases (ltb ttl (now - e.last_seen))) [
          | inl idle ↦ rw idle (
              gone
                (λ t' h. rw from (refills b₀ s t' was (further e.last_seen s now t' soon idle h))))
          | inr used ↦ rw used (held e b₀ s is was soon from)
        ]

    Holds-later :
        (t now : ℕ) (b : Bucket) (o : Option (LimiterEntry Bucket))
        → t ≤ now
        → Holds t b o
        → Holds now b o
    Holds-later t now b _ le (gone new) = gone (λ t' h. new t' (omega arith))
    Holds-later t now b _ le (held e b₀ s is was soon from) = held e b₀ s is was soon from

    -- A limiter with these settings, at whose key there is this bucket.
    record Tracks (t : ℕ) (key : Text) (b : Bucket) (l : IpLimiter Rate Bucket) : Type 0 where
      same_rps : l.rps ≡ rps
      same_burst : l.burst ≡ burst
      same_ttl : l.idle_ttl ≡ ttl
      entry : Holds t b (l.entries key)
      so_far : IsUsed rps burst t b

    sweep_locked-Tracks :
        (t now : ℕ) (key : Text) (b : Bucket) (l : IpLimiter Rate Bucket)
        → t ≤ now
        → Tracks t key b l
        → Tracks now key b (sweep_locked now l)
    unfolding sweep_locked
    sweep_locked-Tracks t now key b l le v =
        elim (Bool-cases (ltb (now - l.last_sweep) l.idle_ttl)) [
          | inl recent ↦ rw recent (record {
            same_rps = v.same_rps;
            same_burst = v.same_burst;
            same_ttl = v.same_ttl;
            entry = Holds-later t now b _ le v.entry;
            so_far = IsUsed-later rps burst t now b le v.so_far;
          })
          | inr due ↦ rw due (record {
            same_rps = v.same_rps;
            same_burst = v.same_burst;
            same_ttl = v.same_ttl;
            entry = rw v.same_ttl (Holds-unless_idle t now b (l.entries key) le v.entry);
            so_far = IsUsed-later rps burst t now b le v.so_far;
          })
        ]

    allow-Holds :
        (t now : ℕ) (key : Text) (b : Bucket) (l : IpLimiter Rate Bucket)
        → t ≤ now
        → Tracks t key b l
        → (o : Option (LimiterEntry Bucket)) → Holds t b o
        → allow now (bucket_of new_limiter allow l o) ≡ allow now b
    allow-Holds t now key b l le v _ (held e b₀ s is was soon from) = rw is
    allow-Holds t now key b l le v _ (gone new) = rw (v.same_rps, v.same_burst) (sym (new now le))

    -- A request of the key itself, which the bucket answers.
    allow_key-Tracks_self :
        (t : ℕ) (now : Readings) (k key : Text) (b : Bucket) (l : IpLimiter Rate Bucket)
        → text_eq k key ≡ true
        → t ≤ now.at_start
        → now.at_start ≤ now.at_bucket
        → now.at_bucket ≤ now.at_start + lag
        → Tracks t key b l
        → let (ok, l') = allow_key new_limiter allow now k l in
          (ok ≡ (allow now.at_bucket b).0) × Tracks now.at_bucket key (allow now.at_bucket b).1 l'
    unfolding allow_key
    allow_key-Tracks_self t now k key b l same le after soon v =
        let swept = sweep_locked-Tracks t now.at_start key b l le v in
        let k-is : k ≡ key = text_eq_sound k key same in
        let l' = sweep_locked now.at_start l in
        let answer : allow now.at_bucket (bucket_of new_limiter allow l' (l'.entries k))
            ≡ allow now.at_bucket b =
          rw k-is (allow-Holds now.at_start now.at_bucket key b l' after swept _ swept.entry) in
        let so_far = IsUsed-later rps burst now.at_start now.at_bucket b after swept.so_far in
        (
          ap (λ (r : Bool × Bucket). r.0) answer,
          record {
            same_rps = swept.same_rps;
            same_burst = swept.same_burst;
            same_ttl = swept.same_ttl;
            entry =
                rw same (
                  held _ b now.at_bucket (ap (λ (r : Bool × Bucket). r.1) answer) so_far soon refl);
            so_far = asked so_far (omega arith) (omega arith);
          },
        )

    -- A request of another key leaves the entry alone.
    allow_key-Tracks_other :
        (t : ℕ) (now : Readings) (k key : Text) (b : Bucket) (l : IpLimiter Rate Bucket)
        → text_eq k key ≡ false
        → t ≤ now.at_start
        → now.at_start ≤ now.at_bucket
        → Tracks t key b l
        → Tracks now.at_bucket key b (allow_key new_limiter allow now k l).1
    unfolding allow_key
    allow_key-Tracks_other t now k key b l other le after v =
        let swept = sweep_locked-Tracks t now.at_start key b l le v in
        record {
          same_rps = swept.same_rps;
          same_burst = swept.same_burst;
          same_ttl = swept.same_ttl;
          entry = rw other (Holds-later now.at_start now.at_bucket b _ after swept.entry);
          so_far = IsUsed-later rps burst now.at_start now.at_bucket b after swept.so_far;
        }

    key_verdicts-Tracks :
        (t : ℕ) (key : Text) (calls : List (Readings × Text)) (b : Bucket)
        (l : IpLimiter Rate Bucket)
        → IsTimely lag t calls
        → Tracks t key b l
        → key_verdicts key calls l ≡ bucket_verdicts key calls b
    key_verdicts-Tracks t key [] b l timely v = refl
    key_verdicts-Tracks t key ((now, k) ∷ rest) b l (le, after, soon, timely) v =
        elim (Bool-cases (text_eq k key)) [
          | inl same ↦
              let (answer, next) = allow_key-Tracks_self t now k key b l same le after soon v in
              rw (
                same,
                answer,
                key_verdicts-Tracks now.at_bucket key rest (allow now.at_bucket b).1
                    (allow_key new_limiter allow now k l).1 timely next,
              )
          | inr other ↦ rw other (
              key_verdicts-Tracks now.at_bucket key rest b (allow_key new_limiter allow now k l).1
                timely (allow_key-Tracks_other t now k key b l other le after v))
        ]

    -- From a new limiter, the verdicts on the requests of one key are those of a bucket of its own:
    -- neither the requests of other keys nor the eviction of idle entries changes one. The clock
    -- does not go back, a call reads it the second time within a lag, and a bucket of the limiter's rate
    -- and burst that was used, and then left alone for longer than the time to live less the lag, is
    -- as good as new: the rate fills the burst in that time.
    pub key_verdicts-isolated :
        (key : Text) (calls : List (Readings × Text))
        → IsTimely lag 0 calls
        → key_verdicts key calls (new_ip_limiter rps burst ttl)
          ≡ bucket_verdicts key calls (new_limiter rps burst)
    key_verdicts-isolated key calls timely =
        key_verdicts-Tracks 0 key calls (new_limiter rps burst) (new_ip_limiter rps burst ttl)
          timely
          (unfold new_ip_limiter in
            record {
              same_rps = refl;
              same_burst = refl;
              same_ttl = refl;
              entry = gone (λ t' h. refl);
              so_far = new_bucket;
            })

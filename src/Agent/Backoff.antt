-- ===== src/Agent/Backoff.antt =====
-- How long the agent waits before it connects again (internal/agent/agent.go, Run).
use liveurl.Prelude.{
  All, Bool, Bool-cases, List, [], ap, arith, false, inl, inr, ltb, min, refl, suc, sym, true, zero,
  ℕ, ◌*◌, ◌+◌, ◌/◌, ◌<◌, ◌^◌, ◌∙◌, ◌∷◌, ◌≡◌, ◌≤◌,
}
use liveurl.Agent.{
  backoff_after, double_backoff, jitter, max_backoff, min_backoff, reset_backoff, run,
}

-- A wait of a quarter of a second at least and of half a minute at most.
abbrev pub IsWait : ℕ → Type 0
IsWait w = (250000000 ≤ w) × (w ≤ 30000000000)

abbrev failures : ℕ → List Bool
failures zero = []
failures (suc k) = false ∷ failures k

double_backoff-within :
    (b : ℕ) → min_backoff ≤ b → (min_backoff ≤ double_backoff b) × (double_backoff b ≤ max_backoff)
unfolding double_backoff
double_backoff-within b h = ground (arith, h)

reset_backoff-within :
    (connected : Bool) (b : ℕ)
    → min_backoff ≤ b
    → b ≤ max_backoff
    → (min_backoff ≤ reset_backoff connected b) × (reset_backoff connected b ≤ max_backoff)
reset_backoff-within true b h k = (omega arith, omega arith)
reset_backoff-within false b h k = (h, k)

module _ (int63n : ℕ → ℕ → ℕ) (draws : (i n : ℕ) → 0 < n → int63n i n < n) where
  jitter-IsWait : (i b : ℕ) → min_backoff ≤ b → b ≤ max_backoff → IsWait (jitter int63n i b)
  unfolding jitter
  jitter-IsWait i b h k =
      let drawn = draws i (b / 2 + 1) (omega arith) in (omega (arith, h), omega (arith, k, drawn))

  -- However the attempts end, and whatever is drawn below its bound: from a backoff between the
  -- least and the greatest one, every wait is from 250 ms to 30 s.
  pub run-IsWait :
      (attempts : List Bool) (i b : ℕ)
      → min_backoff ≤ b
      → b ≤ max_backoff
      → All IsWait (run int63n attempts i b)
  unfolding run
  run-IsWait [] i b h k = tt
  run-IsWait (connected ∷ rest) i b h k =
      let (low, high) = reset_backoff-within connected b h k in
      let (low', high') = double_backoff-within (reset_backoff connected b) low in
      (
        jitter-IsWait i (reset_backoff connected b) low high,
        run-IsWait rest (i + 1) (double_backoff (reset_backoff connected b)) low' high',
      )

double_backoff-over : (b : ℕ) → ltb max_backoff (b * 2) ≡ true → double_backoff b ≡ max_backoff
unfolding double_backoff
double_backoff-over b h = rw h refl

double_backoff-under : (b : ℕ) → ltb max_backoff (b * 2) ≡ false → double_backoff b ≡ b * 2
unfolding double_backoff
double_backoff-under b h = rw h refl

le-mul : (x p : ℕ) → 0 < p → x ≤ x * p
le-mul x p h = grind (arith, h)

pow-pos : (k : ℕ) → 0 < 2 ^ k
pow-pos zero = omega arith
pow-pos (suc k) = omega (arith, pow-pos k)

min-over : (x p : ℕ) → 0 < p → max_backoff ≤ x → min (x * p) max_backoff ≡ max_backoff
min-over x p h k = omega (arith, le-mul x p h, k)

double-pow : (b k : ℕ) → b * 2 ^ suc k ≡ b * 2 * 2 ^ k
double-pow b k = let step : 2 ^ suc k ≡ 2 * 2 ^ k = omega arith in ap (◌*◌ b) step ∙ grind arith

-- After k attempts in a row that reached no session, from a backoff not above the greatest one, the
-- backoff is the one before them times 2 ^ k, or the greatest one if that is less.
backoff_after-failures :
    (k b : ℕ) → b ≤ max_backoff → backoff_after (failures k) b ≡ min (b * 2 ^ k) max_backoff
unfolding backoff_after
backoff_after-failures zero b h = omega (arith, h)
backoff_after-failures (suc k) b h = elim (Bool-cases (ltb max_backoff (b * 2))) [
  | inl over ↦
      let above : max_backoff ≤ b * 2 = ground (arith, over) in
      (ap (backoff_after (failures k)) (double_backoff-over b over)
        ∙ backoff_after-failures k max_backoff (omega arith)
        ∙ (min-over max_backoff (2 ^ k) (pow-pos k) (omega arith)
            ∙ sym (
                ap (λ x. min x max_backoff) (double-pow b k)
                ∙ min-over (b * 2) (2 ^ k) (pow-pos k) above)))
  | inr under ↦
      let fits : b * 2 ≤ max_backoff = ground (arith, under) in
      (ap (backoff_after (failures k)) (double_backoff-under b under)
        ∙ backoff_after-failures k (b * 2) fits
        ∙ sym (ap (λ x. min x max_backoff) (double-pow b k)))
]

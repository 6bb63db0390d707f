-- ===== src/Prelude/Lists.antt =====
-- Lists measured by native numbers, predicates on all elements, and tables kept as lists.
use Prim.Native.Nat.{ℕ, zero, suc, ◌+◌}
use mathlib.Core.Path.{◌≡◌, refl, ap}
use mathlib.Core.Bool.{Bool, true, false, ◌||◌}
use mathlib.Core.Option.{Option, none, some}
use mathlib.Core.List.{List, [], ◌∷◌, ◌++◌}
use native.Mathlib.Omega.{arith}
use mathlib.Core.Logic.{inl, inr}
use liveurl.Prelude.Tests.{Bool-cases, if◌then◌else◌}

module _ {ℓ} {A : Type ℓ} where
  abbrev pub length : List A → ℕ
  length [] = 0
  length (x ∷ xs) = suc (length xs)

  abbrev pub take : ℕ → List A → List A
  take zero xs = []
  take (suc n) [] = []
  take (suc n) (x ∷ xs) = x ∷ take n xs

  abbrev pub drop : ℕ → List A → List A
  drop zero xs = xs
  drop (suc n) [] = []
  drop (suc n) (x ∷ xs) = drop n xs

  -- The rows that pass a test, in their order.
  abbrev pub keep : (A → Bool) → List A → List A
  keep p [] = []
  keep p (x ∷ xs) = if p x then x ∷ keep p xs else keep p xs

  -- `UPDATE … WHERE`: the rows that pass are replaced, where they stand.
  abbrev pub update_where : (A → Bool) → (A → A) → List A → List A
  update_where p f [] = []
  update_where p f (x ∷ xs) = (if p x then f x else x) ∷ update_where p f xs

  -- `SELECT … WHERE` of at most one row.
  abbrev pub find_where : (A → Bool) → List A → Option A
  find_where p [] = none
  find_where p (x ∷ xs) = if p x then some x else find_where p xs

  abbrev pub any : (A → Bool) → List A → Bool
  any p [] = false
  any p (x ∷ xs) = if p x then true else any p xs

  abbrev pub All {κ} : (A → Type κ) → List A → Type κ
  All P [] = Unit
  All P (x ∷ xs) = P x × All P xs

  pub length-append : (xs ys : List A) → length (xs ++ ys) ≡ length xs + length ys
  length-append [] ys = omega arith
  length-append (x ∷ xs) ys = omega (arith, length-append xs ys)

  pub append-take-drop : (n : ℕ) (xs : List A) → take n xs ++ drop n xs ≡ xs
  append-take-drop zero xs = refl
  append-take-drop (suc n) [] = refl
  append-take-drop (suc n) (x ∷ xs) = ap (λ ys. x ∷ ys) (append-take-drop n xs)

  pub keep-append : (p : A → Bool) (xs ys : List A) → keep p (xs ++ ys) ≡ keep p xs ++ keep p ys
  keep-append p [] ys = refl
  keep-append p (x ∷ xs) ys = ground (arith, keep-append p xs ys)

  pub All-append {κ} : (P : A → Type κ) (xs ys : List A) → All P xs → All P ys → All P (xs ++ ys)
  All-append P [] ys h k = k
  All-append P (x ∷ xs) ys h k = (h.0, All-append P xs ys h.1 k)

  pub All-weaken {κ μ} :
      (P : A → Type κ) (Q : A → Type μ) (xs : List A) → ((x : A) → P x → Q x) → All P xs → All Q xs
  All-weaken P Q [] f h = tt
  All-weaken P Q (x ∷ xs) f h = (f x h.0, All-weaken P Q xs f h.1)

  pub All-keep {κ} : (P : A → Type κ) (p : A → Bool) (xs : List A) → All P xs → All P (keep p xs)
  All-keep P p [] h = tt
  All-keep P p (x ∷ xs) h = elim (Bool-cases (p x)) [
    | inl e ↦ rw e (h.0, All-keep P p xs h.1)
    | inr e ↦ rw e (All-keep P p xs h.1)
  ]

  -- What a filter lets through passes its test.
  pub keep-All : (p : A → Bool) (xs : List A) → All (λ x. p x ≡ true) (keep p xs)
  keep-All p [] = tt
  keep-All p (x ∷ xs) = elim (Bool-cases (p x)) [
    | inl e ↦ rw e (e, keep-All p xs)
    | inr e ↦ rw e (keep-All p xs)
  ]

  pub All-update_where {κ} :
      (P : A → Type κ) (p : A → Bool) (f : A → A) (xs : List A)
      → ((x : A) → P x → P (f x))
      → All P xs
      → All P (update_where p f xs)
  All-update_where P p f [] k h = tt
  All-update_where P p f (x ∷ xs) k h = elim (Bool-cases (p x)) [
    | inl e ↦ rw e (k x h.0, All-update_where P p f xs k h.1)
    | inr e ↦ rw e (h.0, All-update_where P p f xs k h.1)
  ]

  -- A row that is looked up by a test that the update keeps.
  pub find_where-update_where :
      (q p : A → Bool) (f : A → A) (xs : List A)
      → ((x : A) → q (f x) ≡ q x)
      → find_where q (update_where p f xs)
        ≡ elim (find_where q xs) [ none ↦ none | some x ↦ some (if p x then f x else x) ]
  find_where-update_where q p f [] k = refl
  find_where-update_where q p f (x ∷ xs) k = ground (arith, k x, find_where-update_where q p f xs k)

  any-cons : (p : A → Bool) (x : A) (xs : List A) → any p xs ≡ true → any p (x ∷ xs) ≡ true
  any-cons p x xs h = ground arith

  any-keep_cons :
      (p q : A → Bool) (x : A) (xs : List A)
      → any q (keep p xs) ≡ true
      → any q (keep p (x ∷ xs)) ≡ true
  any-keep_cons p q x xs h = ground arith

  module _ (same : A → A → Bool) (same_refl : (x : A) → same x x ≡ true) where
    pub All-any : (xs : List A) → All (λ x. any (same x) xs ≡ true) xs
    All-any [] = tt
    All-any (x ∷ xs) = (
      rw (same_refl x),
      All-weaken (λ y. any (same y) xs ≡ true) (λ y. any (same y) (x ∷ xs) ≡ true) xs
          (λ y h. any-cons (same y) x xs h) (All-any xs),
    )

    -- Each row that passes the test is found among those that pass.
    pub All-any-keep :
        (p : A → Bool) (xs : List A) → All (λ x. p x ≡ true → any (same x) (keep p xs) ≡ true) xs
    All-any-keep p [] = tt
    All-any-keep p (x ∷ xs) = (
      λ h. rw (h, same_refl x),
      All-weaken (λ y. p y ≡ true → any (same y) (keep p xs) ≡ true)
          (λ y. p y ≡ true → any (same y) (keep p (x ∷ xs)) ≡ true) xs
          (λ y h q. any-keep_cons p (same y) x xs (h q)) (All-any-keep p xs),
    )

  pub find_where-any :
      (p : A → Bool) (xs : List A) → any p xs ≡ true → (x : A) × (find_where p xs ≡ some x)
  find_where-any p [] h = cc
  find_where-any p (x ∷ xs) h = elim (Bool-cases (p x)) [
    | inl e ↦ (x, rw e)
    | inr e ↦ rw e (find_where-any p xs (rw e at h))
  ]

  pub All-both {κ μ} :
      (P : A → Type κ) (Q : A → Type μ) (xs : List A)
      → All P xs
      → All Q xs
      → All (λ x. P x × Q x) xs
  All-both P Q [] h k = tt
  All-both P Q (x ∷ xs) h k = ((h.0, k.0), All-both P Q xs h.1 k.1)

  -- A row that is added is found, if no row before it passes.
  pub find_where-append :
      (p : A → Bool) (xs : List A) (n : A)
      → any p xs ≡ false
      → p n ≡ true
      → find_where p (xs ++ n ∷ []) ≡ some n
  find_where-append p [] n h k = rw k
  find_where-append p (x ∷ xs) n h k = ground (arith, find_where-append p xs n)

  pub find_where-append_other :
      (p : A → Bool) (xs : List A) (n : A)
      → p n ≡ false
      → find_where p (xs ++ n ∷ []) ≡ find_where p xs
  find_where-append_other p [] n k = rw k
  find_where-append_other p (x ∷ xs) n k = ground (arith, find_where-append_other p xs n)

  pub any-append : (p : A → Bool) (xs : List A) (n : A) → any p (xs ++ n ∷ []) ≡ (any p xs || p n)
  any-append p [] n = ground arith
  any-append p (x ∷ xs) n = ground (arith, any-append p xs n)

  pub find_where-none : (p : A → Bool) (xs : List A) → any p xs ≡ false → find_where p xs ≡ none
  find_where-none p [] h = refl
  find_where-none p (x ∷ xs) h = ground (arith, find_where-none p xs)

  pub found_passes : (p : A → Bool) (xs : List A) (x : A) → find_where p xs ≡ some x → p x ≡ true
  found_passes p [] x h = cc
  found_passes p (y ∷ ys) x h = ground (arith, found_passes p ys x)

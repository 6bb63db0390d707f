-- ===== src/Prelude/Sort.antt =====
-- `ORDER BY`: a stable insertion sort, and what the queries rely on.
use mathlib.Core.Bool.{Bool}
use mathlib.Core.List.{List, [], ◌∷◌}
use mathlib.Core.Path.{◌≡◌, refl, ap, ◌∙◌}
use mathlib.Core.Logic.{inl, inr}
use mathlib.Core.Bool.{true, false}
use mathlib.Core.List.{◌++◌, Perm, map}
use mathlib.Core.List.Perm
use native.Mathlib.Omega.{arith}
use liveurl.Prelude.Tests.{Bool-cases, if◌then◌else◌}
use liveurl.Prelude.Lists.{All, All-keep, All-weaken, any, keep}

module _ {ℓ} {A : Type ℓ} (before : A → A → Bool) where
  unfoldable pub insert_by : A → List A → List A
  insert_by x [] = x ∷ []
  insert_by x (y ∷ ys) = if before x y then x ∷ y ∷ ys else y ∷ insert_by x ys

  unfoldable pub order_by : List A → List A
  unfolding insert_by
  order_by [] = []
  order_by (x ∷ xs) = insert_by x (order_by xs)

  -- Every row comes before all that follow it.
  abbrev pub IsOrdered : List A → Type 0
  IsOrdered [] = Unit
  IsOrdered (x ∷ xs) = All (λ y. before x y ≡ true) xs × IsOrdered xs

  pub order_by-nil : order_by [] ≡ []
  unfolding order_by
  order_by-nil = refl

  insert_by-perm : (x : A) (ys : List A) → Perm (insert_by x ys) (x ∷ ys)
  unfolding insert_by
  insert_by-perm x [] = Perm.refl (x ∷ [])
  insert_by-perm x (y ∷ ys) = elim (Bool-cases (before x y)) [
    | inl e ↦ rw e (Perm.refl (x ∷ y ∷ ys))
    | inr e ↦ rw e (Perm.trans (Perm.cons y (insert_by-perm x ys)) (Perm.swap x y ys))
  ]

  -- The query returns the rows that it selected, each as often.
  pub order_by-perm : (xs : List A) → Perm (order_by xs) xs
  unfolding order_by
  order_by-perm [] = Perm.refl []
  order_by-perm (x ∷ xs) =
      Perm.trans (insert_by-perm x (order_by xs)) (Perm.cons x (order_by-perm xs))

  pub insert_by-All {κ} :
      (P : A → Type κ) (x : A) (ys : List A) → P x → All P ys → All P (insert_by x ys)
  unfolding insert_by
  insert_by-All P x [] h k = (h, tt)
  insert_by-All P x (y ∷ ys) h k = elim (Bool-cases (before x y)) [
    | inl e ↦ rw e (h, k)
    | inr e ↦ rw e (k.0, insert_by-All P x ys h k.1)
  ]

  pub order_by-All {κ} : (P : A → Type κ) (xs : List A) → All P xs → All P (order_by xs)
  unfolding order_by
  order_by-All P [] h = tt
  order_by-All P (x ∷ xs) h = insert_by-All P x (order_by xs) h.0 (order_by-All P xs h.1)

  insert_by-any : (p : A → Bool) (x : A) (ys : List A) → any p (insert_by x ys) ≡ any p (x ∷ ys)
  unfolding insert_by
  insert_by-any p x [] = refl
  insert_by-any p x (y ∷ ys) = ground (arith, insert_by-any p x ys)

  pub order_by-any : (p : A → Bool) (xs : List A) → any p (order_by xs) ≡ any p xs
  unfolding order_by
  order_by-any p [] = refl
  order_by-any p (x ∷ xs) = ground (arith, insert_by-any p x (order_by xs), order_by-any p xs)

  insert_by-last :
      (x n : A) (ys : List A)
      → before x n ≡ true
      → insert_by x (ys ++ n ∷ []) ≡ insert_by x ys ++ n ∷ []
  unfolding insert_by
  insert_by-last x n [] h = rw h
  insert_by-last x n (y ∷ ys) h = ground (arith, insert_by-last x n ys h)

  -- A row after which no other row comes is returned last.
  pub order_by-last :
      (xs : List A) (n : A)
      → All (λ x. before x n ≡ true) xs
      → order_by (xs ++ n ∷ []) ≡ order_by xs ++ n ∷ []
  unfolding order_by
  order_by-last [] n h = refl
  order_by-last (x ∷ xs) n h = rw (order_by-last xs n h.1) (insert_by-last x n (order_by xs) h.0)

  module _ (total : (x y : A) → before x y ≡ false → before y x ≡ true)
      (trans : (x y z : A) → before x y ≡ true → before y z ≡ true → before x z ≡ true) where
    insert_by-IsOrdered : (x : A) (ys : List A) → IsOrdered ys → IsOrdered (insert_by x ys)
    unfolding insert_by
    insert_by-IsOrdered x [] h = (tt, tt)
    insert_by-IsOrdered x (y ∷ ys) h = elim (Bool-cases (before x y)) [
      | inl e ↦ rw e (
        (
          e,
          All-weaken (λ z. before y z ≡ true) (λ z. before x z ≡ true) ys (λ z k. trans x y z e k)
              h.0,
        ),
        h,
      )
      | inr e ↦ rw e (
        insert_by-All (λ z. before y z ≡ true) x ys (total x y e) h.0,
        insert_by-IsOrdered x ys h.1,
      )
    ]

    pub order_by-IsOrdered : (xs : List A) → IsOrdered (order_by xs)
    unfolding order_by
    order_by-IsOrdered [] = tt
    order_by-IsOrdered (x ∷ xs) = insert_by-IsOrdered x (order_by xs) (order_by-IsOrdered xs)

    insert_by-front :
        (x : A) (ys : List A) → All (λ y. before x y ≡ true) ys → insert_by x ys ≡ x ∷ ys
    unfolding insert_by
    insert_by-front x [] h = refl
    insert_by-front x (y ∷ ys) h = rw h.0

    insert_by-keep :
        (p : A → Bool) (x : A) (ys : List A)
        → IsOrdered ys
        → keep p (insert_by x ys) ≡ (if p x then insert_by x (keep p ys) else keep p ys)
    unfolding insert_by
    insert_by-keep p x [] h = refl
    insert_by-keep p x (y ∷ ys) h = elim (Bool-cases (before x y)) [
      | inl e ↦
          let front : insert_by x (keep p (y ∷ ys)) ≡ x ∷ keep p (y ∷ ys) =
            insert_by-front x (keep p (y ∷ ys)) (
              All-keep (λ z. before x z ≡ true) p (y ∷ ys)
                (
                  e,
                  All-weaken (λ z. before y z ≡ true) (λ z. before x z ≡ true) ys
                      (λ z k. trans x y z e k) h.0,
                )) in
          rw (e, front) refl
      | inr e ↦ ground (arith, e, insert_by-keep p x ys h.1)
    ]

    -- The rows that pass a test are in the same order when they are selected after the sort.
    pub order_by-keep : (p : A → Bool) (xs : List A) → keep p (order_by xs) ≡ order_by (keep p xs)
    unfolding order_by
    order_by-keep p [] = refl
    order_by-keep p (x ∷ xs) =
        insert_by-keep p x (order_by xs) (order_by-IsOrdered xs)
        ∙ ground (arith, order_by-keep p xs)

  module _ (g : A → A) (same : (x y : A) → before (g x) (g y) ≡ before x y) where
    insert_by-map : (x : A) (ys : List A) → insert_by (g x) (map g ys) ≡ map g (insert_by x ys)
    unfolding insert_by
    insert_by-map x [] = refl
    insert_by-map x (y ∷ ys) = ground (arith, same x y, insert_by-map x ys)

    -- A change that keeps what the rows are ordered by keeps their order.
    pub order_by-map : (xs : List A) → order_by (map g xs) ≡ map g (order_by xs)
    unfolding order_by
    order_by-map [] = refl
    order_by-map (x ∷ xs) = ap (insert_by (g x)) (order_by-map xs) ∙ insert_by-map x (order_by xs)

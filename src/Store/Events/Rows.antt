-- ===== src/Store/Events/Rows.antt =====
-- What an UPDATE of webhook_events by its primary key does to the table (internal/store/events.go).
use liveurl.Prelude.{
  All, All-append, All-keep, All-update_where, Bool, Bool-cases, List, [], ap, arith, false,
  find_where, if◌then◌else◌, inl, inr, keep, refl, some, sym, true, update_where, ℕ, ◌++◌, ◌<◌, ◌∙◌,
  ◌∷◌, ◌≡◌, ◌≢◌,
}
use liveurl.Store.{WebhookEvent}
use liveurl.Store.Events.{has_id}

abbrev pub KeepsId : (WebhookEvent → WebhookEvent) → Type 0
KeepsId f = (r : WebhookEvent) → (f r).id ≡ r.id

-- The primary key: no two rows have one id.
abbrev pub IsKeyed : List WebhookEvent → Type 0
IsKeyed [] = Unit
IsKeyed (x ∷ xs) = All (λ y. has_id x.id y ≡ false) xs × IsKeyed xs

-- The rows are updated where the id is `i`, and nowhere else.
pub record Touches (i : ℕ) (before after : List WebhookEvent) : Type 0 where
  pub change : WebhookEvent → WebhookEvent
  pub keeps_id : KeepsId change
  pub rows : after ≡ update_where (has_id i) change before

pub update_where-same : (i : ℕ) (xs : List WebhookEvent) → update_where (has_id i) (λ r. r) xs ≡ xs
update_where-same i [] = refl
update_where-same i (x ∷ xs) = ground (arith, update_where-same i xs)

pub update_where-update_where :
    (i : ℕ) (f g : WebhookEvent → WebhookEvent) (xs : List WebhookEvent)
    → KeepsId f
    → update_where (has_id i) g (update_where (has_id i) f xs)
      ≡ update_where (has_id i) (λ r. g (f r)) xs
update_where-update_where i f g [] k = refl
update_where-update_where i f g (x ∷ xs) k =
    ground (arith, k x, update_where-update_where i f g xs k)

pub Touches-refl : (i : ℕ) (xs : List WebhookEvent) → Touches i xs xs
Touches-refl i xs = record {
  change = λ r. r;
  keeps_id = λ r. refl;
  rows = sym (update_where-same i xs);
}

pub Touches-trans :
    {i : ℕ} {xs ys zs : List WebhookEvent} → Touches i xs ys → Touches i ys zs → Touches i xs zs
Touches-trans {i} {xs} a b = record {
  change = λ r. b.change (a.change r);
  keeps_id = λ r. b.keeps_id (a.change r) ∙ a.keeps_id r;
  rows =
      b.rows
      ∙ ap (update_where (has_id i) b.change) a.rows
      ∙ update_where-update_where i a.change b.change xs a.keeps_id;
}

-- A row of another id is as it was.
pub find-Touches :
    {i : ℕ} {xs ys : List WebhookEvent} (j : ℕ)
    → Touches i xs ys
    → j ≢ i
    → find_where (has_id j) ys ≡ find_where (has_id j) xs
find-Touches {i} {xs} j t ne = rw t.rows (go xs)
  where
    go :
        (rows : List WebhookEvent)
        → find_where (has_id j) (update_where (has_id i) t.change rows) ≡ find_where (has_id j) rows
    go [] = refl
    go (x ∷ rest) = ground (arith, t.keeps_id x, go rest)

-- The row of the id is changed.
pub find-update_self :
    (i : ℕ) (f : WebhookEvent → WebhookEvent) (xs : List WebhookEvent) (r : WebhookEvent)
    → KeepsId f
    → find_where (has_id i) xs ≡ some r
    → find_where (has_id i) (update_where (has_id i) f xs) ≡ some (f r)
find-update_self i f [] r k e = cc
find-update_self i f (x ∷ xs) r k e = ground (arith, k x, find-update_self i f xs r k)

-- The row of the id after the update comes from the one before it.
pub find-updated :
    (i : ℕ) (f : WebhookEvent → WebhookEvent) (xs : List WebhookEvent) (r : WebhookEvent)
    → KeepsId f
    → find_where (has_id i) (update_where (has_id i) f xs) ≡ some r
    → (s : WebhookEvent) × (find_where (has_id i) xs ≡ some s) × (r ≡ f s)
find-updated i f [] r k e = cc
find-updated i f (x ∷ xs) r k e = elim (Bool-cases (has_id i x)) [
  | inl h ↦ (x, rw h, found_head h e)
  | inr h ↦ let (s, p, q) = find-updated i f xs r k (skip_head h e) in (s, rw h p, q)
]
  where
    found_head :
        has_id i x ≡ true
        → find_where (has_id i) (update_where (has_id i) f (x ∷ xs)) ≡ some r
        → r ≡ f x
    found_head h e = ground (arith, k x)

    skip_head :
        has_id i x ≡ false
        → find_where (has_id i) (update_where (has_id i) f (x ∷ xs)) ≡ some r
        → find_where (has_id i) (update_where (has_id i) f xs) ≡ some r
    skip_head h e = ground arith

All-other :
    (i : ℕ) (f : WebhookEvent → WebhookEvent) (P : WebhookEvent → Type 0) (xs : List WebhookEvent)
    → All (λ y. has_id i y ≡ false) xs
    → All P xs
    → All P (update_where (has_id i) f xs)
All-other i f P [] d h = tt
All-other i f P (x ∷ xs) d h = (rw d.0 h.0, All-other i f P xs d.1 h.1)

-- A property of all rows survives an update if the row that is changed keeps it.
pub All-update_found :
    (i : ℕ) (f : WebhookEvent → WebhookEvent) (P : WebhookEvent → Type 0) (xs : List WebhookEvent)
    → IsKeyed xs
    → ((r : WebhookEvent) → find_where (has_id i) xs ≡ some r → P r → P (f r))
    → All P xs
    → All P (update_where (has_id i) f xs)
All-update_found i f P [] d k h = tt
All-update_found i f P (x ∷ xs) d k h = elim (Bool-cases (has_id i x)) [
  | inl e ↦
      rw e
        (k x (rw e) h.0, All-other i f P xs (let e' : x.id ≡ i = ground arith in rw e' at d.0) h.1)
  | inr e ↦ rw e (h.0, All-update_found i f P xs d.1 (λ r p. k r (rw e p)) h.1)
]

IsKeyed-fresh :
    (i j : ℕ) (f : WebhookEvent → WebhookEvent) (xs : List WebhookEvent)
    → KeepsId f
    → All (λ y. has_id j y ≡ false) xs
    → All (λ y. has_id j y ≡ false) (update_where (has_id i) f xs)
IsKeyed-fresh i j f xs k =
    All-update_where (λ y. has_id j y ≡ false) (has_id i) f xs (λ x h. rw (k x) h)

changed_id :
    (i : ℕ) (f : WebhookEvent → WebhookEvent) (x : WebhookEvent)
    → KeepsId f
    → (if has_id i x then f x else x).id ≡ x.id
changed_id i f x k = ground (arith, k x)

pub IsKeyed-Touches :
    {i : ℕ} {xs ys : List WebhookEvent} → Touches i xs ys → IsKeyed xs → IsKeyed ys
IsKeyed-Touches {i} {xs} t d = rw t.rows (go xs d)
  where
    go : (rows : List WebhookEvent) → IsKeyed rows → IsKeyed (update_where (has_id i) t.change rows)
    go [] h = tt
    go (x ∷ rest) h =
        rw (changed_id i t.change x t.keeps_id)
          (IsKeyed-fresh i x.id t.change rest t.keeps_id h.0, go rest h.1)

pub IsKeyed-keep :
    (p : WebhookEvent → Bool) (xs : List WebhookEvent) → IsKeyed xs → IsKeyed (keep p xs)
IsKeyed-keep p [] d = tt
IsKeyed-keep p (x ∷ xs) d = elim (Bool-cases (p x)) [
  | inl e ↦ rw e (All-keep (λ y. has_id x.id y ≡ false) p xs d.0, IsKeyed-keep p xs d.1)
  | inr e ↦ rw e (IsKeyed-keep p xs d.1)
]

-- A row whose id no row has may be added.
pub IsKeyed-append :
    (xs : List WebhookEvent) (n : WebhookEvent)
    → IsKeyed xs
    → All (λ e. e.id < n.id) xs
    → IsKeyed (xs ++ n ∷ [])
IsKeyed-append [] n d b = (tt, tt)
IsKeyed-append (x ∷ xs) n d b = (
  All-append (λ y. has_id x.id y ≡ false) xs (n ∷ []) d.0 (ground arith, tt),
  IsKeyed-append xs n d.1 b.1,
)

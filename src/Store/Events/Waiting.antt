-- ===== src/Store/Events/Waiting.antt =====
-- What an update of one row does to the queues (internal/store/events.go).
use mathlib.Core.Path.{subst}
use liveurl.Prelude.{
  All, All-both, All-keep, All-weaken, Bool, Bool-cases, List, [], ap, arith, false, find_where,
  if◌then◌else◌, inl, inr, insert_by, insert_by-All, keep, keep-All, map, order_by, order_by-All,
  order_by-keep, order_by-map, refl, some, sym, true, update_where, ℕ, ◌==◌, ◌∙◌, ◌∷◌, ◌≡◌,
}
use liveurl.Store.{Db, WebhookEvent}
use liveurl.Store.Events.{has_id, queue, received_before, update_event}
use liveurl.Store.Events.Rows.{IsKeyed, IsKeyed-keep}
use liveurl.Store.Events.Fifo.{is_waiting, received_before-total, received_before_trans}

-- An update leaves what the queues are selected and ordered by, but for the state.
pub record KeepsPlace (f : WebhookEvent → WebhookEvent) : Type 0 where
  pub id : (e : WebhookEvent) → (f e).id ≡ e.id
  pub tunnel : (e : WebhookEvent) → (f e).tunnel_id ≡ e.tunnel_id
  pub received : (e : WebhookEvent) → (f e).received_at ≡ e.received_at

abbrev pub touch : ℕ → (WebhookEvent → WebhookEvent) → WebhookEvent → WebhookEvent
touch i f e = if has_id i e then f e else e

update_where-map :
    (i : ℕ) (f : WebhookEvent → WebhookEvent) (xs : List WebhookEvent)
    → update_where (has_id i) f xs ≡ map (touch i f) xs
update_where-map i f [] = refl
update_where-map i f (x ∷ xs) = ap (◌∷◌ (touch i f x)) (update_where-map i f xs)

-- The row of an id is the only one.
All-keyed :
    (i : ℕ) (P : WebhookEvent → Type 0) (xs : List WebhookEvent) (r : WebhookEvent)
    → IsKeyed xs
    → find_where (has_id i) xs ≡ some r
    → P r
    → All (λ x. has_id i x ≡ true → P x) xs
All-keyed i P [] r keyed found h = tt
All-keyed i P (x ∷ xs) r keyed found h = elim (Bool-cases (has_id i x)) [
  | inl this ↦ (
    λ _. let e : x ≡ r = ground (arith, this, found) in subst P (sym e) h,
    All-weaken (λ y. has_id x.id y ≡ false) (λ y. has_id i y ≡ true → P y) xs
        (λ y. no_other x y this) keyed.0,
  )
  | inr other ↦ (
    λ this. cc (other, this),
    All-keyed i P xs r keyed.1
        (let later : find_where (has_id i) xs ≡ some r = ground (arith, other, found) in later) h,
  )
]
  where
    no_other :
        (x y : WebhookEvent) → has_id i x ≡ true → has_id x.id y ≡ false → has_id i y ≡ true → P y
    no_other x y this other same = absurd (ground arith)

keep-map :
    (w : WebhookEvent → Bool) (g : WebhookEvent → WebhookEvent) (xs : List WebhookEvent)
    → All (λ x. w (g x) ≡ true → w x ≡ true) xs
    → keep w (map g xs) ≡ keep w (map g (keep w xs))
keep-map w g [] h = refl
keep-map w g (x ∷ xs) h = elim (Bool-cases (w x)) [
  | inl kept ↦ ground (arith, kept, keep-map w g xs h.1)
  | inr left ↦ elim (Bool-cases (w (g x))) [
    | inl new ↦ cc (h.0 new)
    | inr gone ↦ rw (left, gone) (keep-map w g xs h.1)
  ]
]

module _ (i : ℕ) (f : WebhookEvent → WebhookEvent) (k : KeepsPlace f) where
  touch-received_before :
      (a b : WebhookEvent) → received_before (touch i f a) (touch i f b) ≡ received_before a b
  touch-received_before a b = ground (arith, k.id a, k.id b, k.received a, k.received b)

  -- An update that puts no row into the queue of a tunnel changes that queue where it stands.
  pub queue-update_event :
      (t : ℕ) (db : Db)
      → All (λ x. is_waiting t (touch i f x) ≡ true → is_waiting t x ≡ true) db.events
      → queue t (update_event i f db) ≡ keep (is_waiting t) (map (touch i f) (queue t db))
  unfolding queue
  queue-update_event t db fits =
      ap (λ rows. order_by received_before (keep (is_waiting t) rows))
        (update_where-map i f db.events)
      ∙ (ap (order_by received_before) (keep-map (is_waiting t) (touch i f) db.events fits)
          ∙ (sym (
                order_by-keep received_before received_before-total received_before_trans
                  (is_waiting t) (map (touch i f) (keep (is_waiting t) db.events)))
              ∙ ap (keep (is_waiting t)) (
                  order_by-map received_before (touch i f) touch-received_before
                    (keep (is_waiting t) db.events))))

insert_by-IsKeyed :
    (x : WebhookEvent) (ys : List WebhookEvent)
    → IsKeyed (x ∷ ys)
    → IsKeyed (insert_by received_before x ys)
unfolding insert_by
insert_by-IsKeyed x [] h = h
insert_by-IsKeyed x (y ∷ ys) (fresh, keyed) = elim (Bool-cases (received_before x y)) [
  | inl first ↦ rw first (fresh, keyed)
  | inr later ↦ rw later (
    insert_by-All received_before (λ z. has_id y.id z ≡ false) x ys (ground (arith, fresh.0))
        keyed.0,
    insert_by-IsKeyed x ys (fresh.1, keyed.1),
  )
]

order_by-IsKeyed : (xs : List WebhookEvent) → IsKeyed xs → IsKeyed (order_by received_before xs)
unfolding order_by
order_by-IsKeyed [] h = tt
order_by-IsKeyed (x ∷ xs) h =
    insert_by-IsKeyed x (order_by received_before xs)
      (order_by-All received_before (λ y. has_id x.id y ≡ false) xs h.0, order_by-IsKeyed xs h.1)

pub queue-IsKeyed : (t : ℕ) (db : Db) → IsKeyed db.events → IsKeyed (queue t db)
unfolding queue
queue-IsKeyed t db h =
    order_by-IsKeyed (keep (is_waiting t) db.events) (IsKeyed-keep (is_waiting t) db.events h)

All-found :
    (xs : List WebhookEvent) → IsKeyed xs → All (λ x. find_where (has_id x.id) xs ≡ some x) xs
All-found [] h = tt
All-found (x ∷ xs) h = (
  ground arith,
  All-weaken (λ y. (find_where (has_id y.id) xs ≡ some y) × (has_id x.id y ≡ false))
      (λ y. find_where (has_id y.id) (x ∷ xs) ≡ some y) xs (λ y k. ground (arith, k.0, k.1))
      (All-both (λ y. find_where (has_id y.id) xs ≡ some y) (λ y. has_id x.id y ≡ false) xs
        (All-found xs h.1) h.0),
)

-- An event of a queue is the row of its id.
pub queue-found :
    (t : ℕ) (db : Db)
    → IsKeyed db.events
    → All (λ e. find_where (has_id e.id) db.events ≡ some e) (queue t db)
unfolding queue
queue-found t db h =
    order_by-All received_before (λ e. find_where (has_id e.id) db.events ≡ some e) _
      (All-keep (λ e. find_where (has_id e.id) db.events ≡ some e) (is_waiting t) db.events
        (All-found db.events h))

touch-others :
    (i : ℕ) (f : WebhookEvent → WebhookEvent) (xs : List WebhookEvent)
    → All (λ x. has_id i x ≡ false) xs
    → map (touch i f) xs ≡ xs
touch-others i f [] h = refl
touch-others i f (x ∷ xs) h = rw (h.0, touch-others i f xs h.1) refl

keep_everything :
    (w : WebhookEvent → Bool) (xs : List WebhookEvent) → All (λ x. w x ≡ true) xs → keep w xs ≡ xs
keep_everything w [] h = refl
keep_everything w (x ∷ xs) h = rw (h.0, keep_everything w xs h.1) refl

pub queue-waits : (t : ℕ) (db : Db) → All (λ e. is_waiting t e ≡ true) (queue t db)
unfolding queue
queue-waits t db =
    order_by-All received_before (λ e. is_waiting t e ≡ true) _ (keep-All (is_waiting t) db.events)

module _ (f : WebhookEvent → WebhookEvent) (k : KeepsPlace f) (t : ℕ) (db : Db)
    (keyed : IsKeyed db.events) (e : WebhookEvent) (es : List WebhookEvent)
    (front : queue t db ≡ e ∷ es) where
  head_found : find_where (has_id e.id) db.events ≡ some e
  head_found =
      let all : All (λ e. find_where (has_id e.id) db.events ≡ some e) (e ∷ es) =
        rw front at (queue-found t db keyed) in
      all.0

  head_waits : All (λ e. is_waiting t e ≡ true) (e ∷ es)
  head_waits = rw front at (queue-waits t db)

  others_keyed : All (λ x. has_id e.id x ≡ false) es
  others_keyed = let keyed' : IsKeyed (e ∷ es) = rw front at (queue-IsKeyed t db keyed) in keyed'.0

  -- An update of the queue's first event leaves it first, or takes it out of the queue.
  pub queue-update_head :
      queue t (update_event e.id f db) ≡ (if is_waiting t (f e) then f e ∷ es else es)
  queue-update_head =
      queue-update_event e.id f k t db (
        All-weaken (λ x. has_id e.id x ≡ true → is_waiting t x ≡ true)
          (λ x. is_waiting t (touch e.id f x) ≡ true → is_waiting t x ≡ true) db.events
          (λ x h. fits x h)
          (All-keyed e.id (λ x. is_waiting t x ≡ true) db.events e keyed head_found head_waits.0))
      ∙ (ap (λ q. keep (is_waiting t) (map (touch e.id f) q)) front ∙ kept)
    where
      fits :
          (x : WebhookEvent)
          → (has_id e.id x ≡ true → is_waiting t x ≡ true)
          → is_waiting t (touch e.id f x) ≡ true
          → is_waiting t x ≡ true
      fits x h w = elim (Bool-cases (has_id e.id x)) [
        | inl this ↦ h this
        | inr other ↦ rw other at w
      ]

      same_id : has_id e.id e ≡ true
      same_id = ground arith

      kept :
          keep (is_waiting t) (map (touch e.id f) (e ∷ es))
          ≡ (if is_waiting t (f e) then f e ∷ es else es)
      kept =
          rw
            (
              same_id,
              touch-others e.id f es others_keyed,
              keep_everything (is_waiting t) es head_waits.1,
            )
            refl

  -- It leaves the queues of the other tunnels.
  pub queue-update_other :
      (u : ℕ) → (t == u) ≡ false → queue u (update_event e.id f db) ≡ queue u db
  queue-update_other u other =
      queue-update_event e.id f k u db (
        All-weaken (λ x. has_id e.id x ≡ true → is_waiting u (f x) ≡ false)
          (λ x. is_waiting u (touch e.id f x) ≡ true → is_waiting u x ≡ true) db.events
          (λ x h. fits x h)
          (All-keyed e.id (λ x. is_waiting u (f x) ≡ false) db.events e keyed head_found elsewhere))
      ∙ (ap (keep (is_waiting u)) (touch-others e.id f (queue u db) apart)
          ∙ keep_everything (is_waiting u) (queue u db) (queue-waits u db))
    where
      elsewhere : is_waiting u (f e) ≡ false
      elsewhere = ground (arith, k.tunnel e, head_waits.0)

      fits :
          (x : WebhookEvent)
          → (has_id e.id x ≡ true → is_waiting u (f x) ≡ false)
          → is_waiting u (touch e.id f x) ≡ true
          → is_waiting u x ≡ true
      fits x h w = elim (Bool-cases (has_id e.id x)) [
        | inl this ↦ let w' : is_waiting u (f x) ≡ true = rw this at w in cc (h this, w')
        | inr beside ↦ rw beside at w
      ]

      separate :
          (x : WebhookEvent)
          → (find_where (has_id x.id) db.events ≡ some x) × (is_waiting u x ≡ true)
          → has_id e.id x ≡ false
      separate x (found, w) = elim (Bool-cases (has_id e.id x)) [
        | inl this ↦
            let i : x.id ≡ e.id = ground (arith, this) in
            let one : some x ≡ some e =
              sym found ∙ (ap (λ j. find_where (has_id j) db.events) i ∙ head_found) in
            absurd (ground (arith, one, w, head_waits.0, other))
        | inr beside ↦ beside
      ]

      apart : All (λ x. has_id e.id x ≡ false) (queue u db)
      apart =
          All-weaken (λ x. (find_where (has_id x.id) db.events ≡ some x) × (is_waiting u x ≡ true))
            (λ x. has_id e.id x ≡ false) (queue u db) (λ x h. separate x h)
            (All-both (λ x. find_where (has_id x.id) db.events ≡ some x)
              (λ x. is_waiting u x ≡ true) (queue u db) (queue-found u db keyed) (queue-waits u db))

-- ===== src/Store/Tunnels/Owner.antt =====
-- Who owns a subdomain (internal/store/tunnels.go).
use liveurl.Prelude.{
  Bool, List, Option, Option-cases, Text, [], any, arith, false, find_where, find_where-append,
  find_where-update_where, found_passes, inl, inr, none, not, refl, some, text_eq_iff, text_eq_refl,
  true, update_where, ℕ, ◌++◌, ◌==◌, ◌∷◌, ◌≡◌, ◌⊎◌,
}
use liveurl.Store.{Conn, Tunnel, database, err, ok, subdomain_taken}
use liveurl.Store.Hoare.{EndsAt, statement-cases}
use liveurl.Store.Tunnels.{
  claim_found, claim_tunnel, has_subdomain, has_tunnel_id, insert_tunnel, set_rules,
}

abbrev pub value_of : (Tunnel → ℕ) → Option Tunnel → Option ℕ
value_of f none = none
value_of f (some t) = some (f t)

abbrev pub owner_of : Option Tunnel → Option ℕ
owner_of o = value_of (λ t. t.user_id) o

-- The account that owns a subdomain, if one does.
abbrev pub owner : Text → List Tunnel → Option ℕ
owner s tunnels = owner_of (find_where (has_subdomain s) tunnels)

-- The number of a subdomain's tunnel, if there is one.
abbrev pub tunnel_of : Text → List Tunnel → Option ℕ
tunnel_of s tunnels = value_of (λ t. t.id) (find_where (has_subdomain s) tunnels)

-- What a claim keeps of the tunnels that are there.
module _ (f : Tunnel → ℕ)
    (kept : (rules : List Text) (t : Tunnel) → f (set_rules rules t) ≡ f t) where
  value_of-update_rules :
      (s : Text) (rules : List Text) (i : ℕ) (tunnels : List Tunnel)
      → value_of f
          (find_where (has_subdomain s) (update_where (has_tunnel_id i) (set_rules rules) tunnels))
        ≡ value_of f (find_where (has_subdomain s) tunnels)
  value_of-update_rules s rules i [] = refl
  value_of-update_rules s rules i (t ∷ tunnels) =
      ground (arith, kept rules t, value_of-update_rules s rules i tunnels)

  value_of-append :
      (s : Text) (t : Tunnel) (tunnels : List Tunnel) (w : ℕ)
      → value_of f (find_where (has_subdomain s) tunnels) ≡ some w
      → value_of f (find_where (has_subdomain s) (tunnels ++ t ∷ [])) ≡ some w
  value_of-append s t [] w h = cc
  value_of-append s t (x ∷ tunnels) w h = ground (arith, value_of-append s t tunnels w)

  claim_tunnel-value_of :
      (u : ℕ) (s : Text) (rules : List Text) (j : Text) (w : ℕ) (c : Conn)
      → value_of f (find_where (has_subdomain j) c.db.tunnels) ≡ some w
      → value_of f (find_where (has_subdomain j) (claim_tunnel u s rules c).1.db.tunnels) ≡ some w
  unfolding claim_tunnel
  claim_tunnel-value_of u s rules j w c known =
      elim (Option-cases (find_where (has_subdomain s) c.db.tunnels)) [
        | inl missing ↦
            let t : Tunnel = record {
              id = c.db.next_tunnel;
              user_id = u;
              subdomain = s;
              buffer_rules = rules;
            } in
            ground (arith, value_of-append j t c.db.tunnels w)
        | inr (t, found) ↦ ground (arith, value_of-update_rules j rules t.id c.db.tunnels)
      ]

found-any :
    (p : Tunnel → Bool) (xs : List Tunnel) (x : Tunnel) → find_where p xs ≡ some x → any p xs ≡ true
found-any p [] x h = cc
found-any p (y ∷ ys) x h = ground (arith, found-any p ys x)

module _ (u : ℕ) (s : Text) (rules : List Text) where
  -- Whatever fails, claiming a subdomain takes none from the account that owns it.
  pub claim_tunnel-owner :
      (j : Text) (w : ℕ) (c : Conn)
      → owner j c.db.tunnels ≡ some w
      → owner j (claim_tunnel u s rules c).1.db.tunnels ≡ some w
  claim_tunnel-owner j w c owns =
      claim_tunnel-value_of (λ t. t.user_id) (λ r t. refl) u s rules j w c owns

  pub claim_tunnel-tunnel_of :
      (j : Text) (w : ℕ) (c : Conn)
      → tunnel_of j c.db.tunnels ≡ some w
      → tunnel_of j (claim_tunnel u s rules c).1.db.tunnels ≡ some w
  claim_tunnel-tunnel_of j w c known =
      claim_tunnel-value_of (λ t. t.id) (λ r t. refl) u s rules j w c known

  -- A claim that succeeds returns the tunnel of that subdomain and account, and the account owns the
  -- subdomain afterwards; one that fails changes no tunnel.
  pub claim_tunnel_lem :
      (c : Conn)
      → EndsAt
          (λ t db'. (t.user_id ≡ u) × (t.subdomain ≡ s) × (owner s db'.tunnels ≡ some u))
          (λ db'. db'.tunnels ≡ c.db.tunnels)
          (claim_tunnel u s rules c)
  unfolding claim_tunnel
  claim_tunnel_lem c = elim (Option-cases (find_where (has_subdomain s) c.db.tunnels)) [
    | inl missing ↦
        let t : Tunnel = record {
          id = c.db.next_tunnel;
          user_id = u;
          subdomain = s;
          buffer_rules = rules;
        } in
        ground (arith, find_where-append (has_subdomain s) c.db.tunnels t, text_eq_refl s)
    | inr (t, found) ↦ ground (
      arith,
      value_of-update_rules (λ t. t.user_id) (λ r t. refl) s rules t.id c.db.tunnels,
      found_passes (has_subdomain s) c.db.tunnels t found,
      text_eq_iff t.subdomain s,
    )
  ]

  -- A claim of a subdomain that another account has in the table is refused, whatever statements fail and
  -- also where the SELECT did not find it yet, as two accounts claim it at one time: no tunnel changes.
  pub claim_found-refused :
      (t : Tunnel) (o : Option Tunnel) (c : Conn)
      → find_where (has_subdomain s) c.db.tunnels ≡ some t
      → (t.user_id == u) ≡ false
      → (o ≡ none) ⊎ (o ≡ some t)
      → let (r, c') = claim_found u s rules o c in
        ((r ≡ err subdomain_taken) ⊎ (r ≡ err database)) × (c'.db.tunnels ≡ c.db.tunnels)
  unfolding claim_found
  claim_found-refused t o c found other (inr read) =
      let foreign : not (t.user_id == u) ≡ true = ground (arith, other) in
      rw (read, foreign) (inl refl, refl)
  claim_found-refused t o c found other (inl unread) =
      let taken : any (has_subdomain s) c.db.tunnels ≡ true =
        found-any (has_subdomain s) c.db.tunnels t found in
      rw unread
        (elim (statement-cases (λ db. insert_tunnel u s rules (any (has_subdomain s) db.tunnels) db)
          c) [
            | inl (rest, run) ↦ rw (run, taken) (inr refl, refl)
            | inr (rest, broken) ↦ rw broken (inr refl, refl)
          ])

  -- An account that claims a subdomain of its own gets the rules that were stored before the call,
  -- while the table holds the new ones; on a database that does not fail.
  pub claim_tunnel-stale_rules :
      (t : Tunnel) (c : Conn)
      → c.faults ≡ []
      → find_where (has_subdomain s) c.db.tunnels ≡ some t
      → t.user_id ≡ u
      → let (r, c') = claim_tunnel u s rules c in
        (r ≡ ok t)
        × (find_where (has_subdomain s) c'.db.tunnels ≡ some (record t { buffer_rules = rules }))
  unfolding claim_tunnel
  claim_tunnel-stale_rules t c quiet found own = ground (
    arith,
    find_where-update_where (has_subdomain s) (has_tunnel_id t.id) (set_rules rules) c.db.tunnels
        (λ x. refl),
  )

-- ===== src/Store/Tests.antt =====
-- Tests of the store (internal/store).
use mathlib.Core.List.{Perm}
use liveurl.Store.Migrations.Names.{AreInOrder}
use liveurl.Store.Migrations.Progress.{AppliedTo, migrate-once, starts}
use liveurl.Store.Migrations.{Migration, migrate, sorted_files}
use liveurl.Prelude.{
  Bool, List, [], codes, false, find_where, inl, map, none, refl, some, text_eq, true, ℕ, ◌++◌, ◌∷◌,
  ◌≡◌, ◌⊎◌,
}
use liveurl.Store.{database, err, ok, subdomain_taken, transaction}
use liveurl.Store.Hoare.{EndsAt}
use liveurl.Store.Atomic.{Transacted, transaction-Transacted}
use liveurl.Store.Users.{User, sign_up, token_of, user_by_token, verify_password}
use liveurl.Store.Users.Accounts.{Unchanged, sign_up-atomic, sign_up_lem}
use liveurl.Store.Tunnels.{claim_found, claim_tunnel, has_subdomain}
use liveurl.Store.Tunnels.Owner.{claim_found-refused, claim_tunnel-stale_rules}
use liveurl.Store.Events.{enqueue_event, new_event, queue}
use liveurl.Store.Events.Fifo.{Refused, enqueue_event-fifo}
use liveurl.Store.Snapshots.{put_snapshot, upsert_snapshot}
use liveurl.Store.Snapshots.Cap.{Stored, put_snapshot-Stored}
use liveurl.Fixtures.{plain_crypto, quiet_conn, shop, two_events, two_events-IsValid, with_faults}

put_snapshot-Stored_example :
    Stored 7
      (codes "/")
      []
      (codes "text/html")
      []
      (some (codes "page"))
      (with_faults (false ∷ false ∷ true ∷ []))
      (put_snapshot 7
        (codes "/")
        []
        (codes "text/html")
        []
        (some (codes "page"))
        (with_faults (false ∷ false ∷ true ∷ [])))
put_snapshot-Stored_example =
    put_snapshot-Stored 7 (codes "/") [] (codes "text/html") [] (some (codes "page"))
      (with_faults (false ∷ false ∷ true ∷ []))

enqueue_event-fifo_example :
    EndsAt
      (λ id db'.
        (id ≡ 3)
        × (queue 7 db'
            ≡ queue 7 two_events
              ++ new_event two_events 7 (codes "POST") (codes "/x") [] [] (codes "b") ∷ []))
      (Refused 7 two_events)
      (enqueue_event 7 (codes "POST") (codes "/x") [] [] (codes "b") quiet_conn)
enqueue_event-fifo_example =
    enqueue_event-fifo 7 7 (codes "POST") (codes "/x") [] [] (codes "b") quiet_conn
      two_events-IsValid

-- Another account's insert, once shop has been claimed.
claim_found-refused_example :
    let (r, c') = claim_found 2 (codes "shop") [] none quiet_conn in
    ((r ≡ err subdomain_taken) ⊎ (r ≡ err database)) × (c'.db.tunnels ≡ two_events.tunnels)
unfolding text_eq
claim_found-refused_example =
    claim_found-refused 2 (codes "shop") [] shop none quiet_conn refl refl (inl refl)

claim_tunnel-stale_rules_example :
    let (r, c') = claim_tunnel 1 (codes "shop") [] quiet_conn in
    (r ≡ ok shop)
    × (find_where (has_subdomain (codes "shop")) c'.db.tunnels
        ≡ some (record shop { buffer_rules = [] }))
unfolding text_eq
claim_tunnel-stale_rules_example =
    claim_tunnel-stale_rules 1 (codes "shop") [] shop quiet_conn refl refl refl

sign_up_lem_example :
    let (r, c') =
      sign_up plain_crypto (some (1 ∷ [])) (codes "n@b.c") (codes "password") quiet_conn in
    let u : User = record { id = 2; email = codes "n@b.c" } in
    (r ≡ ok (u, token_of (1 ∷ [])))
    × ((user_by_token plain_crypto (token_of (1 ∷ [])) c').0 ≡ ok u)
    × ((verify_password plain_crypto (codes "n@b.c") (codes "password") c').0 ≡ ok u)
unfolding text_eq
sign_up_lem_example =
    sign_up_lem plain_crypto (1 ∷ []) (codes "n@b.c") (codes "password") (codes "hpassword")
      quiet_conn refl refl refl refl refl refl

sign_up-atomic_example : Unchanged plain_crypto two_events (
    sign_up plain_crypto none
      (codes "n@b.c")
      (codes "password")
      (with_faults (false ∷ false ∷ true ∷ [])))
sign_up-atomic_example =
    sign_up-atomic plain_crypto none (codes "n@b.c") (codes "password")
      (with_faults (false ∷ false ∷ true ∷ []))

transaction-Transacted_example :
    Transacted
      (upsert_snapshot 7 (codes "/") [] [] [] none)
      (with_faults (false ∷ true ∷ []))
      (transaction (upsert_snapshot 7 (codes "/") [] [] [] none) (with_faults (false ∷ true ∷ [])))
transaction-Transacted_example =
    transaction-Transacted (upsert_snapshot 7 (codes "/") [] [] [] none)
      (with_faults (false ∷ true ∷ []))

-- Three scripts, not in order.
abbrev scripts : List Migration
scripts =
    record { name = codes "0002_b.sql"; sql = codes "b" }
    ∷ record { name = codes "0001_a.sql"; sql = codes "a" }
    ∷ record { name = codes "0003_c.sql"; sql = codes "c" }
    ∷ []

-- Starts that fail at the first script's commit, and at the second script.
abbrev broken_starts : List (List Bool)
broken_starts =
    (false ∷ false ∷ false ∷ false ∷ false ∷ false ∷ true ∷ [])
    ∷ (false ∷ false ∷ false ∷ false ∷ false ∷ false ∷ false ∷ false ∷ false ∷ false ∷ true ∷ [])
    ∷ []

migrate-once_example :
    let s = starts scripts broken_starts (record { versions = []; ran = [] }) in
    let (done, (s', rest)) = migrate scripts s [] in
    (done ≡ true)
    × ((order : List Migration) × Perm order scripts
        × AreInOrder order
        × ((k : ℕ) × AppliedTo order k s)
        × (s'.ran ≡ map (λ (m : Migration). m.sql) order))
unfolding sorted_files text_eq
migrate-once_example =
    migrate-once scripts broken_starts ((refl, (refl, tt)), ((refl, tt), (tt, tt)))

migrate_runs :
    (migrate scripts (record { versions = []; ran = [] }) []).1.0.ran
    ≡ codes "a" ∷ codes "b" ∷ codes "c" ∷ []
unfolding migrate text_eq
migrate_runs = refl

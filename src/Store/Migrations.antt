-- ===== src/Store/Migrations.antt =====
-- internal/store/store.go, Migrate: the embedded scripts are applied in the order of their names, each
-- in a transaction with the row that records it. The schema is known by the scripts that have run.
pub mod Names
pub mod Progress
use liveurl.Prelude.{
  Bool, List, Text, [], any, false, if◌then◌else◌, ltb, order_by, suc, text_eq, true, zero, ℕ, ◌++◌,
  ◌∷◌,
}

-- A file of the directory `migrations`.
pub record Migration : Type 0 where
  pub name : Text
  pub sql : Text

pub record Schema : Type 0 where
  pub versions : List Text
  pub ran : List Text

-- The order of `sort.Strings`
unfoldable pub text_before : Text → Text → Bool
text_before [] t = true
text_before (a ∷ s) [] = false
text_before (a ∷ s) (b ∷ t) =
    let rest = text_before s t in if ltb a b then true else if ltb b a then false else rest

abbrev pub name_before : Migration → Migration → Bool
unfolding text_before
name_before a b = text_before a.name b.name

unfoldable pub sorted_files : List Migration → List Migration
unfolding name_before order_by
sorted_files files = order_by name_before files

-- Whether one of the next `n` statements fails; a failure ends them.
unfoldable pub fails_within : ℕ → List Bool → Bool × List Bool
fails_within zero faults = (false, faults)
fails_within (suc n) [] = (false, [])
fails_within (suc n) (true ∷ faults) = (true, faults)
fails_within (suc n) (false ∷ faults) = fails_within n faults

-- What an attempt leaves, and whether there was no error.
abbrev pub Migrated : Type 0
Migrated = Bool × (Schema × List Bool)

abbrev pub add_version : Migration → Schema → Schema
add_version m s = record { versions = s.versions ++ m.name ∷ []; ran = s.ran ++ m.sql ∷ [] }

-- Begin, the script, the row of schema_migrations and Commit; an error rolls back.
unfoldable pub apply_migration : Migration → Schema → List Bool → Migrated
unfolding fails_within
apply_migration m s faults =
    let (failed, rest) = fails_within 4 faults in
    if failed then (false, (s, rest)) else (true, (add_version m s, rest))

unfoldable pub apply_missing : List Migration → Schema → List Bool → Migrated
unfolding apply_migration fails_within text_eq
apply_missing [] s faults = (true, (s, faults))
apply_missing (m ∷ files) s faults =
    let (failed, rest) = fails_within 1 faults in
    let (done, (s', rest')) = apply_migration m s rest in
    let skipped = apply_missing files s rest in
    let next = apply_missing files s' rest' in
    if failed
    then (false, (s, rest))
    else if any (text_eq m.name) s.versions
    then skipped
    else if done
    then next
    else (false, (s', rest'))

-- Acquire, the advisory lock and CREATE TABLE IF NOT EXISTS, and then the loop. The unlock comes last
-- and its error is ignored.
unfoldable pub migrate : List Migration → Schema → List Bool → Migrated
unfolding sorted_files apply_missing fails_within
migrate files s faults =
    let (failed, rest) = fails_within 3 faults in
    if failed then (false, (s, rest)) else apply_missing (sorted_files files) s rest

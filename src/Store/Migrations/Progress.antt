-- ===== src/Store/Migrations/Progress.antt =====
-- How far the migrations have come (internal/store/store.go, Migrate).
use mathlib.Core.List.{Perm}
use mathlib.Core.List.{append_assoc}
use mathlib.Core.List.{map-append}
use mathlib.Core.List.{append-nil}
use liveurl.Store.Migrations.Names.{AreInOrder, sorted_files-AreInOrder, sorted_files-Perm}
use liveurl.Prelude.{
  All, Bool, List, Text, [], any, ap, arith, choose, choose_by, false, if◌then◌else◌, length, map,
  refl, suc, sym, take, text_eq, text_eq_refl, true, true≢false, zero, ℕ, ◌++◌, ◌∙◌, ◌∷◌, ◌≡◌, ◌≤◌,
}
use liveurl.Store.Migrations.{
  Migrated, Migration, Schema, add_version, apply_migration, apply_missing, fails_within, migrate,
  sorted_files,
}

abbrev pub names : List Migration → List Text
names files = map (λ (m : Migration). m.name) files

-- No two files have one name.
abbrev pub AreDistinct : List Migration → Type 0
AreDistinct [] = Unit
AreDistinct (m ∷ files) = All (λ n. text_eq n.name m.name ≡ false) files × AreDistinct files

-- The first files, `k` of them, are applied, in their order and each once.
abbrev pub AppliedTo : List Migration → ℕ → Schema → Type 0
AppliedTo files k s =
    (s.versions ≡ names (take k files)) × (s.ran ≡ map (λ (m : Migration). m.sql) (take k files))

-- What an attempt has done, where the files `pre` are behind: it has gone on from `k` of the rest, and to
-- the end if there was no error.
abbrev Moves : List Migration → List Migration → ℕ → Migrated → Type 0
Moves pre files k (done, (s, rest)) =
    (m : ℕ) × (k ≤ m)
    × (s.versions ≡ names (pre ++ take m files))
    × (s.ran ≡ map (λ (m : Migration). m.sql) (pre ++ take m files))
    × (done ≡ true → length files ≤ m)

apply_migration-done :
    (f : Migration) (s : Schema) (faults : List Bool)
    → (apply_migration f s faults).1.0
      ≡ (if (apply_migration f s faults).0 then add_version f s else s)
unfolding apply_migration
apply_migration-done f s faults = ground arith

-- A name that comes later is not among the versions.
not-yet :
    (pre : List Migration) (f : Migration) (files : List Migration)
    → AreDistinct (pre ++ f ∷ files)
    → any (text_eq f.name) (names (pre ++ [])) ≡ false
not-yet [] f files h = refl
not-yet (p ∷ pre) f files h =
    let apart : text_eq f.name p.name ≡ false = middle pre h.0 in
    ground (arith, apart, not-yet pre f files h.1)
  where
    middle :
        (pre : List Migration)
        → All (λ n. text_eq n.name p.name ≡ false) (pre ++ f ∷ files)
        → text_eq f.name p.name ≡ false
    middle [] h = h.0
    middle (q ∷ pre) h = middle pre h.1

already :
    (pre : List Migration) (f : Migration) (files : List Migration)
    → any (text_eq f.name) (names (pre ++ f ∷ files)) ≡ true
already [] f files = rw (text_eq_refl f.name) refl
already (p ∷ pre) f files = ground (arith, already pre f files)

-- A file of the rest is behind now.
Moves-behind :
    (pre : List Migration) (f : Migration) (files : List Migration) (k : ℕ) (r : Migrated)
    → Moves (pre ++ f ∷ []) files k r
    → Moves pre (f ∷ files) (suc k) r
Moves-behind pre f files k r (m, further, v, ran, all) = (
  suc m,
  omega (arith, further),
  v ∙ ap names (append_assoc pre (f ∷ []) (take m files)),
  ran ∙ ap (map (λ (m : Migration). m.sql)) (append_assoc pre (f ∷ []) (take m files)),
  λ e. omega (arith, all e),
)

Moves-weaken :
    (pre files : List Migration) (k : ℕ) (r : Migrated)
    → Moves pre files (suc k) r
    → Moves pre files k r
Moves-weaken pre files k r (m, further, v, ran, all) = (m, omega (arith, further), v, ran, all)

-- An attempt that is broken off.
Moves-stop :
    (pre files : List Migration) (k : ℕ) (s : Schema) (faults : List Bool)
    → s.versions ≡ names (pre ++ take k files)
    → s.ran ≡ map (λ (m : Migration). m.sql) (pre ++ take k files)
    → Moves pre files k (false, (s, faults))
Moves-stop pre files k s faults v r = (k, omega arith, v, r, λ e. absurd (true≢false (sym e)))

apply_missing-Moves :
    (pre files : List Migration) (k : ℕ) (s : Schema) (faults : List Bool)
    → AreDistinct (pre ++ files)
    → s.versions ≡ names (pre ++ take k files)
    → s.ran ≡ map (λ (m : Migration). m.sql) (pre ++ take k files)
    → Moves pre files k (apply_missing files s faults)
unfolding apply_missing
apply_missing-Moves pre [] k s faults apart v r = (k, omega arith, v, r, λ _. omega arith)
apply_missing-Moves pre (f ∷ files) zero s faults apart v r =
    let first = fails_within 1 faults in
    let one = apply_migration f s first.1 in
    let P = Moves pre (f ∷ files) 0 in
    choose_by P first.0 (false, (s, first.1)) _
      (λ failed. Moves-stop pre (f ∷ files) 0 s first.1 v r)
      (λ _.
        choose_by P (any (text_eq f.name) s.versions) (apply_missing files s first.1) _
          (λ known. absurd (true≢false (sym known ∙ rw v (not-yet pre f files apart))))
          (λ _.
            choose_by P one.0 (apply_missing files one.1.0 one.1.1) (false, one.1)
              (λ done.
                let added : one.1.0 ≡ add_version f s =
                  apply_migration-done f s first.1 ∙ rw done refl in
                Moves-weaken pre (f ∷ files) 0 (apply_missing files one.1.0 one.1.1) (
                  Moves-behind pre f files 0 (apply_missing files one.1.0 one.1.1) (
                    apply_missing-Moves (pre ++ f ∷ []) files 0 one.1.0 one.1.1
                      (rw (append_assoc pre (f ∷ []) files) apart)
                      (ap (λ (s : Schema). s.versions) added ∙ rw v (simp (append-nil, map-append)))
                      (ap (λ (s : Schema). s.ran) added ∙ rw r (simp (append-nil, map-append))))))
              (λ undone.
                let kept : one.1.0 ≡ s = apply_migration-done f s first.1 ∙ rw undone refl in
                Moves-stop pre (f ∷ files) 0 one.1.0 one.1.1 (rw kept v) (rw kept r))))
apply_missing-Moves pre (f ∷ files) (suc k) s faults apart v r =
    let first = fails_within 1 faults in
    let P = Moves pre (f ∷ files) (suc k) in
    choose_by P first.0 (false, (s, first.1)) _
      (λ failed. Moves-stop pre (f ∷ files) (suc k) s first.1 v r)
      (λ _.
        choose_by P (any (text_eq f.name) s.versions) (apply_missing files s first.1) _
          (λ known. Moves-behind pre f files k (apply_missing files s first.1) (
            apply_missing-Moves (pre ++ f ∷ []) files k s first.1
              (rw (append_assoc pre (f ∷ []) files) apart)
              (v ∙ ap names (sym (append_assoc pre (f ∷ []) (take k files))))
              (r
                ∙ ap (map (λ (m : Migration). m.sql))
                    (sym (append_assoc pre (f ∷ []) (take k files))))))
          (λ unknown. absurd (true≢false (sym (rw v (already pre f (take k files))) ∙ unknown))))

-- One start of the server after another, each with the statements that fail.
unfoldable pub starts : List Migration → List (List Bool) → Schema → Schema
starts files [] s = s
starts files (faults ∷ rest) s = starts files rest (migrate files s faults).1.0

migrate-Moves :
    (files : List Migration) (k : ℕ) (s : Schema) (faults : List Bool)
    → AreDistinct (sorted_files files)
    → AppliedTo (sorted_files files) k s
    → Moves [] (sorted_files files) k (migrate files s faults)
unfolding migrate
migrate-Moves files k s faults apart (v, r) =
    choose (Moves [] (sorted_files files) k) (fails_within 3 faults).0
      (false, (s, (fails_within 3 faults).1))
      (apply_missing (sorted_files files) s (fails_within 3 faults).1)
      (Moves-stop [] (sorted_files files) k s (fails_within 3 faults).1 v r)
      (apply_missing-Moves [] (sorted_files files) k s (fails_within 3 faults).1 apart v r)

starts-AppliedTo :
    (files : List Migration) (runs : List (List Bool)) (k : ℕ) (s : Schema)
    → AreDistinct (sorted_files files)
    → AppliedTo (sorted_files files) k s
    → (m : ℕ) × (k ≤ m) × AppliedTo (sorted_files files) m (starts files runs s)
unfolding starts
starts-AppliedTo files [] k s apart applied = (k, omega arith, applied)
starts-AppliedTo files (faults ∷ runs) k s apart applied =
    let (m, further, v, r, all) = migrate-Moves files k s faults apart applied in
    let (n, on, applied') =
      starts-AppliedTo files runs m (migrate files s faults).1.0 apart (v, r) in
    (n, omega (arith, further, on), applied')

take-all : {A : Type 0} (n : ℕ) (xs : List A) → length xs ≤ n → take n xs ≡ xs
take-all zero [] h = refl
take-all zero (x ∷ xs) h = absurd (omega (arith, h))
take-all (suc n) [] h = refl
take-all (suc n) (x ∷ xs) h = ap (◌∷◌ x) (take-all n xs (omega (arith, h)))

apply_missing-quiet : (files : List Migration) (s : Schema) → (apply_missing files s []).0 ≡ true
unfolding apply_missing apply_migration fails_within
apply_missing-quiet [] s = refl
apply_missing-quiet (f ∷ files) s =
    choose (λ (r : Migrated). r.0 ≡ true) (any (text_eq f.name) s.versions)
      (apply_missing files s []) _ (apply_missing-quiet files s)
      (apply_missing-quiet files (add_version f s))

migrate-quiet : (files : List Migration) (s : Schema) → (migrate files s []).0 ≡ true
unfolding migrate fails_within
migrate-quiet files s = apply_missing-quiet (sorted_files files) s

-- From an empty schema, after any number of starts that fail at any statements, the first scripts have run,
-- each once and in the order of their names by bytes; and a start on which no statement fails then ends
-- without an error, with every script run exactly once in that order. No two files have one name.
pub migrate-once :
    (files : List Migration) (runs : List (List Bool))
    → AreDistinct (sorted_files files)
    → let s = starts files runs (record { versions = []; ran = [] }) in
      let (done, (s', rest)) = migrate files s [] in
      (done ≡ true)
      × ((order : List Migration) × Perm order files
          × AreInOrder order
          × ((k : ℕ) × AppliedTo order k s)
          × (s'.ran ≡ map (λ (m : Migration). m.sql) order))
migrate-once files runs apart =
    let s = starts files runs (record { versions = []; ran = [] }) in
    let (k, _, applied) =
      starts-AppliedTo files runs 0 (record { versions = []; ran = [] }) apart (refl, refl) in
    let (m, further, v, r, all) = migrate-Moves files k s [] apart applied in
    (
      migrate-quiet files s,
      (
        sorted_files files,
        sorted_files-Perm files,
        sorted_files-AreInOrder files,
        (k, applied),
        r
            ∙ ap (map (λ (m : Migration). m.sql))
                (take-all m (sorted_files files) (all (migrate-quiet files s))),
      ),
    )

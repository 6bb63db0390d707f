-- ===== src/Store/Migrations/Names.antt =====
-- The order in which the scripts are applied (internal/store/store.go, Migrate, the call of
-- sort.Strings), described without the code.
use mathlib.Core.List.{Perm}
use liveurl.Prelude.{
  All, All-weaken, Bool-cases, IsOrdered, List, Text, [], arith, false, inl, inr, ltb,
  order_by-IsOrdered, order_by-perm, refl, sym, true, true≢false, ℕ, ◌<◌, ◌∙◌, ◌∷◌, ◌≡◌,
}
use liveurl.Store.Migrations.{Migration, name_before, sorted_files, text_before}

-- The order of texts by their bytes: at the first difference the smaller byte, or the end, comes first.
pub data IsBefore : Text → Text → Type 0 where
  ends : {t : Text} → IsBefore [] t
  smaller : {a b : ℕ} {s t : Text} → a < b → IsBefore (a ∷ s) (b ∷ t)
  same : {a : ℕ} {s t : Text} → IsBefore s t → IsBefore (a ∷ s) (a ∷ t)

-- Each file before all that come later.
abbrev pub AreInOrder : List Migration → Type 0
AreInOrder [] = Unit
AreInOrder (m ∷ files) = All (λ n. IsBefore m.name n.name) files × AreInOrder files

text_before-IsBefore : (s t : Text) → text_before s t ≡ true → IsBefore s t
unfolding text_before
text_before-IsBefore [] t h = ends
text_before-IsBefore (a ∷ s) [] h = cc
text_before-IsBefore (a ∷ s) (b ∷ t) h = elim (Bool-cases (ltb a b)) [
  | inl less ↦ smaller (ground (arith, less))
  | inr more ↦ elim (Bool-cases (ltb b a)) [
    | inl greater ↦ absurd (true≢false (sym h ∙ rw (more, greater) refl))
    | inr least ↦
        let is : a ≡ b = ground (arith, more, least) in
        let rest : text_before s t ≡ true = ground (arith, h, more, least) in
        rw is (same (text_before-IsBefore s t rest))
  ]
]

text_before_total : (s t : Text) → text_before s t ≡ false → text_before t s ≡ true
unfolding text_before
text_before_total [] t h = cc
text_before_total (a ∷ s) [] h = refl
text_before_total (a ∷ s) (b ∷ t) h = ground (arith, h, text_before_total s t)

text_before_trans :
    (s t u : Text) → text_before s t ≡ true → text_before t u ≡ true → text_before s u ≡ true
unfolding text_before
text_before_trans [] t u h k = refl
text_before_trans (a ∷ s) [] u h k = cc
text_before_trans (a ∷ s) (b ∷ t) [] h k = cc
text_before_trans (a ∷ s) (b ∷ t) (c ∷ u) h k = ground (arith, h, k, text_before_trans s t u)

IsOrdered-AreInOrder : (files : List Migration) → IsOrdered name_before files → AreInOrder files
unfolding name_before text_before
IsOrdered-AreInOrder [] h = tt
IsOrdered-AreInOrder (m ∷ files) (first, h) = (
  All-weaken (λ n. name_before m n ≡ true) (λ n. IsBefore m.name n.name) files
      (λ n e. text_before-IsBefore m.name n.name e) first,
  IsOrdered-AreInOrder files h,
)

pub sorted_files-AreInOrder : (files : List Migration) → AreInOrder (sorted_files files)
unfolding sorted_files
sorted_files-AreInOrder files = IsOrdered-AreInOrder (sorted_files files) (
    order_by-IsOrdered name_before (λ m n h. text_before_total m.name n.name h)
      (λ m n o h k. text_before_trans m.name n.name o.name h k) files)

pub sorted_files-Perm : (files : List Migration) → Perm (sorted_files files) files
unfolding sorted_files
sorted_files-Perm files = order_by-perm name_before files

-- ===== src/Glob/Relation.antt =====
-- What a pattern of `path.Match` means: the matcher decides a relation on whole texts.
use liveurl.Prelude.{
  All, Bool-cases, List, Text, [], ap, arith, false, inl, inr, refl, true, ℕ, ◌++◌, ◌==◌, ◌↔◌, ◌∷◌,
  ◌≡◌, ◌≢◌,
}
use liveurl.Glob.{Token, any_char, class, lit, matches, star, takes}

abbrev pub NotSlash : ℕ → Type 0
NotSlash c = (c == b'/') ≡ false

-- A star stands for a run without a slash; every other token stands for one byte that it takes.
pub data Matches : List Token → Text → Type 0 where
  done : Matches [] []
  run :
      {ts : List Token} {s : Text} (a b : Text)
      → s ≡ a ++ b
      → All NotSlash a
      → Matches ts b
      → Matches (star ∷ ts) s
  one :
      {t : Token} {ts : List Token} {c : ℕ} {s : Text}
      → t ≢ star
      → takes t c ≡ true
      → Matches ts s
      → Matches (t ∷ ts) (c ∷ s)

matches-star :
    (ts : List Token) (a b : Text)
    → All NotSlash a
    → matches ts b ≡ true
    → matches (star ∷ ts) (a ++ b) ≡ true
unfolding matches
matches-star ts [] [] h m = m
matches-star ts [] (c ∷ b) h m = ground arith
matches-star ts (c ∷ a) b h m = ground (arith, matches-star ts a b h.1 m)

pub matches_complete : {ts : List Token} {s : Text} → Matches ts s → matches ts s ≡ true
unfolding matches
matches_complete done = refl
matches_complete (run {ts} a b e h m) = rw e (matches-star ts a b h (matches_complete m))
matches_complete (one {t = star} ne k m) = absurd (ne refl)
matches_complete (one {t = any_char} ne k m) = let ih = matches_complete m in ground arith
matches_complete (one {t = lit d} ne k m) = let ih = matches_complete m in ground arith
matches_complete (one {t = class n rs} ne k m) = let ih = matches_complete m in ground arith

Matches-longer :
    {ts : List Token} {s : Text} (c : ℕ)
    → NotSlash c
    → Matches (star ∷ ts) s
    → Matches (star ∷ ts) (c ∷ s)
Matches-longer c h (run a b e k m) = run (c ∷ a) b (ap (λ (s : Text). c ∷ s) e) (h, k) m
Matches-longer c h (one ne k m) = absurd (ne refl)

pub matches_sound : (ts : List Token) (s : Text) → matches ts s ≡ true → Matches ts s
unfolding matches
matches_sound [] [] h = done
matches_sound [] (c ∷ s) h = cc
matches_sound (star ∷ ts) [] h = run [] [] refl tt (matches_sound ts [] h)
matches_sound (star ∷ ts) (c ∷ s) h = elim (Bool-cases (matches ts (c ∷ s))) [
  | inl here ↦ run [] (c ∷ s) refl tt (matches_sound ts (c ∷ s) here)
  | inr later ↦ Matches-longer c (ground arith) (matches_sound (star ∷ ts) s (ground arith))
]
matches_sound (any_char ∷ ts) [] h = cc
matches_sound (any_char ∷ ts) (c ∷ s) h =
    one (λ e. cc) (ground arith) (matches_sound ts s (ground arith))
matches_sound (lit d ∷ ts) [] h = cc
matches_sound (lit d ∷ ts) (c ∷ s) h =
    one (λ e. cc) (ground arith) (matches_sound ts s (ground arith))
matches_sound (class n rs ∷ ts) [] h = cc
matches_sound (class n rs ∷ ts) (c ∷ s) h =
    one (λ e. cc) (ground arith) (matches_sound ts s (ground arith))

-- The matcher accepts a text just when the tokens match it: a star stands for a run of bytes without
-- a slash, and every other token for one byte that it takes.
matches_iff : (ts : List Token) (s : Text) → (matches ts s ≡ true) ↔ Matches ts s
matches_iff ts s = (matches_sound ts s, matches_complete)

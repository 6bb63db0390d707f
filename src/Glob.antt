-- ===== src/Glob.antt =====
-- Go's `path.Match`, which internal/edge/classify calls on a tunnel's buffer rules, for patterns and
-- paths in ASCII. A pattern that is malformed matches nothing, as the caller drops the error.
pub mod Relation
use mathlib.Core.Option
use liveurl.Prelude.{
  Bool, List, Option, Text, [], any, codes, false, if◌then◌else◌, leb, length, map, none, not, refl,
  some, suc, true, zero, ℕ, ◌&&◌, ◌++◌, ◌==◌, ◌||◌, ◌∷◌, ◌≡◌,
}

pub data Token : Type 0 where
  star any_char : Token
  lit : ℕ → Token
  class : Bool → List (ℕ × ℕ) → Token

abbrev backslash : ℕ
backslash = 92

-- One end of a range. It must not be the end of the pattern, nor a bare `-` or `]`.
get_esc : Text → Option (ℕ × Text)
get_esc (c ∷ d ∷ e ∷ s) =
    if c == b'-' || c == b']'
    then none
    else if c == backslash
    then some (d, e ∷ s)
    else some (c, d ∷ e ∷ s)
get_esc (c ∷ d ∷ []) = if c == b'-' || (c == b']' || c == backslash) then none else some (c, d ∷ [])
get_esc _ = none

abbrev then_range : ℕ → Option (ℕ × Text) → Option ((ℕ × ℕ) × Text)
then_range lo none = none
then_range lo (some (hi, s)) = some ((lo, hi), s)

abbrev range_from : ℕ → Text → Option ((ℕ × ℕ) × Text)
range_from lo [] = some ((lo, lo), [])
range_from lo (c ∷ s) = if c == b'-' then then_range lo (get_esc s) else some ((lo, lo), c ∷ s)

get_range : Text → Option ((ℕ × ℕ) × Text)
unfolding get_esc
get_range s = elim (get_esc s) [ none ↦ none | some (lo, rest) ↦ range_from lo rest ]

abbrev Ranges : Type 0
Ranges = List (ℕ × ℕ)

abbrev closing : Ranges → Text → Option (Ranges × Text) → Option (Ranges × Text)
closing [] s more = more
closing (r ∷ rs) [] more = more
closing (r ∷ rs) (c ∷ s) more = if c == b']' then some (r ∷ rs, s) else more

-- The ranges up to the bracket that closes the class; there is at least one.
get_ranges : ℕ → Ranges → Text → Option (Ranges × Text)
unfolding get_range
get_ranges zero acc s = none
get_ranges (suc fuel) acc s =
    let more : Option (Ranges × Text) = elim (get_range s) [
      | none ↦ none
      | some (r, rest) ↦ get_ranges fuel (acc ++ r ∷ []) rest
    ] in
    closing acc s more

abbrev one_class : Bool → Option (Ranges × Text) → Option (Token × Text)
one_class negated none = none
one_class negated (some (rs, rest)) = some (class negated rs, rest)

get_class : Text → Option (Token × Text)
unfolding get_ranges
get_class [] = none
get_class (c ∷ s) =
    if c == b'^'
    then one_class true (get_ranges (length s) [] s)
    else one_class false (get_ranges (length (c ∷ s)) [] (c ∷ s))

abbrev escaped : Text → Option (Token × Text)
escaped [] = none
escaped (c ∷ s) = some (lit c, s)

next_token : ℕ → Text → Option (Token × Text)
unfolding get_class
next_token c s =
    if c == b'*'
    then some (star, s)
    else if c == b'?'
    then some (any_char, s)
    else if c == b'['
    then get_class s
    else if c == backslash
    then escaped s
    else some (lit c, s)

-- Each token takes a byte at least: the length of the pattern is fuel enough.
tokens : ℕ → Text → Option (List Token)
unfolding next_token
tokens fuel [] = some []
tokens zero (c ∷ s) = none
tokens (suc fuel) (c ∷ s) = elim (next_token c s) [
  | none ↦ none
  | some (t, rest) ↦ Option.map (λ ts. t ∷ ts) (tokens fuel rest)
]

abbrev in_ranges : Ranges → ℕ → Bool
in_ranges rs c = any (λ r. leb r.0 c && leb c r.1) rs

unfoldable pub takes : Token → ℕ → Bool
takes star c = not (c == b'/')
takes any_char c = not (c == b'/')
takes (lit d) c = d == c
takes (class negated rs) c = if negated then not (in_ranges rs c) else in_ranges rs c

-- A star stands for any run of bytes without a slash.
unfoldable pub matches : List Token → Text → Bool
unfolding takes
matches [] [] = true
matches [] (c ∷ s) = false
matches (star ∷ ts) [] = matches ts []
matches (star ∷ ts) (c ∷ s) = matches ts (c ∷ s) || (takes star c && matches (star ∷ ts) s)
matches (any_char ∷ ts) [] = false
matches (any_char ∷ ts) (c ∷ s) = takes any_char c && matches ts s
matches (lit d ∷ ts) [] = false
matches (lit d ∷ ts) (c ∷ s) = takes (lit d) c && matches ts s
matches (class n rs ∷ ts) [] = false
matches (class n rs ∷ ts) (c ∷ s) = takes (class n rs) c && matches ts s

abbrev matched : Option (List Token) → Text → Bool
matched none s = false
matched (some ts) s = matches ts s

unfoldable pub path_match : Text → Text → Bool
unfolding tokens matches
path_match pattern name = matched (tokens (length pattern) pattern) name

star_stays :
    (path_match (codes "/webhooks/*") (codes "/webhooks/stripe") ≡ true)
    × (path_match (codes "/webhooks/*") (codes "/webhooks/a/b") ≡ false)
    × (path_match (codes "/v[0-9]/?") (codes "/v2/x") ≡ true)
    × (path_match (codes "/a[") (codes "/a[") ≡ false)
    × (path_match (codes "/a[^b-c]") (codes "/ad") ≡ true)
unfolding path_match
star_stays = (refl, refl, refl, refl, refl)

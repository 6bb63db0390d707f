-- ===== src/Store/Json.antt =====
-- What a column of type JSONB keeps of a header map: json.Marshal writes U+FFFD for every byte that is
-- not part of a character in UTF-8 (internal/store/events.go and snapshots.go). The names of the
-- headers are tokens, which are ASCII.
use liveurl.Prelude.{
  All, Bool, List, Text, [], ap, arith, if◌then◌else◌, is_ascii, leb, ltb, map, refl, suc, true,
  zero, ℕ, ◌&&◌, ◌-◌, ◌==◌, ◌∷◌, ◌≡◌,
}
use liveurl.Http.{Header, values}

abbrev is_between : ℕ → ℕ → ℕ → Bool
is_between low high c = leb low c && leb c high

-- A byte that continues a character.
abbrev is_tail : ℕ → Bool
is_tail = is_between 128 191

-- The range of the second byte of a character of three or four bytes, by the first one.
abbrev is_second : ℕ → ℕ → Bool
is_second c d =
    is_between (if c == 224 then 160 else if c == 240 then 144 else 128)
      (if c == 237 then 159 else if c == 244 then 143 else 191) d

-- The number of bytes of the character that begins with the byte, or 0 where there is none.
unfoldable pub rune_size : ℕ → Text → ℕ
rune_size c (d ∷ e ∷ f ∷ _) =
    if ltb c 128
    then 1
    else if is_between 194 223 c && is_tail d
    then 2
    else if is_between 224 239 c && (is_second c d && is_tail e)
    then 3
    else if is_between 240 244 c && (is_second c d && (is_tail e && is_tail f))
    then 4
    else 0
rune_size c (d ∷ e ∷ []) =
    if ltb c 128
    then 1
    else if is_between 194 223 c && is_tail d
    then 2
    else if is_between 224 239 c && (is_second c d && is_tail e)
    then 3
    else 0
rune_size c (d ∷ []) = if ltb c 128 then 1 else if is_between 194 223 c && is_tail d then 2 else 0
rune_size c [] = if ltb c 128 then 1 else 0

-- The text with the bytes EF BF BD of U+FFFD for each byte that is not part of a character; the number
-- says how many bytes of the character before are still to come.
unfoldable pub replace_invalid : ℕ → Text → Text
unfolding rune_size
replace_invalid n [] = []
replace_invalid (suc n) (c ∷ s) = c ∷ replace_invalid n s
replace_invalid zero (c ∷ s) =
    let size = rune_size c s in
    let rest = replace_invalid (size - 1) s in
    if size == 0 then 239 ∷ 191 ∷ 189 ∷ rest else c ∷ rest

-- A text that was written as JSON and read back.
unfoldable pub json_text : Text → Text
unfolding replace_invalid
json_text s = replace_invalid 0 s

-- `map[string][]string`
unfoldable pub json_header : Header → Header
unfolding json_text
json_header [] = []
json_header ((k, vs) ∷ h) = (k, map json_text vs) ∷ json_header h

-- `map[string]string`
unfoldable pub json_pairs : List (Text × Text) → List (Text × Text)
unfolding json_text
json_pairs [] = []
json_pairs ((k, v) ∷ h) = (k, json_text v) ∷ json_pairs h

rune_size-ascii : (c : ℕ) (s : Text) → ltb c 128 ≡ true → rune_size c s ≡ 1
unfolding rune_size
rune_size-ascii c [] h = rw h refl
rune_size-ascii c (d ∷ []) h = rw h refl
rune_size-ascii c (d ∷ e ∷ []) h = rw h refl
rune_size-ascii c (d ∷ e ∷ f ∷ s) h = rw h refl

-- ASCII is kept as it is.
pub json_text-ascii : (s : Text) → is_ascii s ≡ true → json_text s ≡ s
unfolding json_text replace_invalid
json_text-ascii [] h = refl
json_text-ascii (c ∷ s) h =
    let one : ltb c 128 ≡ true = ground (arith, h) in
    let more : is_ascii s ≡ true = ground (arith, h) in
    rw (rune_size-ascii c s one) (ap (◌∷◌ c) (json_text-ascii s more))

abbrev pub IsAscii : Text → Type 0
IsAscii s = is_ascii s ≡ true

map-ascii : (vs : List Text) → All IsAscii vs → map json_text vs ≡ vs
map-ascii [] h = refl
map-ascii (v ∷ vs) (a, h) = rw (json_text-ascii v a, map-ascii vs h) refl

pub json_header-ascii : (h : Header) → All (λ kv. All IsAscii kv.1) h → json_header h ≡ h
unfolding json_header
json_header-ascii [] a = refl
json_header-ascii ((k, vs) ∷ h) (a, b) = rw (map-ascii vs a, json_header-ascii h b) refl

pub json_pairs-ascii : (h : List (Text × Text)) → All (λ kv. IsAscii kv.1) h → json_pairs h ≡ h
unfolding json_pairs
json_pairs-ascii [] a = refl
json_pairs-ascii ((k, v) ∷ h) (a, b) = rw (json_text-ascii v a, json_pairs-ascii h b) refl

-- A header is decoded as it was, each value through JSON.
pub values-json_header :
    (k : Text) (h : Header) → values k (json_header h) ≡ map json_text (values k h)
unfolding values json_header
values-json_header k [] = refl
values-json_header k ((j, v) ∷ h) = ground (arith, values-json_header k h)

-- The byte FF alone, in the middle of a text.
json_text_runs :
    json_text (b'a' ∷ 255 ∷ 195 ∷ 169 ∷ 195 ∷ [])
    ≡ b'a' ∷ 239 ∷ 191 ∷ 189 ∷ 195 ∷ 169 ∷ 239 ∷ 191 ∷ 189 ∷ []
unfolding json_text
json_text_runs = refl

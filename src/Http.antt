-- ===== src/Http.antt =====
-- What the edge uses of Go's net/http: header maps with canonical keys, requests and responses.
-- A header map is an association list from key to values; the keys of a parsed message are canonical.
use liveurl.Prelude.{
  Bool, List, Text, [], any, arith, codes, if◌then◌else◌, leb, not, refl, text_eq, text_eq_iff,
  true, ℕ, ◌&&◌, ◌+◌, ◌-◌, ◌==◌, ◌||◌, ◌∷◌, ◌≡◌,
}

abbrev pub Header : Type 0
Header = List (Text × List Text)

is_upper : ℕ → Bool
is_upper c = leb b'A' c && leb c b'Z'

is_lower : ℕ → Bool
is_lower c = leb b'a' c && leb c b'z'

is_digit : ℕ → Bool
is_digit c = leb b'0' c && leb c b'9'

-- A byte that may stand in a header's name.
is_token : ℕ → Bool
unfolding is_upper is_lower is_digit
is_token c = is_upper c || is_lower c || is_digit c || any (λ d. c == d) (codes "!#$%&'*+-.^_`|~")

-- The first letter and each letter after a dash in upper case, the others in lower case.
canonical_from : Bool → Text → Text
canonical_from upper [] = []
canonical_from upper (c ∷ s) =
    (if upper && is_lower c then c - 32 else if not upper && is_upper c then c + 32 else c)
    ∷ canonical_from (c == b'-') s

-- `textproto.CanonicalMIMEHeaderKey`
unfoldable pub canonical_key : Text → Text
unfolding is_token is_upper is_lower canonical_from
canonical_key s = if any (λ c. not (is_token c)) s then s else canonical_from true s

unfoldable pub values : Text → Header → List Text
values k [] = []
values k ((j, v) ∷ h) = if text_eq j k then v else values k h

abbrev first_value : List Text → Text
first_value [] = []
first_value (v ∷ vs) = v

-- `Header.Get`: the first value, or the empty text.
unfoldable pub header_get : Text → Header → Text
unfolding canonical_key values
header_get k h = first_value (values (canonical_key k) h)

-- `h[k] = vs` for a key that is canonical
unfoldable pub put_values : Text → List Text → Header → Header
put_values k vs [] = (k, vs) ∷ []
put_values k vs ((j, v) ∷ h) = if text_eq j k then (j, vs) ∷ h else (j, v) ∷ put_values k vs h

-- `Header.Set`
unfoldable pub header_set : Text → Text → Header → Header
unfolding canonical_key put_values
header_set k v h = put_values (canonical_key k) (v ∷ []) h

pub record Request : Type 0 where
  pub method : Text
  pub path : Text
  pub raw_query : Text
  pub host : Text
  pub header : Header
  pub body : Text

pub record Response : Type 0 where
  pub status_code : ℕ
  pub header : Header
  pub body : Text

pub values-put_values :
    (j k : Text) (vs : List Text) (h : Header)
    → values j (put_values k vs h) ≡ (if text_eq k j then vs else values j h)
unfolding values put_values
values-put_values j k vs [] = refl
values-put_values j k vs ((i, v) ∷ h) =
    ground (arith, text_eq_iff i k, text_eq_iff i j, text_eq_iff k j, values-put_values j k vs h)

canonical_runs : canonical_key (codes "X-GitHub-eVENT") ≡ codes "X-Github-Event"
unfolding canonical_key
canonical_runs = refl

canonical_invalid : canonical_key (codes "x y") ≡ codes "x y"
unfolding canonical_key
canonical_invalid = refl

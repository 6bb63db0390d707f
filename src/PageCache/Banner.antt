-- ===== src/PageCache/Banner.antt =====
-- Where the banner of internal/edge/snapshot/snapshot.go lands in a page.
use mathlib.Core.Path.{subst}
use liveurl.Prelude.{
  Bool-cases, Option, Text, [], ap, arith, drop, false, has_prefix, inl, inr, is_ascii, leb, length,
  lower_byte, map, none, refl, some, suc, take, true, zero, ℕ, ◌*◌, ◌++◌, ◌+◌, ◌<◌, ◌∷◌, ◌≡◌, ◌≤◌,
}
use liveurl.PageCache.{body_end, inject_banner, insert_at, last_index, or_here}

-- The place that the last occurrence splits off.
pub record SplitsAt (p s : Text) (i : ℕ) : Type 0 where
  pub bound : i ≤ length s
  pub here : has_prefix p (drop i s) ≡ true
  pub last : (j : ℕ) → i < j → j ≤ length s → has_prefix p (drop j s) ≡ false

last_index-none :
    (p s : Text) → last_index p s ≡ none → (j : ℕ) → j ≤ length s → has_prefix p (drop j s) ≡ false
unfolding last_index
last_index-none p [] e zero h = ground arith
last_index-none p [] e (suc j) h = ground arith
last_index-none p (c ∷ s) e zero h = ground arith
last_index-none p (c ∷ s) e (suc j) h = last_index-none p s (ground arith) j (omega arith)

SplitsAt-zero :
    (p s : Text)
    → has_prefix p s ≡ true
    → ((j : ℕ) → 0 < j → j ≤ length s → has_prefix p (drop j s) ≡ false)
    → SplitsAt p s 0
SplitsAt-zero p s h none_later = record { bound = omega arith; here = h; last = none_later }

SplitsAt-suc : {p s : Text} (c : ℕ) {i : ℕ} → SplitsAt p s i → SplitsAt p (c ∷ s) (suc i)
SplitsAt-suc {p} {s} c {i} v = record { bound = omega arith; here = v.here; last = later }
  where
    later : (j : ℕ) → suc i < j → j ≤ length (c ∷ s) → has_prefix p (drop j (c ∷ s)) ≡ false
    later zero lo hi = absurd (omega arith)
    later (suc j) lo hi = v.last j (omega arith) (omega arith)

last_index-cons :
    (p s : Text) (c i : ℕ) (o : Option ℕ)
    → last_index p s ≡ o
    → ((k : ℕ) → o ≡ some k → SplitsAt p s k)
    → or_here (has_prefix p (c ∷ s)) o ≡ some i
    → SplitsAt p (c ∷ s) i
last_index-cons p s c i (some k) q ih e =
    subst (SplitsAt p (c ∷ s)) (ground arith) (SplitsAt-suc c (ih k refl))
last_index-cons p s c i none q ih e = elim (Bool-cases (has_prefix p (c ∷ s))) [
  | inl h ↦ subst (SplitsAt p (c ∷ s)) (ground arith) (SplitsAt-zero p (c ∷ s) h later)
  | inr h ↦ absurd (ground arith)
]
  where
    later : (j : ℕ) → 0 < j → j ≤ length (c ∷ s) → has_prefix p (drop j (c ∷ s)) ≡ false
    later zero lo hi = absurd (omega arith)
    later (suc j) lo hi = last_index-none p s q j (omega arith)

pub last_index-SplitsAt : (p s : Text) (i : ℕ) → last_index p s ≡ some i → SplitsAt p s i
unfolding last_index
last_index-SplitsAt p [] i e = elim (Bool-cases (has_prefix p [])) [
  | inl h ↦
      subst (SplitsAt p []) (ground arith) (SplitsAt-zero p [] h (λ j lo hi. absurd (omega arith)))
  | inr h ↦ absurd (ground arith)
]
last_index-SplitsAt p (c ∷ s) i e =
    last_index-cons p s c i (last_index p s) refl (λ k q. last_index-SplitsAt p s k q) e

length-map_lower : (s : Text) → length (map lower_byte s) ≡ length s
length-map_lower [] = refl
length-map_lower (c ∷ s) = ap suc (length-map_lower s)

-- What the banner does to a page: it stands before the last closing tag, whatever the tag's case,
-- or at the end of a page that has none. `low` is the page in lower case.
pub data IsMarked (page notice low : Text) : Option Text → Type 0 where
  before_tag :
      (i : ℕ)
      → SplitsAt body_end low i
      → i ≤ length page
      → IsMarked page notice low (some (take i page ++ (notice ++ drop i page)))
  at_end :
      ((j : ℕ) → j ≤ length low → has_prefix body_end (drop j low) ≡ false)
      → IsMarked page notice low (some (page ++ notice))

insert_at-IsMarked :
    (page notice low : Text) (o : Option ℕ)
    → length low ≡ length page
    → last_index body_end low ≡ o
    → IsMarked page notice low (insert_at o notice page)
insert_at-IsMarked page notice low none len e = at_end (last_index-none body_end low e)
insert_at-IsMarked page notice low (some i) len e =
    let v = last_index-SplitsAt body_end low i e in
    let fits : i ≤ length page = omega (arith, v.bound) in
    let test : leb i (length page) ≡ true = ground arith in rw test (before_tag i v fits)

module _ (lower_unicode : Text → Text) where
  -- In a page of ASCII the banner is inserted, without a panic and with every byte of the page kept
  -- in its order: before the last closing body tag in any case, or at the end if there is none.
  pub inject_banner-IsMarked :
      (page notice : Text)
      → is_ascii page ≡ true
      → IsMarked page notice (map lower_byte page) (inject_banner lower_unicode page notice)
  unfolding inject_banner
  inject_banner-IsMarked page notice ascii =
      rw ascii (insert_at-IsMarked page notice (map lower_byte page) _ (length-map_lower page) refl)

last_index-append :
    (p xs : Text) → last_index p p ≡ some 0 → last_index p (xs ++ p) ≡ some (length xs)
unfolding last_index
last_index-append p [] h = h
last_index-append p (c ∷ xs) h = rw (last_index-append p xs h)

-- The letter Ⱥ (U+023A) in UTF-8, and its lower case ⱥ (U+2C65), which takes a byte more.
abbrev pub repeat_text : ℕ → Text → Text
repeat_text zero s = []
repeat_text (suc n) s = s ++ repeat_text n s

abbrev pub upper_letter : Text
upper_letter = 200 ∷ 186 ∷ []

abbrev pub lower_letter : Text
lower_letter = 226 ∷ 177 ∷ 165 ∷ []

length-repeat_lower : (n : ℕ) → length (repeat_text n lower_letter) ≡ 3 * n
length-repeat_lower zero = refl
length-repeat_lower (suc n) = omega (arith, length-repeat_lower n)

length-repeat_upper : (n : ℕ) → length (repeat_text n upper_letter ++ body_end) ≡ 2 * n + 7
length-repeat_upper zero = refl
length-repeat_upper (suc n) = omega (arith, length-repeat_upper n)

module _ (lower_unicode : Text → Text) where
  -- A page of eight or more letters Ⱥ and a closing tag makes InjectBanner slice out of range: the
  -- tag's index in the lower-case page lies beyond the page, if lower case maps the letters as
  -- Unicode does.
  pub inject_banner-panics :
      (n : ℕ) (notice : Text)
      → 8 ≤ n
      → lower_unicode (repeat_text n upper_letter ++ body_end)
        ≡ repeat_text n lower_letter ++ body_end
      → inject_banner lower_unicode (repeat_text n upper_letter ++ body_end) notice ≡ none
  unfolding inject_banner
  inject_banner-panics zero notice many maps = absurd (omega arith)
  inject_banner-panics (suc n) notice many maps =
      rw (maps, last_index-append body_end (repeat_text (suc n) lower_letter) refl)
        (let beyond : leb (length (repeat_text (suc n) lower_letter))
                (length (repeat_text (suc n) upper_letter ++ body_end))
              ≡ false =
            ground (arith, length-repeat_lower (suc n), length-repeat_upper (suc n)) in
          rw beyond)

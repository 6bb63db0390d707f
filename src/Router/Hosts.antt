-- ===== src/Router/Hosts.antt =====
-- The subdomain that a Host header names (internal/edge/router.go, Router.subdomain).
use liveurl.Prelude.{
  Bool-cases, Option-cases, Text, [], ap, arith, codes, false, if◌then◌else◌, inl, inr, length,
  length-append, refl, some, text_eq, text_eq_iff, text_eq_refl, to_lower, ℕ, ◌++◌, ◌<◌, ◌↔◌, ◌∷◌,
  ◌≡◌,
}
use liveurl.Router.{or_apex, subdomain_of, trim_suffix}

text_eq-longer : (s t : Text) → length t < length s → text_eq s t ≡ false
unfolding text_eq
text_eq-longer [] t h = ground (arith, h)
text_eq-longer (a ∷ s) [] h = refl
text_eq-longer (a ∷ s) (b ∷ t) h = ground (arith, text_eq-longer s t)

trim_suffix-append : (p s : Text) → trim_suffix p (s ++ p) ≡ some s
unfolding trim_suffix
trim_suffix-append [] [] = refl
trim_suffix-append (c ∷ p) [] = ground (arith, text_eq_refl (c ∷ p))
trim_suffix-append p (c ∷ s) =
    ground (arith, trim_suffix-append p s, length-append s p, text_eq-longer (c ∷ (s ++ p)) p)

trim_suffix_sound : (p s t : Text) → trim_suffix p t ≡ some s → t ≡ s ++ p
unfolding trim_suffix
trim_suffix_sound p s [] h = ground (arith, text_eq_iff [] p)
trim_suffix_sound p s (c ∷ t) h = elim (Bool-cases (text_eq (c ∷ t) p)) [
  | inl whole ↦ ground (arith, text_eq_iff (c ∷ t) p, whole, h)
  | inr longer ↦ elim (Option-cases (trim_suffix p t)) [
    | inl absent ↦ ground (arith, longer, absent, h)
    | inr (u, found) ↦ ground (arith, trim_suffix_sound p u t found, longer, found, h)
  ]
]

-- The same for lowered texts, the base's with its dot.
named_iff :
    (h base : Text) (c : ℕ) (s : Text)
    → ((if text_eq h base then [] else or_apex (trim_suffix (codes "." ++ base) h)) ≡ c ∷ s)
      ↔ (h ≡ (c ∷ s) ++ (codes "." ++ base))
named_iff h base c s = (sound, complete)
  where
    sound :
        (if text_eq h base then [] else or_apex (trim_suffix (codes "." ++ base) h)) ≡ c ∷ s
        → h ≡ (c ∷ s) ++ (codes "." ++ base)
    sound e = elim (Option-cases (trim_suffix (codes "." ++ base) h)) [
      | inl absent ↦ ground (arith, absent, e)
      | inr (u, found) ↦ ground (arith, trim_suffix_sound (codes "." ++ base) u h found, found, e)
    ]

    complete :
        h ≡ (c ∷ s) ++ (codes "." ++ base)
        → (if text_eq h base then [] else or_apex (trim_suffix (codes "." ++ base) h)) ≡ c ∷ s
    complete e = rw e (
        rw (text_eq-longer ((c ∷ s) ++ (codes "." ++ base)) base longer)
          (ap or_apex (trim_suffix-append (codes "." ++ base) (c ∷ s))))
      where
        longer : length base < length ((c ∷ s) ++ (codes "." ++ base))
        longer = omega (arith, length-append s (codes "." ++ base))

-- A host names the subdomain `c ∷ s` just when it is, in lower case, that text followed by a dot and
-- the base host in lower case.
pub subdomain_of_iff :
    (lower_unicode : Text → Text) (base host : Text) (c : ℕ) (s : Text)
    → (subdomain_of lower_unicode base host ≡ c ∷ s)
      ↔ (to_lower lower_unicode host ≡ (c ∷ s) ++ (codes "." ++ to_lower lower_unicode base))
unfolding subdomain_of
subdomain_of_iff lower_unicode base host c s =
    named_iff (to_lower lower_unicode host) (to_lower lower_unicode base) c s

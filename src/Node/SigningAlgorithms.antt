-- ===== src/Node/SigningAlgorithms.antt =====
-- packages/sdk/src/internal/signing-algorithms.ts
use rakomi_js.Common.{
  Bool, true, false, not, ◌&&◌, Option, none, some, List, [], ◌∷◌, ◌≡◌, ◌⊎◌, arith, if◌then◌else◌,
  is_some, inl, inr, Option-cases, Bool-cases, ap,
}
use rakomi_js.Common.Text.{Text, codes, includes, is_empty, text_eq, text_eq_iff}
use rakomi_js.Common.Json.{Json, str, Fields, get, equals_text}

abbrev pub allowed_signing_algorithms : List Text
allowed_signing_algorithms = codes "RS256" ∷ codes "PS256" ∷ codes "ES256" ∷ []

-- `isAllowedSigningAlgorithm`, on a value that is a string
unfoldable pub is_allowed_signing_algorithm : Text → Bool
unfolding includes
is_allowed_signing_algorithm alg = includes allowed_signing_algorithms alg

-- The `alg` of a record that `isAllowedSigningAlgorithm` accepts.
abbrev pub allowed_alg : Option Json → Option Text
allowed_alg (some (str alg)) = if is_allowed_signing_algorithm alg then some alg else none
allowed_alg _ = none

abbrev is_nonempty_text : Option Json → Bool
is_nonempty_text (some (str s)) = not (is_empty s)
is_nonempty_text _ = false

abbrev fits_alg : Fields → Text → Bool
fits_alg jwk alg =
    if text_eq alg (codes "ES256")
    then equals_text (get "kty" jwk) (codes "EC") && equals_text (get "crv" jwk) (codes "P-256")
    else equals_text (get "kty" jwk) (codes "RSA")

-- `isAcceptableSigningJwk`
unfoldable pub is_acceptable_signing_jwk : Fields → Bool
is_acceptable_signing_jwk jwk =
    if not (is_nonempty_text (get "kid" jwk))
    then false
    else if is_some (get "use" jwk) && not (equals_text (get "use" jwk) (codes "sig"))
    then false
    else elim (allowed_alg (get "alg" jwk)) [ none ↦ false | some alg ↦ fits_alg jwk alg ]

-- An allowed algorithm is one of three: no symmetric one, and not `none`.
pub allowed-cases :
    (alg : Text)
    → is_allowed_signing_algorithm alg ≡ true
    → (alg ≡ codes "RS256") ⊎ (alg ≡ codes "PS256") ⊎ (alg ≡ codes "ES256")
unfolding is_allowed_signing_algorithm
allowed-cases alg h = ground (
  arith,
  text_eq_iff (codes "RS256") alg,
  text_eq_iff (codes "PS256") alg,
  text_eq_iff (codes "ES256") alg,
)

equals_text-true : (v : Option Json) (t : Text) → equals_text v t ≡ true → v ≡ some (str t)
equals_text-true none t h = absurd cc
equals_text-true (some (str s)) t h = ap (λ u. some (str u)) ((text_eq_iff s t).0 h)
equals_text-true (some _) t h = absurd cc

fitting :
    (jwk : Fields) (alg : Text)
    → is_allowed_signing_algorithm alg ≡ true
    → fits_alg jwk alg ≡ true
    → ((alg ≡ codes "ES256")
        × (get "kty" jwk ≡ some (str (codes "EC")))
        × (get "crv" jwk ≡ some (str (codes "P-256"))))
      ⊎ (((alg ≡ codes "RS256") ⊎ (alg ≡ codes "PS256"))
          × (get "kty" jwk ≡ some (str (codes "RSA"))))
fitting jwk alg allowed h = elim (Bool-cases (text_eq alg (codes "ES256"))) [
  | inl elliptic ↦ inl (
    (text_eq_iff alg (codes "ES256")).0 elliptic,
    equals_text-true (get "kty" jwk) (codes "EC") ground arith,
    equals_text-true (get "crv" jwk) (codes "P-256") ground arith,
  )
  | inr other ↦ inr (
    elim (allowed-cases alg allowed) [
      | inl rs ↦ inl rs
      | inr (inl ps) ↦ inr ps
      | inr (inr es) ↦ absurd ground (arith, text_eq_iff alg (codes "ES256"))
    ],
    equals_text-true (get "kty" jwk) (codes "RSA") ground arith,
  )
]

use_case :
    (v : Option Json)
    → (is_some v && not (equals_text v (codes "sig"))) ≡ false
    → (v ≡ none) ⊎ (v ≡ some (str (codes "sig")))
use_case v h = elim (Option-cases v) [
  | inl absent ↦ inl absent
  | inr (u, there) ↦ inr (equals_text-true v (codes "sig") ground arith)
]

nonempty_text :
    (v : Option Json)
    → is_nonempty_text v ≡ true
    → (s : Text) × (v ≡ some (str s)) × (is_empty s ≡ false)
nonempty_text v h = ground arith

allowed_alg-eq-some :
    (v : Option Json) (alg : Text)
    → allowed_alg v ≡ some alg
    → (v ≡ some (str alg)) × (is_allowed_signing_algorithm alg ≡ true)
allowed_alg-eq-some v alg h = ground arith

-- An acceptable record has a key id that is not empty, is for signatures where it says what it is for, names
-- an allowed algorithm, and is of the key type (and the curve) that goes with the algorithm.
pub record IsAcceptable (jwk : Fields) : Type 0 where
  pub kid : Text
  pub alg : Text
  pub kid_claim : get "kid" jwk ≡ some (str kid)
  pub alg_claim : get "alg" jwk ≡ some (str alg)
  pub kid_there : is_empty kid ≡ false
  pub for_signatures : (get "use" jwk ≡ none) ⊎ (get "use" jwk ≡ some (str (codes "sig")))
  pub allowed : is_allowed_signing_algorithm alg ≡ true
  pub fits :
      ((alg ≡ codes "ES256")
        × (get "kty" jwk ≡ some (str (codes "EC")))
        × (get "crv" jwk ≡ some (str (codes "P-256"))))
      ⊎ (((alg ≡ codes "RS256") ⊎ (alg ≡ codes "PS256"))
          × (get "kty" jwk ≡ some (str (codes "RSA"))))

pub is_acceptable_signing_jwk-IsAcceptable :
    (jwk : Fields) → is_acceptable_signing_jwk jwk ≡ true → IsAcceptable jwk
unfolding is_acceptable_signing_jwk
is_acceptable_signing_jwk-IsAcceptable jwk h = elim (Option-cases (allowed_alg (get "alg" jwk))) [
  | inl missing ↦ absurd (ground (arith, missing))
  | inr (alg, found) ↦
      let (kid, has_kid, kid_there) = nonempty_text (get "kid" jwk) (ground arith) in
      let (has_alg, allowed) = allowed_alg-eq-some (get "alg" jwk) alg found in
      record {
        kid = kid;
        alg = alg;
        kid_claim = has_kid;
        alg_claim = has_alg;
        kid_there = kid_there;
        for_signatures = use_case (get "use" jwk) ground arith;
        allowed = allowed;
        fits = fitting jwk alg allowed ground (arith, found);
      }
]

-- ===== src/Tests/Keys.antt =====
-- Histories of the key cache of packages/sdk/src/jwks-cache.ts with two issuers' documents.
use rakomi_js.Common.{◌+◌, ◌*◌, ◌≤◌, false, Option, none, some, List, [], ◌∷◌, ◌≡◌, refl, arith}
use rakomi_js.Common.Text.{Text, codes, text_eq, includes, starts_with}
use rakomi_js.Common.Json.{null, str, arr, obj, Items, nil, cons, Fields, field, end, get}
use rakomi_js.Common.Results.{ok, thrown}
use rakomi_js.Node.SigningAlgorithms.{is_acceptable_signing_jwk, is_allowed_signing_algorithm}
use rakomi_js.Node.JwksCache.{
  JwkEntry, CacheState, find_key, http_error, JwksCache, Fetched, fetch_failed, response,
  parse_cache_control_max_age, entries_of, do_refresh, revocation_epoch_of, settle, get_key,
  after_wait, Event, asks, settles, step, run, initial, unknown_kid_refresh_cooldown_ms,
}
use rakomi_js.Node.JwksCache.Keys.{answer_of, IsAnswer, get_key_sound}
use rakomi_js.Node.JwksCache.RateLimit.{refreshes, refreshes_bounded, AllFresh}
use rakomi_js.Node.JwksCache.Stale.{outage_keeps_keys, null_key_throws}

-- Importing a key keeps its id.
abbrev import_jwk : Fields → Text → Option Text
import_jwk jwk alg = elim (get "kid" jwk) [ some (str kid) ↦ some kid | _ ↦ none ]

abbrev key_record : Text → Fields
key_record kid =
    field "kid" (str kid) (field "kty" (str (codes "RSA")) (field "alg" (str (codes "RS256")) end))

abbrev document : Items → Fields
document keys = field "keys" (arr keys) end

abbrev two_keys : Fetched
two_keys =
    response (codes "https://issuer/jwks")
      (some (
        obj (
          document
            (cons (obj (key_record (codes "a"))) (cons (obj (key_record (codes "b"))) nil)))))
      (some (codes "public, max-age=600"))

abbrev first_fetch : List Event
first_fetch = asks (codes "b") 0 ∷ settles two_keys 5 ∷ []

abbrev loaded : JwksCache Text
loaded = run import_jwk initial first_fetch

max_age_header : parse_cache_control_max_age (some (codes "public, max-age=600")) ≡ 600
unfolding parse_cache_control_max_age codes starts_with
max_age_header = refl

found_key :
    answer_of import_jwk loaded (codes "b") 1000 [] fetch_failed 1001
    ≡ ok (record { key = codes "b"; alg = codes "RS256" })
unfolding answer_of get_key run do_refresh step settle entries_of after_wait
    is_acceptable_signing_jwk is_allowed_signing_algorithm text_eq codes includes
    parse_cache_control_max_age starts_with get
found_key = refl

get_key_sound_example :
    IsAnswer import_jwk (codes "b") (record { key = codes "b"; alg = codes "RS256" })
get_key_sound_example =
    get_key_sound import_jwk first_fetch [] (codes "b")
      (record { key = codes "b"; alg = codes "RS256" }) 1000 1001 fetch_failed found_key

-- Three tokens with a key id that the issuer does not know.
abbrev unknown_ids : List Event
unknown_ids =
    asks (codes "x") 40_000
    ∷ settles two_keys 40_010
    ∷ asks (codes "y") 41_000
    ∷ asks (codes "z") 42_000
    ∷ []

one_refresh : refreshes import_jwk loaded unknown_ids ≡ 1
unfolding refreshes get_key run do_refresh step settle entries_of is_acceptable_signing_jwk
    is_allowed_signing_algorithm text_eq codes includes parse_cache_control_max_age starts_with get
one_refresh = refl

all_fresh : AllFresh import_jwk loaded unknown_ids
unfolding AllFresh get_key run do_refresh step settle entries_of is_acceptable_signing_jwk
    is_allowed_signing_algorithm text_eq codes includes parse_cache_control_max_age starts_with get
all_fresh = (refl, (tt, (refl, (refl, tt))))

asked_before : loaded.last_refresh_attempt_at ≡ some 0
unfolding get_key run do_refresh step settle entries_of is_acceptable_signing_jwk
    is_allowed_signing_algorithm text_eq codes includes parse_cache_control_max_age starts_with get
asked_before = refl

refreshes_bounded_example :
    unknown_kid_refresh_cooldown_ms * refreshes import_jwk loaded unknown_ids + 10
    ≤ 42_000 + unknown_kid_refresh_cooldown_ms
refreshes_bounded_example =
    refreshes_bounded import_jwk 10 loaded unknown_ids (omega arith)
      (rw (asked_before) (omega arith)) all_fresh

abbrev key_b : JwkEntry Text
key_b = record { kid = codes "b"; key = codes "b"; alg = codes "RS256" }

abbrev key_set : CacheState Text
key_set = record {
  jwks_url = codes "https://issuer/jwks";
  keys = record { kid = codes "a"; key = codes "a"; alg = codes "RS256" } ∷ key_b ∷ [];
  revocation_epoch = none;
  fetched_at = 5;
  max_age = 600;
}

has_set : loaded.cache ≡ some key_set
unfolding get_key run do_refresh step settle entries_of is_acceptable_signing_jwk
    is_allowed_signing_algorithm text_eq codes includes parse_cache_control_max_age starts_with get
    revocation_epoch_of
has_set = refl

has_b : find_key (codes "b") key_set.keys ≡ some key_b
unfolding find_key text_eq codes
has_b = refl

-- The set is long expired, and two refreshes fail.
outage_keeps_keys_example :
    answer_of import_jwk
      (run import_jwk loaded (asks (codes "b") 900_000 ∷ settles fetch_failed 900_010 ∷ []))
      (codes "b")
      950_000
      []
      (http_error 503)
      950_010
    ≡ ok (record { key = codes "b"; alg = codes "RS256" })
outage_keeps_keys_example =
    outage_keeps_keys import_jwk loaded key_set key_b (codes "b")
      (asks (codes "b") 900_000 ∷ settles fetch_failed 900_010 ∷ []) [] 950_000 950_010
      (http_error 503) has_set has_b (tt, (refl, tt)) tt refl

null_key_throws_example :
    (do_refresh import_jwk
        (response (codes "https://issuer/jwks") (some (obj (document (cons null nil)))) none)
        50
        loaded
      ≡ thrown)
    × (settle import_jwk
          (response (codes "https://issuer/jwks") (some (obj (document (cons null nil)))) none)
          50
          loaded
        ≡ record loaded { refreshing = false })
unfolding get
null_key_throws_example =
    null_key_throws import_jwk (codes "https://issuer/jwks") (document (cons null nil)) none
      (cons null nil) 50 loaded refl refl

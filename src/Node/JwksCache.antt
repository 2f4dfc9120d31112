-- ===== src/Node/JwksCache.antt =====
-- packages/sdk/src/jwks-cache.ts: the key cache of one issuer. A method runs up to its next `await` in
-- one step; a refresh that is under way is settled by a later step with what the network answered.
pub mod Keys
pub mod RateLimit
pub mod Stale
use Prim.Native.String.{String}
use rakomi_js.Common.{
  ℕ, ◌+◌, ◌-◌, ◌*◌, ◌^◌, Bool, true, false, not, ◌&&◌, Option, none, some, List, [], ◌∷◌, ◌++◌,
  drop, leb, ltb, ◌==◌, if◌then◌else◌, find?, get_or,
}
use rakomi_js.Common.Int.{ℤ, pos, negsuc}
use rakomi_js.Common.Number.{Number, int}
use rakomi_js.Common.Text.{
  is_digit, leading_number, starts_with_digit, Text, codes, text_eq, starts_with, is_empty,
}
use rakomi_js.Common.Json.{Json, null, num, obj, Items, nil, cons, Fields, get, as_text, as_items}
use rakomi_js.Common.Results.{Result, ok, err, thrown, ◌>>=◌}
use rakomi_js.Node.Errors.{SdkError, jwks_fetch_failed, jwks_invalid_response, jwks_no_matching_key}
use rakomi_js.Node.SigningAlgorithms.{is_acceptable_signing_jwk}

abbrev pub default_max_age : ℕ
default_max_age = 3600

abbrev pub unknown_kid_refresh_cooldown_ms : ℕ
unknown_kid_refresh_cooldown_ms = 30_000

pub record JwkEntry (Key : Type 0) : Type 0 where
  pub kid : Text
  pub key : Key
  pub alg : Text

-- `ResolvedKey`
pub record ResolvedKey (Key : Type 0) : Type 0 where
  pub key : Key
  pub alg : Text

pub record CacheState (Key : Type 0) : Type 0 where
  pub jwks_url : Text
  pub keys : List (JwkEntry Key)
  pub revocation_epoch : Option ℕ
  pub fetched_at : ℕ
  pub max_age : ℕ

-- `refreshPromise` is kept as whether a refresh is under way.
pub record JwksCache (Key : Type 0) : Type 0 where
  pub cache : Option (CacheState Key)
  pub refreshing : Bool
  pub last_refresh_attempt_at : Option ℕ

-- `header.match(/max-age=(\d+)/)`: the number at the first match
max_age_of : Text → Option ℕ
unfolding leading_number
max_age_of [] = none
max_age_of (c ∷ s) =
    let rest = max_age_of s in
    if starts_with (c ∷ s) (codes "max-age=") && starts_with_digit (drop 8 (c ∷ s))
    then some (leading_number 0 (drop 8 (c ∷ s)))
    else rest

-- Whole numbers from here on are `Infinity` to JavaScript.
abbrev number_overflow : ℕ
number_overflow = 2 ^ 1024 - 2 ^ 970

-- `parseCacheControlMaxAge`
unfoldable pub parse_cache_control_max_age : Option Text → ℕ
unfolding max_age_of
parse_cache_control_max_age none = default_max_age
parse_cache_control_max_age (some header) = elim (max_age_of header) [
  | none ↦ default_max_age
  | some value ↦ if ltb 0 value && ltb value number_overflow then value else default_max_age
]

-- A revocation epoch counts when it is a positive whole number.
unfoldable pub revocation_epoch_of : Option Json → Option ℕ
revocation_epoch_of (some (num (int (pos n)))) = if n == 0 then none else some n
revocation_epoch_of _ = none

-- What the network answers a refresh. The body is `none` where parsing it as JSON fails.
pub data Fetched : Type 0 where
  discovery_failed fetch_failed : Fetched
  http_error : ℕ → Fetched
  -- the document's URL, its body and its `Cache-Control` header
  response : Text → Option Json → Option Text → Fetched

-- `importJWK` of jose: `none` where it throws or gives a symmetric key.
module _ {Key : Type 0} (import_jwk : Fields → Text → Option Key) where
  -- One round of the loop over `keys`: a list of no or one entry.
  entry_of : Fields → List (JwkEntry Key)
  entry_of jwk = elim (as_text (get "kid" jwk)) [
    | none ↦ []
    | some kid ↦ elim (as_text (get "alg" jwk)) [
      | none ↦ []
      | some alg ↦ elim (import_jwk jwk alg) [
        | none ↦ []
        | some key ↦ record { kid = kid; key = key; alg = alg } ∷ []
      ]
    ]
  ]

  -- The loop over `keys`. `none` is the exception of reading a property of `null`; any other value
  -- that is no object has no `kid`, and is skipped.
  unfoldable pub entries_of : Items → Option (List (JwkEntry Key))
  unfolding entry_of
  entries_of nil = some []
  entries_of (cons null vs) = none
  entries_of (cons (obj jwk) vs) = elim (entries_of vs) [
    | none ↦ none
    | some es ↦ some (if is_acceptable_signing_jwk jwk then entry_of jwk ++ es else es)
  ]
  entries_of (cons _ vs) = entries_of vs

  -- The new state, from what the loop collected.
  abbrev stored :
      Text
      → Fields
      → Option Text
      → ℕ
      → JwksCache Key
      → Option (List (JwkEntry Key))
      → Result SdkError (JwksCache Key)
  stored url body cache_control now c none = thrown
  stored url body cache_control now c (some entries) = ok (record c {
    cache = some (record {
      jwks_url = url;
      keys = entries;
      revocation_epoch = revocation_epoch_of (get "revocation_epoch" body);
      fetched_at = now;
      max_age = parse_cache_control_max_age cache_control;
    });
  })

  abbrev unreachable : JwksCache Key → Result SdkError (JwksCache Key)
  unreachable c = elim c.cache [ none ↦ err jwks_fetch_failed | some _ ↦ ok c ]

  abbrev from_keys :
      Text
      → Fields
      → Option Text
      → ℕ
      → JwksCache Key
      → Option Items
      → Result SdkError (JwksCache Key)
  from_keys url body cache_control now c none = err jwks_invalid_response
  from_keys url body cache_control now c (some keys) =
      stored url body cache_control now c (entries_of keys)

  abbrev from_body :
      Text → Option Json → Option Text → ℕ → JwksCache Key → Result SdkError (JwksCache Key)
  from_body url (some (obj body)) cache_control now c =
      from_keys url body cache_control now c (as_items (get "keys" body))
  from_body url _ cache_control now c = err jwks_invalid_response

  -- `doRefresh`, when the network has answered: the cache that it leaves, or its failure, which
  -- leaves the cache alone.
  unfoldable pub do_refresh : Fetched → ℕ → JwksCache Key → Result SdkError (JwksCache Key)
  do_refresh discovery_failed now c = unreachable c
  do_refresh fetch_failed now c = unreachable c
  do_refresh (http_error status) now c = unreachable c
  do_refresh (response url body cache_control) now c = from_body url body cache_control now c

  abbrev after_refresh : JwksCache Key → Result SdkError (JwksCache Key) → JwksCache Key
  after_refresh c (ok c') = c'
  after_refresh c _ = c

  -- The end of `refresh`: `refreshPromise` is reset whatever came out.
  unfoldable pub settle : Fetched → ℕ → JwksCache Key → JwksCache Key
  unfolding do_refresh
  settle fetched now c = record (after_refresh c (do_refresh fetched now c)) { refreshing = false }

-- `isExpired`
unfoldable pub is_expired : {Key : Type 0} → CacheState Key → ℕ → Bool
is_expired c now = leb (c.fetched_at + 1000 * c.max_age) now

-- `keys.find((k) => k.kid === kid)`
unfoldable pub find_key : {Key : Type 0} → Text → List (JwkEntry Key) → Option (JwkEntry Key)
find_key kid keys = find? (λ k. text_eq k.kid kid) keys

abbrev resolved : {Key : Type 0} → Option (JwkEntry Key) → Result SdkError (ResolvedKey Key)
resolved none = err jwks_no_matching_key
resolved (some e) = ok (record { key = e.key; alg = e.alg })

-- `getKey` up to its answer or to its wait for a refresh.
pub data Lookup (Key : Type 0) : Type 0 where
  answered : Result SdkError (ResolvedKey Key) → Lookup Key
  waits : Lookup Key

-- `refresh` up to its wait: it joins the refresh that is under way, or starts one.
unfoldable pub refresh : {Key : Type 0} → ℕ → JwksCache Key → JwksCache Key
refresh now c =
    if c.refreshing then c else record c { refreshing = true; last_refresh_attempt_at = some now }

abbrev pub is_cooling : Option ℕ → ℕ → Bool
is_cooling none now = false
is_cooling (some at) now = ltb now (at + unknown_kid_refresh_cooldown_ms)

abbrev refresh_for : {Key : Type 0} → ℕ → JwksCache Key → Lookup Key × JwksCache Key
refresh_for now c = (waits, refresh now c)

-- `getKey` on a cache that is there, up to its answer or its wait.
unfoldable pub get_key : {Key : Type 0} → Text → ℕ → JwksCache Key → Lookup Key × JwksCache Key
unfolding refresh is_expired find_key
get_key kid now c = elim c.cache [
  | none ↦ refresh_for now c
  | some state ↦
      if is_expired state now then refresh_for now c else elim (find_key kid state.keys) [
        | some e ↦ (answered (resolved (some e)), c)
        | none ↦
            if is_cooling c.last_refresh_attempt_at now
            then (answered (err jwks_no_matching_key), c)
            else refresh_for now c
      ]
]

abbrev pub keys_of : {Key : Type 0} → Option (CacheState Key) → List (JwkEntry Key)
keys_of none = []
keys_of (some state) = state.keys

-- The rest of `getKey`, once the refresh that it waited for has the given result.
unfoldable pub after_wait :
    {Key : Type 0} → Text → Result SdkError (JwksCache Key) → Result SdkError (ResolvedKey Key)
unfolding find_key
after_wait kid (ok c) = resolved (find_key kid (keys_of c.cache))
after_wait kid (err e) = err e
after_wait kid thrown = thrown

-- `getRevocationEpoch`
unfoldable pub get_revocation_epoch : {Key : Type 0} → JwksCache Key → Option ℕ
get_revocation_epoch c = elim c.cache [ none ↦ none | some state ↦ state.revocation_epoch ]

-- A history of a cache: lookups, and answers of the network to the refresh that is under way.
pub data Event : Type 0 where
  asks : Text → ℕ → Event
  settles : Fetched → ℕ → Event

module _ {Key : Type 0} (import_jwk : Fields → Text → Option Key) where
  unfoldable pub step : JwksCache Key → Event → JwksCache Key
  step c (asks kid now) = (get_key kid now c).1
  step c (settles fetched now) = if c.refreshing then settle import_jwk fetched now c else c

  unfoldable pub run : JwksCache Key → List Event → JwksCache Key
  run c [] = c
  run c (e ∷ es) = run (step c e) es

-- The fields' first values.
abbrev pub initial : {Key : Type 0} → JwksCache Key
initial = record { cache = none; refreshing = false; last_refresh_attempt_at = none }

-- ===== src/Node/JwksCache/Stale.antt =====
-- What a refresh that fails leaves behind.
use rakomi_js.Common.{
  ℕ, Bool, true, false, Option, none, some, ◌≡◌, if◌then◌else◌, refl, arith, List, [], ◌∷◌, All,
  ◌∙◌, Bool-cases, inl, inr,
}
use rakomi_js.Common.Text.{Text}
use rakomi_js.Common.Json.{null, bool, num, str, arr, obj, Items, nil, cons, Fields, get}
use rakomi_js.Common.Results.{ok, thrown}
use rakomi_js.Node.JwksCache.{
  JwkEntry, CacheState, JwksCache, Fetched, discovery_failed, fetch_failed, http_error, response,
  entries_of, do_refresh, settle, find_key, is_expired, answered, waits, get_key, after_wait, Event,
  asks, settles, step, run,
}
use rakomi_js.Node.JwksCache.Keys.{answer_of, get_key_keeps}

-- The network gave no document: discovery or the request failed, or the status was no success.
abbrev pub is_unreachable : Fetched → Bool
is_unreachable discovery_failed = true
is_unreachable fetch_failed = true
is_unreachable (http_error status) = true
is_unreachable (response url body cache_control) = false

abbrev pub has_null : Items → Bool
has_null nil = false
has_null (cons null vs) = true
has_null (cons _ vs) = has_null vs

module _ {Key : Type 0} (import_jwk : Fields → Text → Option Key) where
  -- Lookups, and refreshes that reach no document.
  abbrev pub IsOutage : Event → Type 0
  IsOutage (asks kid now) = Unit
  IsOutage (settles fetched now) = is_unreachable fetched ≡ true

  unreachable-settle :
      (fetched : Fetched) (now : ℕ) (c : JwksCache Key)
      → is_unreachable fetched ≡ true
      → (settle import_jwk fetched now c).cache ≡ c.cache
  unfolding settle
  unreachable-settle discovery_failed now c h = ground arith
  unreachable-settle fetch_failed now c h = ground arith
  unreachable-settle (http_error status) now c h = ground arith
  unreachable-settle (response url body cache_control) now c h = cc

  unreachable-refresh :
      (fetched : Fetched) (now : ℕ) (c : JwksCache Key) (state : CacheState Key)
      → is_unreachable fetched ≡ true
      → c.cache ≡ some state
      → do_refresh import_jwk fetched now c ≡ ok c
  unfolding do_refresh
  unreachable-refresh discovery_failed now c state h there = rw there refl
  unreachable-refresh fetch_failed now c state h there = rw there refl
  unreachable-refresh (http_error status) now c state h there = rw there refl
  unreachable-refresh (response url body cache_control) now c state h there = cc

  outage_step-cache :
      (c : JwksCache Key) (e : Event) → IsOutage e → (step import_jwk c e).cache ≡ c.cache
  unfolding step
  outage_step-cache c (asks kid now) h = get_key_keeps import_jwk kid now c
  outage_step-cache c (settles fetched now) h =
      either c.refreshing (settle import_jwk fetched now c) (unreachable-settle fetched now c h)
    where
      either :
          (b : Bool) (d : JwksCache Key) → d.cache ≡ c.cache → (if b then d else c).cache ≡ c.cache
      either true d k = k
      either false d k = refl

  outage-cache :
      (es : List Event) (c : JwksCache Key)
      → All IsOutage es
      → (run import_jwk c es).cache ≡ c.cache
  unfolding run
  outage-cache [] c h = refl
  outage-cache (e ∷ es) c h = outage-cache es (step import_jwk c e) h.1 ∙ outage_step-cache c e h.0

  module _ (state : CacheState Key) (entry : JwkEntry Key) (kid : Text) (now : ℕ)
      (found : find_key kid state.keys ≡ some entry) where
    lookup-expired :
        (c : JwksCache Key)
        → c.cache ≡ some state
        → is_expired state now ≡ true
        → (get_key kid now c).0 ≡ waits
    unfolding get_key
    lookup-expired c there old = rw (there, old, get_key) refl

    lookup-fresh :
        (c : JwksCache Key)
        → c.cache ≡ some state
        → is_expired state now ≡ false
        → (get_key kid now c).0 ≡ answered (ok (record { key = entry.key; alg = entry.alg }))
    unfolding get_key
    lookup-fresh c there fresh = rw (there, fresh, found, get_key) refl

    waited-found :
        (c : JwksCache Key)
        → c.cache ≡ some state
        → after_wait kid (ok c) ≡ ok (record { key = entry.key; alg = entry.alg })
    unfolding after_wait
    waited-found c there = rw (there, found, after_wait) refl

  -- If a cache has a set with a key under an id, then after any lookups and any refreshes that reach no
  -- document, a lookup of the id gives that key, however old the set is: at once, or once a refresh that
  -- reaches no document either is over.
  pub outage_keeps_keys :
      (c : JwksCache Key) (state : CacheState Key) (entry : JwkEntry Key) (kid : Text)
      (es later : List Event) (now settled : ℕ) (fetched : Fetched)
      → c.cache ≡ some state
      → find_key kid state.keys ≡ some entry
      → All IsOutage es
      → All IsOutage later
      → is_unreachable fetched ≡ true
      → answer_of import_jwk (run import_jwk c es) kid now later fetched settled
        ≡ ok (record { key = entry.key; alg = entry.alg })
  unfolding answer_of
  outage_keeps_keys c state entry kid es later now settled fetched there found before after h =
      let c' = run import_jwk c es in
      let kept : c'.cache ≡ some state = outage-cache es c before ∙ there in
      let waited = run import_jwk (get_key kid now c').1 later in
      let still : waited.cache ≡ some state =
        outage-cache later (get_key kid now c').1 after
        ∙ (get_key_keeps import_jwk kid now c' ∙ kept) in
      let refreshed = unreachable-refresh fetched settled waited state h still in
      elim (Bool-cases (is_expired state now)) [
        | inl old ↦
            rw (lookup-expired state entry kid now found c' kept old, answer_of)
              (rw refreshed (waited-found state entry kid now found waited still))
        | inr fresh ↦ rw (lookup-fresh state entry kid now found c' kept fresh, answer_of) refl
      ]

  collected_none : (vs : Items) → has_null vs ≡ true → entries_of import_jwk vs ≡ none
  unfolding entries_of
  collected_none nil h = cc
  collected_none (cons null vs) h = refl
  collected_none (cons (obj jwk) vs) h = rw (collected_none vs h)
  collected_none (cons (bool b) vs) h = collected_none vs h
  collected_none (cons (num n) vs) h = collected_none vs h
  collected_none (cons (str s) vs) h = collected_none vs h
  collected_none (cons (arr a) vs) h = collected_none vs h

  -- A document with `null` among its keys ends the refresh with an exception, not with a result, and
  -- leaves the cached set as it was: the loop over the keys reads a property of `null`.
  pub null_key_throws :
      (url : Text) (body : Fields) (cache_control : Option Text) (vs : Items) (now : ℕ)
      (c : JwksCache Key)
      → get "keys" body ≡ some (arr vs)
      → has_null vs ≡ true
      → (do_refresh import_jwk (response url (some (obj body)) cache_control) now c ≡ thrown)
        × (settle import_jwk (response url (some (obj body)) cache_control) now c
            ≡ record c { refreshing = false })
  unfolding settle
  null_key_throws url body cache_control vs now c keys h = ground (arith, collected_none vs h)

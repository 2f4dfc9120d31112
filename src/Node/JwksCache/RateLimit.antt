-- ===== src/Node/JwksCache/RateLimit.antt =====
-- Tokens with unknown key ids cannot make a fresh cache fetch more than once in 30 seconds.
use rakomi_js.Common.{
  ℕ, ◌+◌, ◌*◌, ◌≤◌, max, false, not, ◌&&◌, Option, none, some, List, [], ◌∷◌, ◌≡◌, arith,
  if◌then◌else◌,
}
use rakomi_js.Common.Text.{Text}
use rakomi_js.Common.Json.{Fields, obj}
use rakomi_js.Node.JwksCache.{
  CacheState, JwksCache, Fetched, discovery_failed, fetch_failed, http_error, response, settle,
  get_key, is_expired, Event, asks, settles, step, unknown_kid_refresh_cooldown_ms,
}

-- The cached set is there and within its age at a time.
abbrev pub IsFresh : {Key : Type 0} → Option (CacheState Key) → ℕ → Type 0
IsFresh none now = ⊥
IsFresh (some state) now = is_expired state now ≡ false

abbrev pub time_of : Event → ℕ
time_of (asks kid now) = now
time_of (settles fetched now) = now

abbrev pub last_time : ℕ → List Event → ℕ
last_time t [] = t
last_time t (e ∷ es) = last_time (time_of e) es

abbrev pub IsOrdered : ℕ → List Event → Type 0
IsOrdered t [] = Unit
IsOrdered t (e ∷ es) = (t ≤ time_of e) × IsOrdered (time_of e) es

-- The earliest time of the next refresh that an unknown key id can start.
abbrev earliest : Option ℕ → ℕ → ℕ
earliest none t = t
earliest (some at) t = max t (at + unknown_kid_refresh_cooldown_ms)

abbrev pub NotLater : Option ℕ → ℕ → Type 0
NotLater none t = Unit
NotLater (some at) t = at ≤ t

module _ {Key : Type 0} (import_jwk : Fields → Text → Option Key) where
  -- Whether a step starts a refresh.
  abbrev pub starts : JwksCache Key → Event → ℕ
  starts c e = if not c.refreshing && (step import_jwk c e).refreshing then 1 else 0

  unfoldable pub refreshes : JwksCache Key → List Event → ℕ
  refreshes c [] = 0
  refreshes c (e ∷ es) = starts c e + refreshes (step import_jwk c e) es

  -- Every lookup finds the cached set within its age.
  abbrev pub FreshAt : JwksCache Key → Event → Type 0
  FreshAt c (asks kid now) = IsFresh c.cache now
  FreshAt c (settles fetched now) = Unit

  unfoldable pub AllFresh : JwksCache Key → List Event → Type 0
  AllFresh c [] = Unit
  AllFresh c (e ∷ es) = FreshAt c e × AllFresh (step import_jwk c e) es

  settle_keeps :
      (fetched : Fetched) (now : ℕ) (c : JwksCache Key)
      → ((settle import_jwk fetched now c).last_refresh_attempt_at ≡ c.last_refresh_attempt_at)
        × ((settle import_jwk fetched now c).refreshing ≡ false)
  unfolding settle
  settle_keeps discovery_failed now c = ground arith
  settle_keeps fetch_failed now c = ground arith
  settle_keeps (http_error status) now c = ground arith
  settle_keeps (response url (some (obj body)) cache_control) now c = ground arith
  settle_keeps (response url _ cache_control) now c = ground arith

  -- One step: a refresh that it starts respects the pause and is remembered.
  step_spaced :
      (t : ℕ) (c : JwksCache Key) (e : Event)
      → t ≤ time_of e
      → NotLater c.last_refresh_attempt_at t
      → FreshAt c e
      → NotLater (step import_jwk c e).last_refresh_attempt_at (time_of e)
        × (unknown_kid_refresh_cooldown_ms * starts c e + earliest c.last_refresh_attempt_at t
            ≤ earliest (step import_jwk c e).last_refresh_attempt_at (time_of e))
  unfolding step get_key
  step_spaced t c (asks kid now) le past fresh = ground arith
  step_spaced t c (settles fetched now) le past fresh = ground (arith, settle_keeps fetched now c)

  refreshes_spaced :
      (t : ℕ) (c : JwksCache Key) (es : List Event)
      → IsOrdered t es
      → NotLater c.last_refresh_attempt_at t
      → AllFresh c es
      → unknown_kid_refresh_cooldown_ms * refreshes c es + earliest c.last_refresh_attempt_at t
        ≤ last_time t es + unknown_kid_refresh_cooldown_ms
  unfolding refreshes AllFresh
  refreshes_spaced t c [] o past fresh = ground arith
  refreshes_spaced t c (e ∷ es) o past fresh =
      let (past', spaced) = step_spaced t c e o.0 past fresh.0 in
      omega (arith, spaced, refreshes_spaced (time_of e) (step import_jwk c e) es o.1 past' fresh.1)

  -- Over any history in the order of its times, which starts no earlier than the last refresh and
  -- in which the cached set is within its age at every lookup, the lookups start at most one
  -- refresh for each 30 seconds of the history, and one more: whatever key ids the tokens carry,
  -- and however the refreshes end.
  pub refreshes_bounded :
      (t : ℕ) (c : JwksCache Key) (es : List Event)
      → IsOrdered t es
      → NotLater c.last_refresh_attempt_at t
      → AllFresh c es
      → unknown_kid_refresh_cooldown_ms * refreshes c es + t
        ≤ last_time t es + unknown_kid_refresh_cooldown_ms
  refreshes_bounded t c es o past fresh =
      omega (arith, refreshes_spaced t c es o past fresh, later c.last_refresh_attempt_at t)
    where
      later : (last : Option ℕ) (t : ℕ) → t ≤ earliest last t
      later none t = omega arith
      later (some at) t = omega arith

-- ===== src/Mobile/SubmitNonces.antt =====
-- The submit nonces of packages/react-native/src/internal/token-runtime.ts: a sign-in's tokens are taken
-- only with a nonce that was issued before.
pub mod Fresh
use rakomi_js.Common.{
  ℕ, ◌+◌, ◌≤◌, Bool, true, false, not, List, [], ◌∷◌, length, ltb, leb, if◌then◌else◌, keep, any,
  ◌≡◌, arith, refl, Bool-cases, inl, inr, suc, ◌⊎◌,
}
use rakomi_js.Common.Text.{Text, text_eq, text_eq_iff, text_eq_refl}

abbrev pub nonce_ttl_ms : ℕ
nonce_ttl_ms = 300_000

abbrev pub max_pending_nonces : ℕ
max_pending_nonces = 100

-- `submitNonces`: each pending nonce with its expiry, in the order of insertion.
abbrev pub Nonces : Type 0
Nonces = List (Text × ℕ)

-- `this.submitNonces.set(nonce, expiresAt)`; a present key keeps its place
unfoldable pub set : Text → ℕ → Nonces → Nonces
set nonce expires_at [] = (nonce, expires_at) ∷ []
set nonce expires_at ((key, old) ∷ rest) =
    let later = set nonce expires_at rest in
    if text_eq key nonce then (key, expires_at) ∷ rest else (key, old) ∷ later

-- `gcExpiredNonces`
unfoldable pub gc_expired_nonces : ℕ → Nonces → Nonces
gc_expired_nonces now [] = []
gc_expired_nonces now ((key, expires_at) ∷ rest) =
    let kept = gc_expired_nonces now rest in
    if ltb expires_at now then kept else (key, expires_at) ∷ kept

-- The loop of `beginAuthFlow` that drops the oldest nonces
unfoldable pub evict : Nonces → Nonces
evict [] = []
evict (entry ∷ rest) =
    let fewer = evict rest in
    if ltb max_pending_nonces (length (entry ∷ rest)) then fewer else entry ∷ rest

-- `beginAuthFlow`, with the nonce drawn and the two readings of the clock
unfoldable pub begin_auth_flow : Text → ℕ → ℕ → Nonces → Nonces
unfolding set gc_expired_nonces evict
begin_auth_flow nonce now now' pending =
    evict (gc_expired_nonces now' (set nonce (now + nonce_ttl_ms) pending))

-- `this.submitNonces.has(nonce)`
unfoldable pub has : Text → Nonces → Bool
has nonce [] = false
has nonce ((key, expires_at) ∷ rest) =
    let later = has nonce rest in if text_eq key nonce then true else later

-- `this.submitNonces.delete(nonce)`, for the one entry of a key
unfoldable pub delete : Text → Nonces → Nonces
delete nonce [] = []
delete nonce ((key, expires_at) ∷ rest) =
    let later = delete nonce rest in if text_eq key nonce then rest else (key, expires_at) ∷ later

-- `consumeNonce`, which `validateSubmitNonce` calls: the answer and what stays pending
unfoldable pub consume_nonce : Text → ℕ → Nonces → Bool × Nonces
unfolding gc_expired_nonces has delete
consume_nonce nonce now pending =
    let live = gc_expired_nonces now pending in
    if has nonce live then (true, delete nonce live) else (false, live)

-- The calls of an app.
pub data Call : Type 0 where
  begins : Text → ℕ → ℕ → Call
  submits : Text → ℕ → Call

unfoldable pub step : Nonces → Call → Bool × Nonces
unfolding begin_auth_flow consume_nonce
step pending (begins nonce now now') = (false, begin_auth_flow nonce now now' pending)
step pending (submits nonce now) = consume_nonce nonce now pending

unfoldable pub run : Nonces → List Call → Nonces
unfolding step
run pending [] = pending
run pending (c ∷ cs) = run (step pending c).1 cs

-- How often the calls draw a nonce.
unfoldable pub issued : Text → List Call → ℕ
issued nonce [] = 0
issued nonce (begins n now now' ∷ cs) =
    let later = issued nonce cs in if text_eq n nonce then suc later else later
issued nonce (submits n now ∷ cs) = issued nonce cs

-- How often the calls have a nonce accepted.
unfoldable pub taken : Text → Nonces → List Call → ℕ
unfolding step
taken nonce pending [] = 0
taken nonce pending (begins n now now' ∷ cs) = taken nonce (step pending (begins n now now')).1 cs
taken nonce pending (submits n now ∷ cs) =
    let later = taken nonce (step pending (submits n now)).1 cs in
    if text_eq n nonce
    then (if (step pending (submits n now)).0 then suc later else later)
    else later

-- How many entries a nonce has: one at most in a `Map`.
unfoldable held : Text → Nonces → ℕ
held nonce [] = 0
held nonce ((key, expires_at) ∷ rest) =
    let later = held nonce rest in if text_eq key nonce then suc later else later

module _ (nonce : Text) where
  held-set :
      (n : Text) (at : ℕ) (p : Nonces)
      → held nonce (set n at p) ≤ held nonce p + (if text_eq n nonce then 1 else 0)
  unfolding held set
  held-set n at [] = ground arith
  held-set n at ((key, old) ∷ rest) =
      ground
        (arith, held-set n at rest, text_eq_iff key n, text_eq_iff key nonce, text_eq_iff n nonce)

  held-gc : (now : ℕ) (p : Nonces) → held nonce (gc_expired_nonces now p) ≤ held nonce p
  unfolding held gc_expired_nonces
  held-gc now [] = omega arith
  held-gc now ((key, at) ∷ rest) = ground (arith, held-gc now rest)

  held-evict : (p : Nonces) → held nonce (evict p) ≤ held nonce p
  unfolding held evict
  held-evict [] = omega arith
  held-evict (entry ∷ rest) = ground (arith, held-evict rest)

  held-delete :
      (n : Text) (p : Nonces)
      → has n p ≡ true
      → held nonce (delete n p) + (if text_eq n nonce then 1 else 0) ≤ held nonce p
  unfolding held delete has
  held-delete n [] h = cc
  held-delete n ((key, at) ∷ rest) h =
      ground
        (arith, held-delete n rest, text_eq_iff key n, text_eq_iff key nonce, text_eq_iff n nonce)

  taken-issued : (p : Nonces) (cs : List Call) → taken nonce p cs ≤ held nonce p + issued nonce cs
  unfolding taken issued step begin_auth_flow consume_nonce
  taken-issued p [] = omega arith
  taken-issued p (begins n now now' ∷ cs) = ground (
    arith,
    taken-issued (begin_auth_flow n now now' p) cs,
    held-evict (gc_expired_nonces now' (set n (now + nonce_ttl_ms) p)),
    held-gc now' (set n (now + nonce_ttl_ms) p),
    held-set n (now + nonce_ttl_ms) p,
  )
  taken-issued p (submits n now ∷ cs) = ground (
    arith,
    taken-issued (consume_nonce n now p).1 cs,
    held-gc now p,
    held-delete n (gc_expired_nonces now p),
  )

  -- Over any history of sign-ins begun and tokens submitted, from no pending nonce on, a nonce is
  -- accepted at most as often as it was issued: no nonce is accepted twice or without being issued.
  pub nonce_single_use : (cs : List Call) → taken nonce [] cs ≤ issued nonce cs
  unfolding held
  nonce_single_use cs = omega (arith, taken-issued [] cs)

-- ===== src/Mobile/SubmitNonces/Fresh.antt =====
-- The age of an accepted nonce, and how many nonces are pending.
use rakomi_js.Common.{
  ℕ, ◌+◌, ◌≤◌, true, List, [], ◌∷◌, length, ◌≡◌, arith, ◌⊎◌, inl, inr, Bool-cases,
}
use rakomi_js.Common.Text.{Text, text_eq_iff}
use rakomi_js.Mobile.SubmitNonces.{
  nonce_ttl_ms, max_pending_nonces, Nonces, set, gc_expired_nonces, evict, begin_auth_flow, has,
  delete, consume_nonce, Call, begins, submits, step, run,
}

-- The calls issue the nonce no longer than its lifetime before `at`.
abbrev pub IssuedWithin : Text → ℕ → List Call → Type 0
IssuedWithin nonce at [] = ⊥
IssuedWithin nonce at (begins n now now' ∷ cs) =
    ((n ≡ nonce) × (at ≤ now + nonce_ttl_ms)) ⊎ IssuedWithin nonce at cs
IssuedWithin nonce at (submits n now ∷ cs) = IssuedWithin nonce at cs

-- An entry of the nonce is not expired at `at`.
abbrev IsLive : Text → ℕ → Nonces → Type 0
IsLive nonce at [] = ⊥
IsLive nonce at ((key, expires_at) ∷ rest) =
    ((key ≡ nonce) × (at ≤ expires_at)) ⊎ IsLive nonce at rest

module _ (nonce : Text) (at : ℕ) where
  set-IsLive :
      (n : Text) (e : ℕ) (p : Nonces)
      → IsLive nonce at (set n e p)
      → ((n ≡ nonce) × (at ≤ e)) ⊎ IsLive nonce at p
  unfolding set
  set-IsLive n e [] h = h
  set-IsLive n e ((key, old) ∷ rest) h = ground (arith, set-IsLive n e rest, text_eq_iff key n)

  gc-IsLive : (now : ℕ) (p : Nonces) → IsLive nonce at (gc_expired_nonces now p) → IsLive nonce at p
  unfolding gc_expired_nonces
  gc-IsLive now [] h = h
  gc-IsLive now ((key, e) ∷ rest) h = ground (arith, gc-IsLive now rest)

  evict-IsLive : (p : Nonces) → IsLive nonce at (evict p) → IsLive nonce at p
  unfolding evict
  evict-IsLive [] h = h
  evict-IsLive ((key, e) ∷ rest) h = ground (arith, evict-IsLive rest)

  delete-IsLive : (n : Text) (p : Nonces) → IsLive nonce at (delete n p) → IsLive nonce at p
  unfolding delete
  delete-IsLive n [] h = h
  delete-IsLive n ((key, e) ∷ rest) h = ground (arith, delete-IsLive n rest)

  has-IsLive : (p : Nonces) → has nonce (gc_expired_nonces at p) ≡ true → IsLive nonce at p
  unfolding has gc_expired_nonces
  has-IsLive [] h = cc
  has-IsLive ((key, e) ∷ rest) h = ground (arith, has-IsLive rest, text_eq_iff key nonce)

  consume-IsLive :
      (n : Text) (now : ℕ) (p : Nonces)
      → IsLive nonce at (consume_nonce n now p).1
      → IsLive nonce at p
  unfolding consume_nonce
  consume-IsLive n now p h = elim (Bool-cases (has n (gc_expired_nonces now p))) [
    | inl there ↦ gc-IsLive now p (delete-IsLive n (gc_expired_nonces now p) ground arith)
    | inr missing ↦ gc-IsLive now p ground arith
  ]

  run-IsLive :
      (p : Nonces) (cs : List Call)
      → IsLive nonce at (run p cs)
      → IsLive nonce at p ⊎ IssuedWithin nonce at cs
  unfolding run step begin_auth_flow
  run-IsLive p [] h = inl h
  run-IsLive p (begins n now now' ∷ cs) h =
      let stored = set n (now + nonce_ttl_ms) p in
      let kept = gc_expired_nonces now' stored in
      ground (
        arith,
        run-IsLive (evict kept) cs h,
        evict-IsLive kept,
        gc-IsLive now' stored,
        set-IsLive n (now + nonce_ttl_ms) p,
      )
  run-IsLive p (submits n now ∷ cs) h =
      ground (arith, run-IsLive (consume_nonce n now p).1 cs h, consume-IsLive n now p)

  -- If, after any history that starts with no pending nonce, a nonce is accepted, then the history
  -- issues it at most five minutes before.
  pub nonce_fresh :
      (cs : List Call) → (consume_nonce nonce at (run [] cs)).0 ≡ true → IssuedWithin nonce at cs
  unfolding consume_nonce
  nonce_fresh cs h = ground (arith, run-IsLive [] cs, has-IsLive (run [] cs))

length-evict : (p : Nonces) → length (evict p) ≤ max_pending_nonces
unfolding evict
length-evict [] = omega arith
length-evict (entry ∷ rest) = ground (arith, length-evict rest)

length-gc : (now : ℕ) (p : Nonces) → length (gc_expired_nonces now p) ≤ length p
unfolding gc_expired_nonces
length-gc now [] = omega arith
length-gc now ((key, e) ∷ rest) = ground (arith, length-gc now rest)

length-delete : (n : Text) (p : Nonces) → length (delete n p) ≤ length p
unfolding delete
length-delete n [] = omega arith
length-delete n ((key, e) ∷ rest) = ground (arith, length-delete n rest)

step_bound :
    (p : Nonces) (c : Call)
    → length p ≤ max_pending_nonces
    → length (step p c).1 ≤ max_pending_nonces
unfolding step begin_auth_flow consume_nonce
step_bound p (begins n now now') h =
    length-evict (gc_expired_nonces now' (set n (now + nonce_ttl_ms) p))
step_bound p (submits n now) h =
    ground (arith, length-gc now p, length-delete n (gc_expired_nonces now p))

-- However many sign-ins are begun, at most 100 nonces are pending.
pub pending_bound :
    (p : Nonces) (cs : List Call)
    → length p ≤ max_pending_nonces
    → length (run p cs) ≤ max_pending_nonces
unfolding run
pending_bound p [] h = h
pending_bound p (c ∷ cs) h = pending_bound (step p c).1 cs (step_bound p c h)

-- ===== src/Cli/RefreshLock/Moves.antt =====
-- One step of packages/cli/src/refresh-lock.ts and the lock of a process: what Kept says holds after it.
use rakomi_js.Common.{ℕ, true, false, is_some, ◌≡◌, ◌==◌, ◌⊎◌, ==_iff, arith, inl, inr}
use rakomi_js.Cli.RefreshLock.{
  Phase, stating, reading, renaming, comparing, linking, unlinking, System, is_inside, names,
  try_create, advance,
}
use rakomi_js.Cli.RefreshLock.Kept.{
  is_ended, is_started, is_reading, is_unlinking, is_carrying, has_lock, returns, has_observed,
  is_critical, token_of, is_overdue, IsHeld, IsKept,
}

-- A process moves; the lock file stays for every other process that relies on it.
module _ (stale_ms p q : ℕ) (s : System) (k : IsKept p s) where
  advance-started :
      (phase : Phase)
      → s.phase q ≡ phase
      → names p (advance stale_ms q phase s).path ≡ true
      → is_started ((advance stale_ms q phase s).phase p) ≡ true
  unfolding advance try_create
  advance-started (linking lock) at h = ground (arith, k.started, k.carried_started q, ==_iff q p)
  advance-started _ at h = ground (arith, k.started, ==_iff q p)

  advance-carried_started :
      (phase : Phase)
      → s.phase q ≡ phase
      → (r : ℕ) → has_lock p ((advance stale_ms q phase s).phase r) ≡ true
      → is_started ((advance stale_ms q phase s).phase p) ≡ true
  unfolding advance try_create
  advance-carried_started (renaming observed) at r h =
      ground (arith, k.started, k.carried_started r, ==_iff q p, ==_iff q r)
  advance-carried_started (comparing observed lock) at r h =
      ground (arith, k.carried_started q, k.carried_started r, ==_iff q p, ==_iff q r)
  advance-carried_started _ at r h = ground (arith, k.carried_started r, ==_iff q p, ==_iff q r)

  advance-observed :
      (phase : Phase)
      → s.phase q ≡ phase
      → (r : ℕ) → has_observed p ((advance stale_ms q phase s).phase r) ≡ true
      → is_ended ((advance stale_ms q phase s).phase p) ≡ true
  unfolding advance try_create
  advance-observed reading at r h = ground (arith, k.read q, k.observed r, ==_iff q p, ==_iff q r)
  advance-observed _ at r h = ground (arith, k.observed r, ==_iff q p, ==_iff q r)

  advance-alone :
      (phase : Phase)
      → s.phase q ≡ phase
      → (r t : ℕ) → is_carrying ((advance stale_ms q phase s).phase r) ≡ true
      → is_carrying ((advance stale_ms q phase s).phase t) ≡ true
      → r ≡ t
  unfolding advance try_create
  advance-alone (comparing observed lock) at r t h h' =
      ground (arith, k.alone r t, k.alone q t, k.alone r q, ==_iff q r, ==_iff q t)
  advance-alone (renaming observed) at r t h h' =
      ground (arith, k.alone r t, k.carried r, k.carried t, ==_iff q r, ==_iff q t)
  advance-alone _ at r t h h' = ground (arith, k.alone r t, ==_iff q r, ==_iff q t)

  -- The move leaves the lock file alone where another process relies on it.
  abbrev pub IsCalm : Phase → Type 0
  IsCalm phase =
      (r : ℕ)
      → (q == r) ≡ false
      → is_critical (s.phase r) ≡ true
      → token_of (advance stale_ms q phase s).path ≡ token_of s.path

  advance-carried :
      (phase : Phase)
      → s.phase q ≡ phase
      → IsCalm phase
      → (r : ℕ) → is_carrying ((advance stale_ms q phase s).phase r) ≡ true
      → is_some (advance stale_ms q phase s).path ≡ false
  unfolding advance try_create
  advance-carried (comparing observed lock) at calm r h =
      ground (arith, calm r, k.carried q, k.carried r, ==_iff q r)
  advance-carried _ at calm r h = ground (arith, calm r, k.carried r, ==_iff q r)

  advance-owned :
      (phase : Phase)
      → s.phase q ≡ phase
      → IsCalm phase
      → (r : ℕ) → is_unlinking ((advance stale_ms q phase s).phase r) ≡ true
      → names r (advance stale_ms q phase s).path ≡ true
  unfolding advance try_create
  advance-owned _ at calm r h = ground (arith, calm r, k.owned r, ==_iff q r)

  advance-read :
      (phase : Phase)
      → s.phase q ≡ phase
      → IsCalm phase
      → is_overdue stale_ms p s ≡ false
      → (r : ℕ) → is_reading ((advance stale_ms q phase s).phase r) ≡ true
      → names p (advance stale_ms q phase s).path ≡ true
      → is_ended ((advance stale_ms q phase s).phase p) ≡ true
  unfolding advance try_create
  advance-read stating at calm timely r h h' =
      ground (arith, calm r, k.read r, k.started, ==_iff q r, ==_iff q p)
  advance-read _ at calm timely r h h' = ground (arith, calm r, k.read r, ==_iff q r, ==_iff q p)

  advance_enters :
      (phase : Phase)
      → s.phase q ≡ phase
      → is_inside ((advance stale_ms q phase s).phase p) ≡ true
      → (is_inside (s.phase p) ≡ true) ⊎ (names p (advance stale_ms q phase s).path ≡ true)
  unfolding advance try_create
  advance_enters _ at h = ground (arith, ==_iff q p)

  -- The lock of a process inside stays, or is renamed by one that has read another.
  advance-named :
      (phase : Phase)
      → s.phase q ≡ phase
      → names p s.path ≡ true
      → is_inside (s.phase p) ≡ true
      → is_inside ((advance stale_ms q phase s).phase p) ≡ true
      → (names p (advance stale_ms q phase s).path ≡ true)
        ⊎ (returns p ((advance stale_ms q phase s).phase q) ≡ true)
  unfolding advance try_create
  advance-named (renaming observed) at named inside h =
      ground (arith, k.observed q, ==_iff q p, ==_iff q q)
  advance-named unlinking at named inside h = ground (arith, k.owned q, ==_iff q p)
  advance-named _ at named inside h = ground (arith, ==_iff q p)

  -- A lock that is to be put back still is, or is back.
  advance-returns :
      (phase : Phase)
      → s.phase q ≡ phase
      → (r : ℕ) → returns p (s.phase r) ≡ true
      → (names p (advance stale_ms q phase s).path ≡ true)
        ⊎ (returns p ((advance stale_ms q phase s).phase r) ≡ true)
  unfolding advance try_create
  advance-returns (linking lock) at r h = ground (arith, k.carried q, ==_iff q r)
  advance-returns _ at r h = ground (arith, ==_iff q r)

  advance-kept :
      (phase : Phase)
      → s.phase q ≡ phase
      → is_inside ((advance stale_ms q phase s).phase p) ≡ true
      → IsHeld p (advance stale_ms q phase s)
  advance-kept phase at h = elim (advance_enters phase at h) [
    | inr named ↦ inl named
    | inl inside ↦ elim (k.kept inside) [
      | inl named ↦ elim (advance-named phase at named inside h) [
        | inl there ↦ inl there
        | inr carried ↦ inr (q, carried)
      ]
      | inr (r, carried) ↦ elim (advance-returns phase at r carried) [
        | inl there ↦ inl there
        | inr still ↦ inr (r, still)
      ]
    ]
  ]

  pub advance-IsKept :
      (phase : Phase)
      → s.phase q ≡ phase
      → IsCalm phase
      → is_overdue stale_ms p s ≡ false
      → IsKept p (advance stale_ms q phase s)
  advance-IsKept phase at calm timely = record {
    started = advance-started phase at;
    carried_started = advance-carried_started phase at;
    read = advance-read phase at calm timely;
    observed = advance-observed phase at;
    carried = advance-carried phase at calm;
    alone = advance-alone phase at;
    owned = advance-owned phase at calm;
    kept = advance-kept phase at;
  }

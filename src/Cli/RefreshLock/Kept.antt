-- ===== src/Cli/RefreshLock/Kept.antt =====
-- The lock of a process in packages/cli/src/refresh-lock.ts between its creation and its removal: what holds of
-- the lock file and of the processes that take over, as one process moves.
use rakomi_js.Common.{
  ℕ, Bool, true, false, not, Option, ◌&&◌, ◌||◌, none, some, is_some, ◌≡◌, ◌==◌, ◌⊎◌,
}
use rakomi_js.Cli.RefreshLock.{
  LockFile, Phase, gone, crashed, reading, renaming, comparing, linking, unlinking, System,
  is_inside, is_fresh, names,
}

abbrev pub is_ended : Phase → Bool
is_ended gone = true
is_ended crashed = true
is_ended _ = false

abbrev pub is_started : Phase → Bool
is_started phase = is_inside phase || is_ended phase

abbrev pub is_reading : Phase → Bool
is_reading reading = true
is_reading _ = false

abbrev pub is_unlinking : Phase → Bool
is_unlinking unlinking = true
is_unlinking _ = false

-- The process has renamed a lock and not yet put it back or dropped it.
abbrev pub is_carrying : Phase → Bool
is_carrying (comparing observed lock) = true
is_carrying (linking lock) = true
is_carrying _ = false

-- The lock that it carries is the one of `p`.
abbrev pub has_lock : ℕ → Phase → Bool
has_lock p (comparing observed lock) = lock.token == p
has_lock p (linking lock) = lock.token == p
has_lock p _ = false

-- And it is going to put it back.
abbrev pub returns : ℕ → Phase → Bool
returns p (comparing observed lock) = lock.token == p && not (observed == p)
returns p (linking lock) = lock.token == p
returns p _ = false

abbrev pub has_observed : ℕ → Phase → Bool
has_observed p (renaming observed) = observed == p
has_observed p _ = false

-- A process that looks, carries or removes relies on the lock file.
abbrev pub is_critical : Phase → Bool
is_critical phase = is_reading phase || is_unlinking phase || is_carrying phase

abbrev pub token_of : Option LockFile → Option ℕ
token_of none = none
token_of (some lock) = some lock.token

-- The process is inside, and its lock looks stale.
abbrev pub is_overdue : ℕ → ℕ → System → Bool
is_overdue stale_ms p s = is_inside (s.phase p) && elim s.path [
  | none ↦ false
  | some lock ↦ lock.token == p && not (is_fresh stale_ms s.clock lock)
]

-- The lock of the process is there, or is going to be put back.
abbrev pub IsHeld : ℕ → System → Type 0
IsHeld p s = (names p s.path ≡ true) ⊎ ((q : ℕ) × (returns p (s.phase q) ≡ true))

-- What holds of the lock of `p`, if it never looks stale while `p` is inside: only a process that
-- started has a lock, a takeover has read it only after `p` ended, one process at a time carries a
-- lock, and then there is none, and a process removes no lock but its own.
pub record IsKept (p : ℕ) (s : System) : Type 0 where
  pub started : names p s.path ≡ true → is_started (s.phase p) ≡ true
  pub carried_started : (q : ℕ) → has_lock p (s.phase q) ≡ true → is_started (s.phase p) ≡ true
  pub read :
      (q : ℕ) → is_reading (s.phase q) ≡ true → names p s.path ≡ true → is_ended (s.phase p) ≡ true
  pub observed : (q : ℕ) → has_observed p (s.phase q) ≡ true → is_ended (s.phase p) ≡ true
  pub carried : (q : ℕ) → is_carrying (s.phase q) ≡ true → is_some s.path ≡ false
  pub alone : (q r : ℕ) → is_carrying (s.phase q) ≡ true → is_carrying (s.phase r) ≡ true → q ≡ r
  pub owned : (q : ℕ) → is_unlinking (s.phase q) ≡ true → names q s.path ≡ true
  pub kept : is_inside (s.phase p) ≡ true → IsHeld p s

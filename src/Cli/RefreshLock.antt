-- ===== src/Cli/RefreshLock.antt =====
-- packages/cli/src/refresh-lock.ts: a lock file between processes, as steps of any number of processes in any
-- order. Each call of the file system is one step; the content of the file is written in the step that creates
-- it.
pub mod Kept
pub mod Moves
pub mod Exclusion
use rakomi_js.Common.{
  ℕ, ◌+◌, Bool, true, false, Option, none, some, List, [], ◌∷◌, leb, ◌==◌, if◌then◌else◌,
}

-- The lock file: the token of the process that made it, which no other acquisition has, and its `mtimeMs`.
pub record LockFile : Type 0 where
  pub token : ℕ
  pub touched : ℕ

-- Where a process is in `run`.
pub data Phase : Type 0 where
  -- before `run`, after it, and after a crash
  outside gone crashed : Phase
  -- before the first and the second `tryCreate` of a round, and in the sleep after them
  creating creating_again sleeping : Phase
  -- in `takeOverIfStale`: before `statSync`, before `readOrNull(path)`
  stating reading : Phase
  -- before `renameSync`, with the content observed
  renaming : ℕ → Phase
  -- before the comparison, with the content observed and the file that was renamed
  comparing : ℕ → LockFile → Phase
  -- before `linkSync`, with the renamed file
  linking : LockFile → Phase
  -- `fn` runs; the process reads the lock; the process removes it
  holding leaving unlinking : Phase

pub record System : Type 0 where
  pub path : Option LockFile
  pub clock : ℕ
  pub phase : ℕ → Phase

abbrev pub update {ℓ} : {A : Type ℓ} → (ℕ → A) → ℕ → A → ℕ → A
update f p a q = if p == q then a else f q

-- The process has the lock file of its own.
abbrev pub is_inside : Phase → Bool
is_inside holding = true
is_inside leaving = true
is_inside unlinking = true
is_inside _ = false

abbrev pub moved : ℕ → Phase → System → System
moved p phase s = record s { phase = update s.phase p phase }

abbrev placed : Option LockFile → System → System
placed path s = record s { path = path }

-- `tryCreate`, with the phase that follows where the file exists
unfoldable pub try_create : ℕ → Phase → System → System
try_create p otherwise s = elim s.path [
  | none ↦ moved p holding (placed (some (record { token = p; touched = s.clock })) s)
  | some lock ↦ moved p otherwise s
]

-- `now() - mtimeMs <= staleMs`
abbrev pub is_fresh : ℕ → ℕ → LockFile → Bool
is_fresh stale_ms clock lock = leb clock (lock.touched + stale_ms)

abbrev pub names : ℕ → Option LockFile → Bool
names token none = false
names token (some lock) = lock.token == token

pub data Event : Type 0 where
  -- a process takes its next step; time passes; a holder touches the file; a process crashes; a waiting
  -- process gives up at its deadline
  steps beats crashes gives_up : ℕ → Event
  ticks : ℕ → Event

module _ (stale_ms : ℕ) where
  -- What a process does next, by its phase.
  unfoldable pub advance : ℕ → Phase → System → System
  unfolding try_create
  advance p outside s = moved p creating s
  advance p gone s = s
  advance p crashed s = s
  advance p creating s = try_create p stating s
  advance p creating_again s = try_create p sleeping s
  advance p sleeping s = moved p creating s
  advance p stating s = elim s.path [
    | none ↦ moved p creating_again s
    | some lock ↦
        if is_fresh stale_ms s.clock lock then moved p creating_again s else moved p reading s
  ]
  advance p reading s = elim s.path [
    | none ↦ moved p creating_again s
    | some lock ↦ moved p (renaming lock.token) s
  ]
  advance p (renaming observed) s = elim s.path [
    | none ↦ moved p creating_again s
    | some lock ↦ moved p (comparing observed lock) (placed none s)
  ]
  advance p (comparing observed lock) s =
      if lock.token == observed then moved p creating_again s else moved p (linking lock) s
  advance p (linking lock) s = elim s.path [
    | none ↦ moved p creating_again (placed (some lock) s)
    | some other ↦ moved p creating_again s
  ]
  advance p holding s = moved p leaving s
  advance p leaving s = if names p s.path then moved p unlinking s else moved p gone s
  advance p unlinking s = moved p gone (placed none s)

  -- The heartbeat of a holder
  unfoldable pub beat : ℕ → System → System
  beat p s = elim s.path [
    | none ↦ s
    | some lock ↦ if lock.token == p then placed (some (record lock { touched = s.clock })) s else s
  ]

  unfoldable pub step : System → Event → System
  unfolding advance beat
  step s (steps p) = advance p (s.phase p) s
  step s (beats p) = if is_inside (s.phase p) then beat p s else s
  step s (crashes p) = moved p crashed s
  step s (gives_up p) = elim (s.phase p) [ sleeping ↦ moved p gone s | _ ↦ s ]
  step s (ticks ms) = record s { clock = s.clock + ms }

  unfoldable pub run : System → List Event → System
  unfolding step
  run s [] = s
  run s (e ∷ es) = run (step s e) es

-- No lock file, and every process before its call.
abbrev pub initial : System
initial = record { path = none; clock = 0; phase = λ p. outside }

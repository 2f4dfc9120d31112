-- ===== src/Cli/RefreshLock/Exclusion.antt =====
-- Mutual exclusion of packages/cli/src/refresh-lock.ts between processes that touch their locks in time.
use rakomi_js.Common.{
  ℕ, Bool, true, false, List, [], ◌∷◌, ◌≡◌, ◌⊎◌, ◌==◌, ==_iff, refl, arith, inl, inr,
}
use rakomi_js.Cli.RefreshLock.{
  System, is_inside, beat, Event, steps, beats, crashes, gives_up, ticks, step, run, initial,
}
use rakomi_js.Cli.RefreshLock.Kept.{
  is_ended, is_carrying, is_critical, is_overdue, token_of, IsHeld, IsKept,
}
use rakomi_js.Cli.RefreshLock.Moves.{advance-IsKept}

abbrev pub moves : Event → ℕ → Bool
moves (steps p) q = p == q
moves _ q = false

-- Where the process reads the lock file that it found stale, carries a lock that it renamed, or
-- removes its own, no other process creates, renames, puts back or removes a lock before its next
-- step, and it does not crash.
abbrev pub IsUndisturbed : ℕ → ℕ → System → List Event → Type 0
IsUndisturbed stale_ms q s [] = Unit
IsUndisturbed stale_ms q s (e ∷ es) =
    (moves e q ≡ false
      → is_critical (s.phase q) ≡ true
      → (token_of (step stale_ms s e).path ≡ token_of s.path)
        × ((step stale_ms s e).phase q ≡ s.phase q))
    × IsUndisturbed stale_ms q (step stale_ms s e) es

-- At no event does the lock of the process look stale while the process is inside.
abbrev pub IsTimely : ℕ → ℕ → System → List Event → Type 0
IsTimely stale_ms p s [] = Unit
IsTimely stale_ms p s (e ∷ es) =
    (is_overdue stale_ms p s ≡ false) × IsTimely stale_ms p (step stale_ms s e) es

-- A change that leaves the lock file and every process as it was, or ends a process that carries no lock.
module _ (p : ℕ) (s s' : System) (k : IsKept p s) (tokens : token_of s'.path ≡ token_of s.path)
    (phases : (r : ℕ)
      → (s'.phase r ≡ s.phase r)
        ⊎ ((is_ended (s'.phase r) ≡ true) × (is_carrying (s.phase r) ≡ false))) where
  unmoved-kept : is_inside (s'.phase p) ≡ true → IsHeld p s'
  unmoved-kept h =
      let inside : is_inside (s.phase p) ≡ true = ground (arith, phases p) in
      elim (k.kept inside) [
        | inl named ↦ inl ground arith
        | inr (r, carried) ↦ inr (r, ground (arith, phases r))
      ]

  unmoved-IsKept : IsKept p s'
  unmoved-IsKept = record {
    started = λ h. ground (arith, k.started, phases p);
    carried_started = λ r h. ground (arith, k.carried_started r, phases p, phases r);
    read = λ r h h'. ground (arith, k.read r, phases p, phases r);
    observed = λ r h. ground (arith, k.observed r, phases p, phases r);
    carried = λ r h. ground (arith, k.carried r, phases r);
    alone = λ r t h h'. ground (arith, k.alone r t, phases r, phases t);
    owned = λ r h. ground (arith, k.owned r, phases r);
    kept = unmoved-kept;
  }

module _ (stale_ms p : ℕ) where
  step-IsKept :
      (s : System) (e : Event)
      → IsKept p s
      → ((q : ℕ) → IsUndisturbed stale_ms q s (e ∷ []))
      → is_overdue stale_ms p s ≡ false
      → IsKept p (step stale_ms s e)
  unfolding step beat
  step-IsKept s (steps q) k u timely =
      advance-IsKept stale_ms p q s k (s.phase q) refl
        (λ r other critical. ((u r).0 other critical).0) timely
  step-IsKept s (beats q) k u timely =
      unmoved-IsKept p s (step stale_ms s (beats q)) k ground arith (λ r. ground arith)
  step-IsKept s (crashes q) k u timely =
      unmoved-IsKept p s (step stale_ms s (crashes q)) k refl
        (λ r. ground (arith, (u r).0, ==_iff q r))
  step-IsKept s (gives_up q) k u timely =
      unmoved-IsKept p s (step stale_ms s (gives_up q)) k ground arith
        (λ r. ground (arith, ==_iff q r))
  step-IsKept s (ticks ms) k u timely =
      unmoved-IsKept p s (step stale_ms s (ticks ms)) k refl (λ r. inl refl)

  run-IsKept :
      (s : System) (es : List Event)
      → IsKept p s
      → ((q : ℕ) → IsUndisturbed stale_ms q s es)
      → IsTimely stale_ms p s es
      → IsKept p (run stale_ms s es)
  unfolding run
  run-IsKept s [] k u timely = k
  run-IsKept s (e ∷ es) k u timely =
      run-IsKept (step stale_ms s e) es (step-IsKept s e k (λ q. ((u q).0, tt)) timely.0)
        (λ q. (u q).1) timely.1

  initial-IsKept : IsKept p initial
  initial-IsKept = record {
    started = λ h. absurd cc;
    carried_started = λ r h. absurd cc;
    read = λ r h h'. absurd cc;
    observed = λ r h. absurd cc;
    carried = λ r h. absurd cc;
    alone = λ r t h h'. absurd cc;
    owned = λ r h. absurd cc;
    kept = λ h. absurd cc;
  }

IsKept-exclusive :
    (p q : ℕ) (s : System)
    → IsKept p s
    → IsKept q s
    → is_inside (s.phase p) ≡ true
    → is_inside (s.phase q) ≡ true
    → p ≡ q
IsKept-exclusive p q s k l inside inside' = elim (k.kept inside) [
  | inl named ↦ elim (l.kept inside') [
    | inl named' ↦ ground arith
    | inr (r, carried) ↦ ground (arith, l.carried r)
  ]
  | inr (r, carried) ↦ elim (l.kept inside') [
    | inl named' ↦ ground (arith, l.carried r)
    | inr (t, carried') ↦ let same : r ≡ t = ground (arith, l.alone r t) in ground (arith, same)
  ]
]

-- In any run of any number of processes, with crashes, heartbeats and takeovers in any order: of two
-- processes whose locks never look stale while they are inside (from making their lock to its
-- removal), at most one is inside, if no other process changes which lock file is there, and the
-- process itself does not crash, after a process found a lock stale and before it reads its
-- content, after it renamed a lock and before it has put it back or dropped it, and after it found
-- its own lock and before it removes it. After the content is read and before the renaming the lock
-- may change hands, and other processes may be late.
pub mutual_exclusion :
    (stale_ms : ℕ) (es : List Event) (p q : ℕ)
    → ((r : ℕ) → IsUndisturbed stale_ms r initial es)
    → IsTimely stale_ms p initial es
    → IsTimely stale_ms q initial es
    → (p == q) ≡ false
    → is_inside ((run stale_ms initial es).phase p) ≡ true
    → is_inside ((run stale_ms initial es).phase q) ≡ false
mutual_exclusion stale_ms es p q u timely timely' other inside = ground (
  arith,
  ==_iff p q,
  IsKept-exclusive p q (run stale_ms initial es)
      (run-IsKept stale_ms p initial es (initial-IsKept stale_ms p) u timely)
      (run-IsKept stale_ms q initial es (initial-IsKept stale_ms q) u timely') inside,
)

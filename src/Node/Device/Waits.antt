-- ===== src/Node/Device/Waits.antt =====
-- How long the polling waits between two polls.
use rakomi_js.Common.{
  ℕ, zero, suc, ◌+◌, ◌*◌, ◌^◌, ◌≤◌, ◌<◌, min, max, Bool, Option, some, List, [], ◌∷◌, ◌≡◌, ◌↔◌,
  arith, Bool-cases, inl, inr,
}
use rakomi_js.Common.Options.{◌>>=◌, >>=-eq-some}
use rakomi_js.Node.Errors.{SdkError, device_authorization_pending, device_authorization_slow_down}
use rakomi_js.Node.Device.{
  max_poll_interval_ms, max_consecutive_transient_polls, Polling, started, wait_of, is_transient,
  backed_off, told, after_poll,
}

-- If the server answers `slow_down`, then the next interval is longer than the last one exactly if that was
-- shorter than 60 seconds; an interval longer than 60 seconds, as the server may ask for, becomes shorter; and
-- an interval of at most 55 seconds becomes 5 seconds longer.
pub slow_down_lengthens_iff :
    (aborted : Bool) (s s' : Polling)
    → after_poll aborted device_authorization_slow_down s ≡ some s'
    → ((s.interval_ms < s'.interval_ms) ↔ (s.interval_ms < max_poll_interval_ms))
      × ((s'.interval_ms < s.interval_ms) ↔ (max_poll_interval_ms < s.interval_ms))
      × (s.interval_ms ≤ 55_000 → s'.interval_ms ≡ s.interval_ms + 5000)
unfolding after_poll
slow_down_lengthens_iff aborted s s' h = ground arith

-- A sequence of polls that fail and do not end the flow, each with the signal after it.
unfoldable pub continue : Polling → List (Bool × SdkError) → Option Polling
continue s [] = some s
continue s (p ∷ ps) = do s' ← after_poll p.0 p.1 s; continue s' ps

-- The variables are in order, for a first interval.
pub record IsOrderly (first : ℕ) (s : Polling) : Type 0 where
  pub interval_low : min first max_poll_interval_ms ≤ s.interval_ms
  pub interval_high : s.interval_ms ≤ max first max_poll_interval_ms
  pub wait_low : min first max_poll_interval_ms ≤ wait_of s
  pub wait_high : wait_of s ≤ max first max_poll_interval_ms
  pub few_failures : s.transient_failures ≤ max_consecutive_transient_polls

one_le_pow : (n : ℕ) → 1 ≤ 2 ^ n
one_le_pow zero = omega arith
one_le_pow (suc n) = omega (arith, one_le_pow n)

le_mul : (a b : ℕ) → 1 ≤ b → a ≤ a * b
le_mul a b h = grind arith

backed_off-IsOrderly :
    (first : ℕ) (e : SdkError) (s s' : Polling)
    → backed_off e s ≡ some s'
    → IsOrderly first s
    → IsOrderly first s'
backed_off-IsOrderly first e s s' h o =
    let grows =
      le_mul s.interval_ms (2 ^ suc s.transient_failures) (one_le_pow (suc s.transient_failures)) in
    ground (arith, grows, o)

told-IsOrderly :
    (first : ℕ) (e : SdkError) (s s' : Polling)
    → told e s ≡ some s'
    → IsOrderly first s
    → IsOrderly first s'
told-IsOrderly first device_authorization_pending s s' h o = ground (arith, o)
told-IsOrderly first device_authorization_slow_down s s' h o = ground (arith, o)
told-IsOrderly first _ s s' h o = absurd cc

pub after_poll-IsOrderly :
    (first : ℕ) (aborted : Bool) (e : SdkError) (s s' : Polling)
    → after_poll aborted e s ≡ some s'
    → IsOrderly first s
    → IsOrderly first s'
unfolding after_poll
after_poll-IsOrderly first aborted e s s' h o = elim (Bool-cases (is_transient aborted e)) [
  | inl transient ↦ backed_off-IsOrderly first e s s' ground arith o
  | inr definitive ↦ told-IsOrderly first e s s' ground arith o
]

continue-IsOrderly :
    (first : ℕ) (s : Polling) (ps : List (Bool × SdkError)) (s' : Polling)
    → continue s ps ≡ some s'
    → IsOrderly first s
    → IsOrderly first s'
unfolding continue
continue-IsOrderly first s [] s' h o = ground (arith, o)
continue-IsOrderly first s (p ∷ ps) s' h o =
    let (s1, next, rest) = >>=-eq-some (after_poll p.0 p.1 s) _ h in
    continue-IsOrderly first s1 ps s' rest (after_poll-IsOrderly first p.0 p.1 s s1 next o)

-- After any polls that fail and do not end the flow, the next wait is between the smaller and the larger of
-- the server's first interval (at least a second) and 60 seconds, and at most five transient failures
-- are counted.
pub waits_bounded :
    (interval_seconds : ℕ) (ps : List (Bool × SdkError)) (s : Polling)
    → continue (started interval_seconds) ps ≡ some s
    → (min (max 1 interval_seconds * 1000) max_poll_interval_ms ≤ wait_of s)
      × (wait_of s ≤ max (max 1 interval_seconds * 1000) max_poll_interval_ms)
      × (s.transient_failures ≤ max_consecutive_transient_polls)
waits_bounded interval_seconds ps s h =
    let o =
      continue-IsOrderly (max 1 interval_seconds * 1000) (started interval_seconds) ps s h ground
        arith in
    (o.wait_low, o.wait_high, o.few_failures)

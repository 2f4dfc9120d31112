-- ===== src/Node/Device/Polls.antt =====
-- How often the device grant is polled, and that an approval is found.
use rakomi_js.Common.{
  ℕ, zero, suc, ◌+◌, ◌≤◌, Bool, Option, none, ◌≡◌, arith, Option-cases, inl, inr,
}
use rakomi_js.Common.Json.{Fields}
use rakomi_js.Common.Results.{Result, ok, err, thrown}
use rakomi_js.Node.Errors.{SdkError}
use rakomi_js.Node.Device.{
  await_max_iterations, Polling, started, wait_of, after_poll, await_tokens, await_device_tokens,
}

module _ {W : Type 0} (now : W → ℕ × W) (is_aborted : W → Bool) (sleep : ℕ → W → W)
    (poll : W → Result SdkError Fields × W) where
  -- The variables with which the loop goes on after one more poll.
  abbrev going_on : Polling → W → Option Polling
  going_on s w = elim (poll (sleep (wait_of s) (now w).1)).0 [
    | ok tokens ↦ none
    | thrown ↦ none
    | err e ↦ after_poll (is_aborted (poll (sleep (wait_of s) (now w).1)).1) e s
  ]

  -- What is counted rises by one with a poll, and with nothing else.
  module _ (polls : W → ℕ) (counts : (w : W) → polls (poll w).1 ≡ suc (polls w))
      (clock_keeps : (w : W) → polls (now w).1 ≡ polls w)
      (sleep_keeps : (ms : ℕ) (w : W) → polls (sleep ms w) ≡ polls w) where
    await_polls :
        (deadline left : ℕ) (s : Polling) (w : W)
        → polls (await_tokens now is_aborted sleep poll deadline left s w).1 ≤ polls w + left
    unfolding await_tokens
    await_polls deadline zero s w = omega arith
    await_polls deadline (suc left) s w =
        let later = (poll (sleep (wait_of s) (now w).1)).1 in
        elim (Option-cases (going_on s w)) [
          | inl ends ↦ ground (
            arith,
            clock_keeps w,
            sleep_keeps (wait_of s) (now w).1,
            counts (sleep (wait_of s) (now w).1),
          )
          | inr (s', goes_on) ↦ ground (
            arith,
            clock_keeps w,
            sleep_keeps (wait_of s) (now w).1,
            counts (sleep (wait_of s) (now w).1),
            await_polls deadline left s' later,
          )
        ]

    -- If only `poll` raises what is counted, and by one, then the flow ends after at most 2000 polls.
    pub polls_bounded :
        (interval_seconds timeout_ms : ℕ) (w : W)
        → polls (await_device_tokens now is_aborted sleep poll interval_seconds timeout_ms w).1
          ≤ polls w + await_max_iterations
    unfolding await_device_tokens
    polls_bounded interval_seconds timeout_ms w = omega (
      arith,
      clock_keeps w,
      await_polls ((now w).0 + timeout_ms) await_max_iterations (started interval_seconds)
          (now w).1,
    )

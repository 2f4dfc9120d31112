-- ===== src/Core/RefreshRetry/Once.antt =====
-- `refreshWithOneImmediateRetry` sends at most two requests, and says when the outcome is unknown.
use rakomi_js.Common.{
  ℕ, ◌+◌, ◌≤◌, Bool, true, false, Option, none, some, ◌≡◌, ◌≢◌, ◌↔◌, ◌⊎◌, refl, sym, arith,
  if◌then◌else◌, suc,
}
use rakomi_js.Core.RefreshRetry.{
  RefreshRetryOnceTrigger, resend, after_first, refresh_with_one_immediate_retry,
  refresh_retry_once_deadline_ms,
}

module _ {W R : Type 0} (send : W → R × W) (now : W → ℕ × W)
    (trigger : R → Option RefreshRetryOnceTrigger) (is_settled : R → Bool) where
  -- How often `sent` rises in a run: once, and once more if the outcome says that it retried.
  module _ (sent : W → ℕ) (counts : (w : W) → sent (send w).1 ≡ suc (sent w))
      (keeps : (w : W) → sent (now w).1 ≡ sent w) where
    after_first_sends :
        (started_at : ℕ) (first : R) (t : Option RefreshRetryOnceTrigger) (w : W)
        → let out = after_first send now trigger is_settled started_at first t w in
          sent out.1 ≡ (if out.0.retried then sent w + 1 else sent w)
    unfolding after_first
    after_first_sends started_at first none w = refl
    after_first_sends started_at first (some t) w = ground (arith, counts (now w).1, keeps w)

    -- If `send` is what is counted, once per call, and reading the clock is not, then a refresh
    -- counts one request, and exactly one more when its outcome says `retried`: it never sends a
    -- third.
    pub refresh_sends :
        (w : W)
        → let out = refresh_with_one_immediate_retry send now trigger is_settled w in
          sent out.1 ≡ sent w + (if out.0.retried then 2 else 1)
    unfolding refresh_with_one_immediate_retry
    refresh_sends w = ground (
      arith,
      after_first_sends (now w).0 (send (now w).1).0 (trigger (send (now w).1).0)
          (send (now w).1).1,
      counts (now w).1,
      keeps w,
    )

  abbrev first_answer : W → R
  first_answer w = (send (now w).1).0

  abbrev after_send : W → W
  after_send w = (send (now w).1).1

  abbrev ElapsedWithin : W → Type 0
  ElapsedWithin w = (now (after_send w)).0 ≤ (now w).0 + refresh_retry_once_deadline_ms

  -- A second request is sent exactly if the first answer is worth a retry and arrived within the
  -- deadline.
  pub retried_iff :
      (w : W)
      → ((refresh_with_one_immediate_retry send now trigger is_settled w).0.retried ≡ true)
        ↔ ((trigger (first_answer w) ≢ none) × ElapsedWithin w)
  unfolding refresh_with_one_immediate_retry
  retried_iff w = ground arith

  -- The outcome is certain exactly if the first answer was no retry-once failure, or the second
  -- request was sent and its answer is settled.
  pub certain_iff :
      (w : W)
      → let out = (refresh_with_one_immediate_retry send now trigger is_settled w).0 in
        (out.uncertain_after ≡ none) ↔ (
          (trigger (first_answer w) ≡ none)
          ⊎ ((out.retried ≡ true) × (is_settled out.result ≡ true)))
  unfolding refresh_with_one_immediate_retry
  certain_iff w = ground arith

  -- A result whose outcome is certain is worth no immediate retry, if a settled one never is.
  pub certain_spent :
      (w : W)
      → ((r : R) → is_settled r ≡ true → trigger r ≡ none)
      → let out = (refresh_with_one_immediate_retry send now trigger is_settled w).0 in
        out.uncertain_after ≡ none → trigger out.result ≡ none
  unfolding refresh_with_one_immediate_retry
  certain_spent w ends = ground (arith, ends (send (now (after_send w)).1).0)

  -- A certain outcome with a result that does not settle the refresh is that of one request, whose answer was
  -- worth no retry.
  pub unsettled_once :
      (w : W)
      → let out = (refresh_with_one_immediate_retry send now trigger is_settled w).0 in
        out.uncertain_after ≡ none
        → is_settled out.result ≡ false
        → (trigger (first_answer w) ≡ none)
          × (refresh_with_one_immediate_retry send now trigger is_settled w ≡ (
            record { result = first_answer w; uncertain_after = none; retried = false },
            after_send w,
          ))
  unfolding refresh_with_one_immediate_retry after_first resend
  unsettled_once w certain unsettled =
      let untriggered : trigger (first_answer w) ≡ none = ground arith in
      (untriggered, rw untriggered refl)

-- Two ways to send that agree where `P` holds give the same refresh, if `P` holds at the start and lasts
-- while the clock is read and while an answer calls for the retry.
module _ {W R : Type 0} (send send' : W → R × W) (now : W → ℕ × W)
    (trigger : R → Option RefreshRetryOnceTrigger) (is_settled : R → Bool) (P : W → Type 0)
    (agree : (w : W) → P w → send w ≡ send' w) (ticks : (w : W) → P w → P (now w).1)
    (lasts : (w : W) → P w → trigger (send w).0 ≢ none → P (send w).1) where
  resend-agree :
      (t : RefreshRetryOnceTrigger) (w : W)
      → P w
      → resend send now trigger is_settled t w ≡ resend send' now trigger is_settled t w
  unfolding resend
  resend-agree t w p = rw (agree w p) refl

  after_first-agree :
      (started_at : ℕ) (first : R) (t : Option RefreshRetryOnceTrigger) (w : W)
      → (t ≢ none → P w)
      → after_first send now trigger is_settled started_at first t w
        ≡ after_first send' now trigger is_settled started_at first t w
  unfolding after_first
  after_first-agree started_at first none w p = refl
  after_first-agree started_at first (some t) w p =
      rw (resend-agree t (now w).1 (ticks w (p (λ h. cc)))) refl

  pub refresh-agree :
      (w : W)
      → P w
      → refresh_with_one_immediate_retry send now trigger is_settled w
        ≡ refresh_with_one_immediate_retry send' now trigger is_settled w
  unfolding refresh_with_one_immediate_retry
  refresh-agree w p =
      let begun = ticks w p in
      rw (sym (agree (now w).1 begun)) (
        after_first-agree (now w).0 (send (now w).1).0 (trigger (send (now w).1).0)
          (send (now w).1).1 (λ h. lasts (now w).1 begun h))

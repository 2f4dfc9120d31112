-- ===== src/Node/Device/Approval.antt =====
-- An approval is found, with a server whose answers are given and a clock that only the waits advance.
use rakomi_js.Common.{
  ℕ, suc, ◌+◌, ◌*◌, ◌<◌, max, Bool, false, Option, some, List, [], ◌∷◌, ◌≡◌, ◌⊎◌,
}
use rakomi_js.Common.Json.{Fields}
use rakomi_js.Common.Results.{Result, ok, err}
use rakomi_js.Node.Errors.{
  SdkError, oauth_temporarily_unavailable, oauth_network_error, device_authorization_pending,
  device_authorization_slow_down, device_authorization_timeout,
}
use rakomi_js.Node.Device.{
  max_poll_interval_ms, max_consecutive_transient_polls, Polling, after_poll,
}

-- The time and the answers that the server has yet to give.
pub record Script : Type 0 where
  pub time : ℕ
  pub answers : List (Result SdkError Fields)

abbrev pub now : Script → ℕ × Script
now w = (w.time, w)

abbrev pub never : Script → Bool
never w = false

abbrev pub sleep : ℕ → Script → Script
sleep ms w = record w { time = w.time + ms }

abbrev pub poll : Script → Result SdkError Fields × Script
poll w = elim w.answers [
  | [] ↦ (err device_authorization_timeout, w)
  | a ∷ as' ↦ (a, record w { answers = as' })
]

-- The errors, and then the tokens.
abbrev pub answers_of : List SdkError → Fields → List (Result SdkError Fields)
answers_of [] tokens = ok tokens ∷ []
answers_of (e ∷ es) tokens = err e ∷ answers_of es tokens

-- The server waits for the user.
abbrev pub IsWaiting : SdkError → Type 0
IsWaiting e = (e ≡ device_authorization_pending) ⊎ (e ≡ device_authorization_slow_down)

-- The server is not reached, or says to come again.
abbrev pub IsOutage : SdkError → Type 0
IsOutage e =
    (e ≡ oauth_network_error)
    ⊎ ((status : ℕ) × (after : Option ℕ) × (e ≡ oauth_temporarily_unavailable status after))

-- The errors are of these two kinds, and at most five of the second kind follow one another, `failures` of
-- them before the first error.
abbrev pub ArePatient : ℕ → List SdkError → Type 0
ArePatient failures [] = Unit
ArePatient failures (e ∷ es) =
    (IsWaiting e × ArePatient 0 es)
    ⊎ (IsOutage e × (failures < max_consecutive_transient_polls) × ArePatient (suc failures) es)

abbrev pub longest_wait : ℕ → ℕ
longest_wait interval_seconds = max (max 1 interval_seconds * 1000) max_poll_interval_ms

abbrev GoesOn : Polling → SdkError → ℕ → Type 0
GoesOn s e failures =
    (s' : Polling) × (after_poll false e s ≡ some s') × (s'.transient_failures ≡ failures)

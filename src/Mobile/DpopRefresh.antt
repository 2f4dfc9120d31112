-- ===== src/Mobile/DpopRefresh.antt =====
-- packages/react-native/src/internal/dpop-session.ts and dpop-refresh.ts: whether a session is bound to a
-- key, and its refresh with a proof of that key.
pub mod Proofs
use rakomi_js.Common.{
  ℕ, Bool, true, false, not, ◌&&◌, ◌||◌, Option, none, some, if◌then◌else◌, is_some,
}
use rakomi_js.Common.Int.{ℤ}
use rakomi_js.Common.Text.{Text, codes, text_eq, is_empty}
use rakomi_js.Common.Results.{Result, ok, err, thrown}
use rakomi_js.Core.AuthError.{AuthError, refresh_failed, RefreshReason, get_error_message}
use rakomi_js.Core.RefreshRetry.{
  RefreshRetryOnceTrigger, RefreshRetryOnceOutcome, refresh_with_one_immediate_retry,
  refresh_retry_once_trigger_of,
}
use rakomi_js.Core.TokenEndpoint.{
  Fetched, Tokens, TokenFailure, refresh_access_token, refresh_outcome_unknown_error,
}

-- The fields of `DpopSession`. `downgrades` counts the calls of `onDowngrade`.
pub record DpopSession : Type 0 where
  pub bound : Bool
  pub downgraded : Bool
  pub downgrade_notified : Bool
  pub bound_jkt : Option Text
  pub downgrades : ℕ

-- `tokenType === 'DPoP'`
abbrev pub is_dpop : Option Text → Bool
is_dpop none = false
is_dpop (some t) = text_eq t (codes "DPoP")

-- `observeTokenType`, with the answer of the prover's `jktHint`
unfoldable pub observe_token_type : Text → Option Text → Bool → DpopSession → DpopSession
observe_token_type jkt token_type attached_proof s =
    if is_dpop token_type
    then record s {
      bound = true;
      downgraded = false;
      bound_jkt = elim s.bound_jkt [ none ↦ some jkt | some old ↦ some old ];
    }
    else if attached_proof
    then record s {
      bound = false;
      downgraded = true;
      downgrade_notified = true;
      downgrades = if s.downgrade_notified then s.downgrades else ℕ.suc s.downgrades;
    }
    else record s { bound = false }

pub data DpopRefreshErrorClass : Type 0 where
  dpop_prover_unavailable invalid_dpop_proof invalid_refresh_token network : DpopRefreshErrorClass

pub record DpopRefreshError : Type 0 where
  pub class : DpopRefreshErrorClass
  pub message : Text
  pub cause : Option AuthError

-- `err`
abbrev pub dpop_error : DpopRefreshErrorClass → Text → Option AuthError → DpopRefreshError
dpop_error class message cause = record { class = class; message = message; cause = cause }

-- `result.error.code === 'REFRESH_FAILED' && (… 'revoked' || … 'expired')`
unfoldable pub is_auth_error : AuthError → Bool
is_auth_error (refresh_failed f) = elim f.reason [
  | RefreshReason.expired ↦ true
  | RefreshReason.revoked ↦ true
  | RefreshReason.network ↦ false
]
is_auth_error _ = false

-- `mapFailure`
unfoldable pub map_failure : TokenFailure → Bool → DpopRefreshError
map_failure f attached_proof =
    let message = get_error_message f.error in
    if attached_proof && (f.dpop_proof_rejected || is_some f.dpop_nonce)
    then dpop_error invalid_dpop_proof message (some f.error)
    else if is_auth_error f.error
    then dpop_error invalid_refresh_token message (some f.error)
    else dpop_error network message (some f.error)

-- `DpopRefreshResult`
abbrev pub DpopRefreshResult : Type 0
DpopRefreshResult = Result DpopRefreshError (Tokens × Bool)

-- `retryOnceTrigger` of `refreshWithDpop`; an exception leaves the retry at once.
unfoldable pub retry_once_trigger : DpopRefreshResult → Option RefreshRetryOnceTrigger
retry_once_trigger (err e) = elim e.class [
  | network ↦ elim e.cause [ none ↦ none | some cause ↦ refresh_retry_once_trigger_of (some cause) ]
  | _ ↦ none
]
retry_once_trigger _ = none

-- `isSettled` of `refreshWithDpop`
unfoldable pub is_settled : DpopRefreshResult → Bool
is_settled (err e) = elim e.class [
  | invalid_refresh_token ↦ true
  | invalid_dpop_proof ↦ true
  | _ ↦ false
]
is_settled _ = true

-- The last lines of `refreshWithDpop`
conclusion : RefreshRetryOnceOutcome DpopRefreshResult → DpopRefreshResult
conclusion outcome = elim outcome.uncertain_after [
  | none ↦ outcome.result
  | some trigger ↦
      let cause = refresh_outcome_unknown_error trigger in
      err (dpop_error invalid_refresh_token (get_error_message cause) (some cause))
]

-- An answer without a proof: a text that is not empty.
abbrev pub usable : Result Text Text → Text → Result Text Text
usable (ok proof) message = if is_empty proof then err message else ok proof
usable (err thrown_message) message = err thrown_message
usable thrown message = thrown

-- The environment of a refresh is a value of `W`. `resolve_proof` is the prover, asked for a proof of the
-- refresh request (with the server's nonce, if it gave one); its exception is an `err` with the message.
-- `fetch` sends the refresh token, with the proof if there is one, and `jkt` is the prover's `jktHint`.
module _ {W : Type 0} (date_parse : Text → Option ℤ)
    (resolve_proof : Option Text → W → Result Text Text × W) (fetch : Option Text → W → Fetched × W)
    (now : W → ℕ × W) (jkt : Text) where
  -- `refreshAccessToken` with or without a proof
  abbrev request : Option Text → W → Result TokenFailure Tokens × W
  request proof w = let (a, w') = fetch proof w in (refresh_access_token date_parse a, w')

  -- The last lines of `refreshWithDpopOnce`
  abbrev pub concluded :
      Bool → Result TokenFailure Tokens → DpopSession → W → DpopRefreshResult × (DpopSession × W)
  concluded attached_proof (ok tokens) s w =
      (ok (tokens, attached_proof), (observe_token_type jkt tokens.token_type attached_proof s, w))
  concluded attached_proof (err f) s w = (err (map_failure f attached_proof), (s, w))
  concluded attached_proof thrown s w = (thrown, (s, w))

  -- A request with the proof that the prover made, if it made one; `next` goes on from the answer.
  sent :
      Result Text Text
      → DpopSession
      → W
      → (Result TokenFailure Tokens → W → DpopRefreshResult × (DpopSession × W))
      → DpopRefreshResult × (DpopSession × W)
  sent (err e) s w next = (err (dpop_error dpop_prover_unavailable e none), (s, w))
  sent thrown s w next = (thrown, (s, w))
  sent (ok proof) s w next = let (result, w') = request (some proof) w in next result w'

  with_proof :
      Option Text
      → Text
      → DpopSession
      → W
      → (Result TokenFailure Tokens → W → DpopRefreshResult × (DpopSession × W))
      → DpopRefreshResult × (DpopSession × W)
  unfolding sent
  with_proof nonce message s w next =
      let (made, w') = resolve_proof nonce w in sent (usable made message) s w' next

  -- The retry with the server's nonce
  after_challenge :
      DpopSession → Result TokenFailure Tokens → W → DpopRefreshResult × (DpopSession × W)
  unfolding with_proof
  after_challenge s (err f) w = elim f.dpop_nonce [
    | none ↦ concluded true (err f) s w
    | some nonce ↦
        with_proof (some nonce) (codes "DPoP prover returned an empty proof on nonce retry") s w
          (λ r w'. concluded true r s w')
  ]
  after_challenge s result w = concluded true result s w

  -- `refreshWithDpopOnce`
  unfoldable pub refresh_with_dpop_once : DpopSession × W → DpopRefreshResult × (DpopSession × W)
  unfolding with_proof after_challenge
  refresh_with_dpop_once (s, w) =
      if s.bound
      then with_proof none (codes "DPoP prover returned an empty proof") s w (after_challenge s)
      else (let (result, w') = request none w in concluded false result s w')

  abbrev pub clock : DpopSession × W → ℕ × (DpopSession × W)
  clock (s, w) = let (t, w') = now w in (t, (s, w'))

  -- `refreshWithDpop`
  unfoldable pub refresh_with_dpop : DpopSession × W → DpopRefreshResult × (DpopSession × W)
  unfolding refresh_with_dpop_once retry_once_trigger is_settled conclusion
  refresh_with_dpop start =
      let (outcome, last) =
        refresh_with_one_immediate_retry refresh_with_dpop_once clock retry_once_trigger is_settled
          start in
      (conclusion outcome, last)

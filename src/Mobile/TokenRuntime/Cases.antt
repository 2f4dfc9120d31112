-- ===== src/Mobile/TokenRuntime/Cases.antt =====
-- The ends of `setTokens` and of a refresh, as a choice that the proofs split on.
use rakomi_js.Common.{
  ℕ, Bool, false, none, some, ◌≡◌, ◌⊎◌, inl, inr, refl, arith, Option-cases, Bool-cases,
}
use rakomi_js.Common.Text.{codes, text_eq_iff}
use rakomi_js.Common.Results.{Result, ok, err, thrown}
use rakomi_js.Core.Types.{UserResource, SessionResource}
use rakomi_js.Core.AuthError.{AuthError, sign_in_failed}
use rakomi_js.Core.AuthMachine.{MachineAction}
use rakomi_js.Core.JwtDecode.{Platform, decode_user, decode_session}
use rakomi_js.Core.TokenEndpoint.{Tokens}
use rakomi_js.Mobile.TokenRuntime.State.{
  TokenRuntime, dispatch, clear, Source, is_mismatch, set_tokens, announced, with_tokens, seconds,
}
use rakomi_js.Mobile.TokenRuntime.Refresh.{
  Answer, bearer, dpop, after_answer, after_result, after_dpop, complete_refresh, schedule_retry,
  handle_dpop_refresh_failure, result_of, is_auth_error, cause_of, ended, revoked_error,
}
use rakomi_js.Mobile.DpopRefresh.{
  DpopRefreshError, DpopRefreshErrorClass, network, dpop_prover_unavailable, invalid_dpop_proof,
  invalid_refresh_token,
}

-- The new user is the old one, or there was none.
abbrev pub IsMatch : TokenRuntime → UserResource → Type 0
IsMatch m user =
    (m.current_user ≡ none)
    ⊎ ((old : UserResource) × (m.current_user ≡ some old) × (old.id ≡ user.id))

is_mismatch-IsMatch :
    (m : TokenRuntime) (user : UserResource)
    → is_mismatch m.current_user user ≡ false
    → IsMatch m user
is_mismatch-IsMatch m user h = elim (Option-cases m.current_user) [
  | inl fresh ↦ inl fresh
  | inr (old, there) ↦ inr (old, there, (text_eq_iff old.id user.id).0 ground arith)
]

-- What `setTokens` can do.
pub data IsStored (source : Source) (response : Tokens) (now : ℕ) (m m' : TokenRuntime)
    : Type 0 where
  declined :
      (e : AuthError)
      → m' ≡ dispatch (MachineAction.sign_in_failed e) m
      → IsStored source response now m m'
  dropped : (e : AuthError) → m' ≡ clear (some e) m → IsStored source response now m m'
  taken :
      (user : UserResource) (session : SessionResource)
      → IsMatch m user
      → m' ≡ announced source user session (with_tokens response user session now m)
      → IsStored source response now m m'

module _ (platform : Platform) where
  pub set_tokens-IsStored :
      (response : Tokens) (source : Source) (now : ℕ) (m : TokenRuntime)
      → IsStored source response now m (set_tokens platform response source now m)
  unfolding set_tokens
  set_tokens-IsStored response source now m =
      elim (Option-cases (decode_user platform response.access_token)) [
        | inl nobody ↦
            declined (sign_in_failed (codes "Invalid or missing JWT claims") none)
              (rw (nobody, set_tokens) refl)
        | inr (user, is_user) ↦ elim (Bool-cases (is_mismatch m.current_user user)) [
          | inl other ↦
              dropped (sign_in_failed (codes "session_mismatch on token set") none)
                (rw (is_user, other, set_tokens) refl)
          | inr same ↦
              elim (Option-cases (
                decode_session platform response.access_token (seconds response.expires_in) now now
                  now)) [
                    | inl no_session ↦
                        declined (sign_in_failed (codes "Invalid session claims") none)
                          (rw (is_user, same, no_session, set_tokens) refl)
                    | inr (decoded, is_session) ↦
                        taken user (record { decoded = decoded; is_expiring_soon = false })
                          (is_mismatch-IsMatch m user same)
                          (rw (is_user, same, is_session, set_tokens) refl)
                  ]
        ]
      ]

class-cases :
    (c : DpopRefreshErrorClass)
    → (c ≡ network)
      ⊎ (c ≡ dpop_prover_unavailable)
      ⊎ (c ≡ invalid_dpop_proof)
      ⊎ (c ≡ invalid_refresh_token)
class-cases network = inl refl
class-cases dpop_prover_unavailable = inr (inl refl)
class-cases invalid_dpop_proof = inr (inr (inl refl))
class-cases invalid_refresh_token = inr (inr (inr refl))

-- What the end of a refresh can do, before `refreshInFlight` is reset.
pub data IsRefreshed (platform : Platform) (during_restore : Bool) (now random : ℕ)
    (m m' : TokenRuntime) : Type 0 where
  completed :
      (t : Tokens)
      → m' ≡ complete_refresh platform t during_restore now m
      → IsRefreshed platform during_restore now random m m'
  cleared :
      (e : AuthError) → m' ≡ clear (some e) m → IsRefreshed platform during_restore now random m m'
  retried :
      (e : AuthError)
      → m' ≡ schedule_retry e during_restore random m
      → IsRefreshed platform during_restore now random m m'
  kept : m' ≡ m → IsRefreshed platform during_restore now random m m'

module _ (platform : Platform) (during_restore : Bool) (now random : ℕ) (m : TokenRuntime) where
  after_result-IsRefreshed :
      (r : Result AuthError Tokens)
      → IsRefreshed platform during_restore now random m
          (after_result platform during_restore r now random m)
  unfolding after_result
  after_result-IsRefreshed (ok t) = completed t refl
  after_result-IsRefreshed thrown = kept refl
  after_result-IsRefreshed (err e) = elim (Bool-cases (is_auth_error e)) [
    | inl definitive ↦ cleared e (rw definitive refl)
    | inr transient ↦ retried e (rw transient refl)
  ]

  handled-IsRefreshed :
      (e : DpopRefreshError)
      → IsRefreshed platform during_restore now random m
          (handle_dpop_refresh_failure e during_restore random m)
  unfolding handle_dpop_refresh_failure
  handled-IsRefreshed e = elim (class-cases e.class) [
    | inl unreachable ↦ retried (cause_of e) (rw unreachable refl)
    | inr (inl unproved) ↦ kept (rw unproved refl)
    | inr (inr (inl unaccepted)) ↦ cleared (revoked_error e.message) (rw unaccepted refl)
    | inr (inr (inr expired)) ↦ cleared (revoked_error e.message) (rw expired refl)
  ]

  pub after_answer-IsRefreshed :
      (a : Answer)
      → (m' : TokenRuntime) × IsRefreshed platform during_restore now random m m'
        × (after_answer platform during_restore a now random m ≡ ended m')
  unfolding after_answer after_dpop
  after_answer-IsRefreshed (bearer outcome) =
      (_, after_result-IsRefreshed (result_of outcome), refl)
  after_answer-IsRefreshed (dpop (ok (t, attached))) = (_, completed t refl, refl)
  after_answer-IsRefreshed (dpop (err e)) = (_, handled-IsRefreshed e, refl)
  after_answer-IsRefreshed (dpop thrown) = (_, kept refl, refl)

-- ===== src/Mobile/TokenRuntime/Continuity.antt =====
-- A runtime does not pass from one user to another without a sign-out in between.
use rakomi_js.Common.{
  ℕ, Bool, true, false, Option, none, some, ◌≡◌, ◌⊎◌, inl, inr, refl, ap, ◌∙◌, arith, ◌||◌,
  if◌then◌else◌,
}
use rakomi_js.Common.Text.{Text}
use rakomi_js.Core.Types.{UserResource, SessionResource}
use rakomi_js.Core.AuthError.{AuthError}
use rakomi_js.Core.AuthMachine.{back_online}
use rakomi_js.Core.JwtDecode.{Platform}
use rakomi_js.Core.TokenEndpoint.{Tokens}
use rakomi_js.Mobile.TokenRuntime.State.{
  TokenRuntime, dispatch, clear, Source, sign_in, refresh, restore, set_tokens, announced,
  with_tokens,
}
use rakomi_js.Mobile.TokenRuntime.Refresh.{
  perform_refresh, Gate, after_read, after_gate, complete_refresh, resumed, schedule_retry,
  retry_in, dispatch_unless,
}
use rakomi_js.Mobile.TokenRuntime.Cases.{
  IsStored, declined, dropped, taken, set_tokens-IsStored, IsRefreshed, completed, cleared, retried,
  kept, after_answer-IsRefreshed,
}
use rakomi_js.Mobile.TokenRuntime.Steps.{
  Event, asks, restores, foregrounds, retries, goes_offline, goes_online, signs_out, destroys,
  restore_ends, gates, answers, submits, refuses_nonce, after_restore, refresh_on_foreground, ask,
  step,
}

-- The id of the runtime's user.
abbrev pub user_id : TokenRuntime → Option Text
user_id m = elim m.current_user [ none ↦ none | some u ↦ some u.id ]

-- A change that leaves the user, drops the user, or finds none before.
abbrev pub Continues : TokenRuntime → TokenRuntime → Type 0
Continues m m' = (user_id m' ≡ user_id m) ⊎ (user_id m' ≡ none) ⊎ (user_id m ≡ none)

module _ (platform : Platform) where
  announced-user :
      (source : Source) (u : UserResource) (s : SessionResource) (m : TokenRuntime)
      → user_id (announced source u s m) ≡ user_id m
  unfolding announced dispatch
  announced-user sign_in u s m = refl
  announced-user refresh u s m = refl
  announced-user restore u s m = refl

  IsStored-Continues :
      (response : Tokens) (source : Source) (now : ℕ) (m m' : TokenRuntime)
      → IsStored source response now m m'
      → Continues m m'
  unfolding clear dispatch
  IsStored-Continues response source now m m' (declined e same) = inl (ap user_id same)
  IsStored-Continues response source now m m' (dropped e same) = inr (inl (ap user_id same))
  IsStored-Continues response source now m m' (taken user session (inl fresh) same) =
      inr (inr ground arith)
  IsStored-Continues response source now m m' (taken user session (inr (old, there, match)) same) =
      inl (
        ap user_id same
        ∙ announced-user source user session (with_tokens response user session now m)
        ∙ ground arith)

  resumed-user : (b : Bool) (m : TokenRuntime) → user_id (resumed b m) ≡ user_id m
  unfolding resumed dispatch
  resumed-user b m = ground arith

  schedule_retry-user :
      (e : AuthError) (b : Bool) (random : ℕ) (m : TokenRuntime)
      → user_id (schedule_retry e b random m) ≡ user_id m
  unfolding schedule_retry retry_in dispatch_unless dispatch
  schedule_retry-user e b random m = ground arith

  complete-Continues :
      (t : Tokens) (during_restore : Bool) (now : ℕ) (m : TokenRuntime)
      → Continues m (complete_refresh platform t during_restore now m)
  unfolding complete_refresh
  complete-Continues t during_restore now m =
      let begun = record m {
        restore_pending = false;
        refresh_attempts = 0;
        last_refresh_error = none;
      } in
      let source = if during_restore || m.restore_pending then restore else refresh in
      let done = set_tokens platform t source now begun in
      ground (
        arith,
        resumed-user m.restore_pending done,
        IsStored-Continues t source now begun done
            (set_tokens-IsStored platform t source now begun),
      )

  refreshed-Continues :
      (b : Bool) (now random : ℕ) (m m' : TokenRuntime)
      → IsRefreshed platform b now random m m'
      → Continues m m'
  unfolding clear dispatch
  refreshed-Continues b now random m m' (completed t same) = rw same (complete-Continues t b now m)
  refreshed-Continues b now random m m' (cleared e same) = inr (inl (ap user_id same))
  refreshed-Continues b now random m m' (retried e same) =
      inl (ap user_id same ∙ schedule_retry-user e b random m)
  refreshed-Continues b now random m m' (kept same) = inl (ap user_id same)

  perform-user : (m : TokenRuntime) → user_id (perform_refresh m) ≡ user_id m
  unfolding perform_refresh
  perform-user m = ground arith

  foreground-user : (m : TokenRuntime) → user_id (refresh_on_foreground m) ≡ user_id m
  unfolding refresh_on_foreground dispatch perform_refresh
  foreground-user m = ground arith

  gate-Continues :
      (b readable : Bool) (gate : Gate) (m : TokenRuntime)
      → Continues m (after_gate b gate readable m).0
  unfolding after_gate after_read clear dispatch
  gate-Continues b readable gate m = ground arith

  restored-user : (b : Bool) (m : TokenRuntime) → user_id (after_restore b m) ≡ user_id m
  unfolding after_restore dispatch
  restored-user true m = ground arith
  restored-user false m = refl

  step-Continues : (m : TokenRuntime) (e : Event) → Continues m (step platform m e)
  unfolding step ask dispatch clear
  step-Continues m (asks now) = ground (arith, perform-user m)
  step-Continues m restores = inl (perform-user m)
  step-Continues m foregrounds = inl (foreground-user m)
  step-Continues m retries = inl (perform-user (record m { retry_timer = none }))
  step-Continues m goes_offline = inl refl
  step-Continues m goes_online = inl (foreground-user (dispatch back_online m))
  step-Continues m signs_out = inr (inl refl)
  step-Continues m destroys = inl refl
  step-Continues m (restore_ends success) = inl (restored-user success m)
  step-Continues m (gates b gate readable) = gate-Continues b readable gate m
  step-Continues m (answers b answer now random) =
      let (m', refreshed, same) = after_answer-IsRefreshed platform b now random m answer in
      rw same (refreshed-Continues b now random m m' refreshed)
  step-Continues m (submits t now) =
      IsStored-Continues t sign_in now m (set_tokens platform t sign_in now m)
        (set_tokens-IsStored platform t sign_in now m)
  step-Continues m refuses_nonce = inl refl

  -- Each step of a runtime, at whatever state, leaves its user the same, or there is no user before or
  -- after it: a refresh, a restore or a sign-in never replaces one user by another.
  pub step_keeps_user :
      (m : TokenRuntime) (e : Event) (a b : Text)
      → user_id m ≡ some a
      → user_id (step platform m e) ≡ some b
      → a ≡ b
  step_keeps_user m e a b before after = ground (arith, step-Continues m e)

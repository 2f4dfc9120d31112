-- ===== src/Mobile/TokenRuntime/Coherence.antt =====
-- The user that the machine shows is the user of the runtime.
use rakomi_js.Common.{
  ℕ, Bool, true, false, Option, none, some, List, [], ◌∷◌, ◌≡◌, ◌⊎◌, inl, inr, refl, ap, arith,
  if◌then◌else◌, ◌||◌,
}
use rakomi_js.Common.Text.{Text}
use rakomi_js.Core.AuthError.{AuthError}
use rakomi_js.Core.AuthMachine.{reduce, back_online}
use rakomi_js.Core.JwtDecode.{Platform}
use rakomi_js.Core.TokenEndpoint.{Tokens}
use rakomi_js.Mobile.TokenRuntime.State.{
  TokenRuntime, dispatch, clear, Source, sign_in, refresh, restore, set_tokens, announced,
}
use rakomi_js.Mobile.TokenRuntime.Refresh.{
  perform_refresh, Gate, after_read, after_gate, complete_refresh, resumed, schedule_retry,
  retry_in, dispatch_unless,
}
use rakomi_js.Mobile.TokenRuntime.Cases.{
  IsStored, declined, dropped, taken, set_tokens-IsStored, IsRefreshed, completed, cleared, retried,
  kept, after_answer-IsRefreshed,
}
use rakomi_js.Mobile.TokenRuntime.Steps.{
  Event, asks, restores, foregrounds, retries, goes_offline, goes_online, signs_out, destroys,
  restore_ends, gates, answers, submits, refuses_nonce, after_restore, refresh_on_foreground, ask,
  step, run, initial,
}
use rakomi_js.Mobile.TokenRuntime.Continuity.{user_id}

-- The id of the user that the app sees.
abbrev pub shown_id : TokenRuntime → Option Text
shown_id m = elim m.machine.user [ none ↦ none | some u ↦ some u.id ]

abbrev pub IsCoherent : TokenRuntime → Type 0
IsCoherent m = (shown_id m ≡ none) ⊎ (shown_id m ≡ user_id m)

module _ (platform : Platform) where
  IsStored-IsCoherent :
      (response : Tokens) (source : Source) (now : ℕ) (m m' : TokenRuntime)
      → IsStored source response now m m'
      → IsCoherent m
      → IsCoherent m'
  unfolding clear dispatch announced reduce
  IsStored-IsCoherent response source now m m' (declined e same) h = inl (ap shown_id same)
  IsStored-IsCoherent response source now m m' (dropped e same) h = inl (ap shown_id same)
  IsStored-IsCoherent response sign_in now m m' (taken user session match same) h =
      rw same (inr refl)
  IsStored-IsCoherent response refresh now m m' (taken user session match same) h =
      rw same ground (arith, match)
  IsStored-IsCoherent response restore now m m' (taken user session match same) h =
      rw same ground (arith, match)

  resumed-IsCoherent : (b : Bool) (m : TokenRuntime) → IsCoherent m → IsCoherent (resumed b m)
  unfolding resumed dispatch reduce
  resumed-IsCoherent b m h = ground arith

  schedule_retry-IsCoherent :
      (e : AuthError) (b : Bool) (random : ℕ) (m : TokenRuntime)
      → IsCoherent m
      → IsCoherent (schedule_retry e b random m)
  unfolding schedule_retry retry_in dispatch_unless dispatch reduce
  schedule_retry-IsCoherent e b random m h = ground arith

  refreshed-IsCoherent :
      (b : Bool) (now random : ℕ) (m m' : TokenRuntime)
      → IsRefreshed platform b now random m m'
      → IsCoherent m
      → IsCoherent m'
  unfolding clear dispatch reduce complete_refresh
  refreshed-IsCoherent b now random m m' (completed t same) h =
      let begun = record m {
        restore_pending = false;
        refresh_attempts = 0;
        last_refresh_error = none;
      } in
      let source = if b || m.restore_pending then restore else refresh in
      let done = set_tokens platform t source now begun in
      rw same (
        resumed-IsCoherent m.restore_pending done (
          IsStored-IsCoherent t source now begun done
            (set_tokens-IsStored platform t source now begun) h))
  refreshed-IsCoherent b now random m m' (cleared e same) h = inl (ap shown_id same)
  refreshed-IsCoherent b now random m m' (retried e same) h =
      rw same (schedule_retry-IsCoherent e b random m h)
  refreshed-IsCoherent b now random m m' (kept same) h = rw same h

  perform-IsCoherent : (m : TokenRuntime) → IsCoherent m → IsCoherent (perform_refresh m)
  unfolding perform_refresh
  perform-IsCoherent m h = ground arith

  foreground-IsCoherent : (m : TokenRuntime) → IsCoherent m → IsCoherent (refresh_on_foreground m)
  unfolding refresh_on_foreground dispatch perform_refresh reduce
  foreground-IsCoherent m h = ground arith

  gate-IsCoherent :
      (b readable : Bool) (gate : Gate) (m : TokenRuntime)
      → IsCoherent m
      → IsCoherent (after_gate b gate readable m).0
  unfolding after_gate after_read clear dispatch reduce
  gate-IsCoherent b readable gate m h = ground arith

  restored-IsCoherent :
      (b : Bool) (m : TokenRuntime) → IsCoherent m → IsCoherent (after_restore b m)
  unfolding after_restore dispatch reduce
  restored-IsCoherent true m h = ground arith
  restored-IsCoherent false m h = inl refl

  step-IsCoherent : (m : TokenRuntime) (e : Event) → IsCoherent m → IsCoherent (step platform m e)
  unfolding step ask dispatch clear reduce
  step-IsCoherent m (asks now) h = ground (arith, perform-IsCoherent m h)
  step-IsCoherent m restores h = perform-IsCoherent m h
  step-IsCoherent m foregrounds h = foreground-IsCoherent m h
  step-IsCoherent m retries h = perform-IsCoherent (record m { retry_timer = none }) h
  step-IsCoherent m goes_offline h = ground arith
  step-IsCoherent m goes_online h = foreground-IsCoherent (dispatch back_online m) h
  step-IsCoherent m signs_out h = inl refl
  step-IsCoherent m destroys h = h
  step-IsCoherent m (restore_ends success) h = restored-IsCoherent success m h
  step-IsCoherent m (gates b gate readable) h = gate-IsCoherent b readable gate m h
  step-IsCoherent m (answers b answer now random) h =
      let (m', refreshed, same) = after_answer-IsRefreshed platform b now random m answer in
      rw same (refreshed-IsCoherent b now random m m' refreshed h)
  step-IsCoherent m (submits t now) h =
      IsStored-IsCoherent t sign_in now m (set_tokens platform t sign_in now m)
        (set_tokens-IsStored platform t sign_in now m) h
  step-IsCoherent m refuses_nonce h = inl refl

  run-IsCoherent :
      (m : TokenRuntime) (es : List Event) → IsCoherent m → IsCoherent (run platform m es)
  unfolding run
  run-IsCoherent m [] h = h
  run-IsCoherent m (e ∷ es) h = run-IsCoherent (step platform m e) es (step-IsCoherent m e h)

  -- Over any history of an app, whatever storage held at the start, a user whom the machine shows is the
  -- user whose tokens the runtime holds.
  pub shows_own_user :
      (storage : Option Text) (es : List Event) → IsCoherent (run platform (initial storage) es)
  shows_own_user storage es = run-IsCoherent (initial storage) es (inl refl)

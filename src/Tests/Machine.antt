-- ===== src/Tests/Machine.antt =====
-- The auth machine of packages/sdk-core/src/auth-machine.ts on short histories.
use rakomi_js.Common.{true, false, none, some, List, [], ◌∷◌, ◌≡◌, ◌↔◌, refl}
use rakomi_js.Common.Int.{pos}
use rakomi_js.Common.Number.{int}
use rakomi_js.Common.Text.{codes}
use rakomi_js.Core.AuthError.{AuthError, network_error}
use rakomi_js.Core.Types.{UserResource, SessionResource, offline_stale}
use rakomi_js.Core.AuthMachine.{
  MachineSnapshot, MachineAction, sign_in_start, mfa_required, mfa_verified, refresh_start,
  refresh_success, refresh_network_error, go_offline_stale, back_online, sign_out, initial_snapshot,
  reduce, reduce_all, is_signed_in, should_refresh,
}
use rakomi_js.Core.AuthMachine.Invariant.{
  IsConsistent, reduce_all-IsConsistent, initial_snapshot-IsConsistent, late_refresh_signs_in,
}
use rakomi_js.Core.AuthMachine.Session.{
  background_keeps_user, ends_session, reduce-is_signed_in_iff,
}

abbrev ada : UserResource
ada = record {
  id = codes "u1";
  email = codes "ada@example.com";
  tenant_id = codes "t1";
  roles = [];
  permissions = [];
  mfa_verified = none;
  mfa_verified_at = none;
  amr = none;
  acr = none;
  is_anonymous = none;
  raw_claims = [];
}

abbrev one_hour : SessionResource
one_hour = record {
  decoded = record {
    id = codes "s1";
    user_id = codes "u1";
    tenant_id = codes "t1";
    expires_at = 3_600_000;
    last_active_at = int (pos 0);
    max_lifetime_expires_at = none;
    effective_expires_at = int (pos 3_600_000);
    expires_in_seconds = 3600;
  };
  is_expiring_soon = false;
}

abbrev lost : AuthError
lost = network_error (codes "offline") none

abbrev sign_in : List MachineAction
sign_in = sign_in_start ∷ mfa_required (codes "c") 300 none ∷ mfa_verified ada one_hour ∷ []

abbrev signed_in : MachineSnapshot
signed_in = reduce_all initial_snapshot sign_in

abbrev background : List MachineAction
background =
    go_offline_stale
    ∷ back_online
    ∷ refresh_start
    ∷ refresh_network_error lost
    ∷ refresh_start
    ∷ refresh_success one_hour
    ∷ []

went_offline : (reduce signed_in go_offline_stale).state ≡ offline_stale
unfolding reduce reduce_all
went_offline = refl

due : should_refresh (some one_hour) 3600 ≡ true
unfolding should_refresh
due = refl

not_due : should_refresh (some one_hour) 60 ≡ false
unfolding should_refresh
not_due = refl

reduce_all-IsConsistent_example : IsConsistent (reduce_all initial_snapshot sign_in)
reduce_all-IsConsistent_example =
    reduce_all-IsConsistent initial_snapshot sign_in initial_snapshot-IsConsistent
      (tt, (tt, (tt, tt)))

is_in : is_signed_in signed_in ≡ true
unfolding is_signed_in reduce reduce_all
is_in = refl

background_keeps_user_run :
    (is_signed_in (reduce_all signed_in background) ≡ true)
    × ((reduce_all signed_in background).user ≡ signed_in.user)
background_keeps_user_run =
    background_keeps_user signed_in background (refl, (refl, (refl, (refl, (refl, (refl, tt))))))
      is_in

reduce-is_signed_in_iff_run :
    (is_signed_in (reduce signed_in sign_out) ≡ false) ↔ (ends_session sign_out ≡ true)
reduce-is_signed_in_iff_run = reduce-is_signed_in_iff signed_in sign_out is_in

late_refresh_signs_in_run :
    (is_signed_in (reduce initial_snapshot (refresh_network_error lost)) ≡ true)
    × ((reduce initial_snapshot (refresh_network_error lost)).user ≡ none)
    × (¬ IsConsistent (reduce initial_snapshot (refresh_network_error lost)))
late_refresh_signs_in_run = late_refresh_signs_in initial_snapshot lost refl

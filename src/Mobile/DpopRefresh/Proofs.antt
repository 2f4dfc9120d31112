-- ===== src/Mobile/DpopRefresh/Proofs.antt =====
-- What a refresh of a bound session sends, and when its failure leaves the refresh token usable.
use rakomi_js.Common.{
  ℕ, Bool, true, false, Option, none, some, ◌≡◌, ◌≢◌, refl, sym, ap, ◌∙◌, arith, if◌then◌else◌,
  Option-cases, inl, inr,
}
use rakomi_js.Common.Int.{ℤ}
use rakomi_js.Common.Text.{Text, codes}
use rakomi_js.Common.Results.{Result, ok, err, thrown}
use rakomi_js.Core.AuthError.{AuthError}
use rakomi_js.Core.RefreshRetry.{
  RefreshRetryOnceOutcome, refresh_with_one_immediate_retry, refresh_retry_once_trigger_of,
}
use rakomi_js.Core.RefreshRetry.Once.{unsettled_once, refresh-agree}
use rakomi_js.Core.TokenEndpoint.{Fetched, Tokens, TokenFailure, refresh_access_token}
use rakomi_js.Mobile.DpopRefresh.{
  DpopSession, DpopRefreshError, network, DpopRefreshResult, retry_once_trigger, is_settled, usable,
  concluded, sent, with_proof, after_challenge, refresh_with_dpop_once, refresh_with_dpop,
  conclusion, clock,
}

network_unsettled : (e : DpopRefreshError) → e.class ≡ network → is_settled (err e) ≡ false
unfolding is_settled
network_unsettled e h = ground arith

conclusion-certain :
    (o : RefreshRetryOnceOutcome DpopRefreshResult) (e : DpopRefreshError)
    → conclusion o ≡ err e
    → e.class ≡ network
    → (o.uncertain_after ≡ none) × (o.result ≡ err e)
unfolding conclusion
conclusion-certain o e h n = elim (Option-cases o.uncertain_after) [
  | inl certain ↦ (certain, ground arith)
  | inr (trigger, uncertain) ↦ absurd ground arith
]

untriggered :
    (e : DpopRefreshError) (c : AuthError)
    → e.class ≡ network
    → e.cause ≡ some c
    → retry_once_trigger (err e) ≡ none
    → refresh_retry_once_trigger_of (some c) ≡ none
unfolding retry_once_trigger
untriggered e c n h u = ground arith

module _ {W : Type 0} (date_parse : Text → Option ℤ)
    (resolve_proof : Option Text → W → Result Text Text × W) (fetch : Option Text → W → Fetched × W)
    (now : W → ℕ × W) (jkt : Text) where
  -- If a refresh fails for want of a network, then it was a single attempt, without the immediate retry,
  -- and the cause is a failure after which the server cannot have used up the refresh token: none that is
  -- worth such a retry, as an answer that was lost or an unexpected server error is.
  pub network_keeps_token :
      (s : DpopSession) (w : W) (e : DpopRefreshError) (c : AuthError)
      → (refresh_with_dpop date_parse resolve_proof fetch now jkt (s, w)).0 ≡ err e
      → e.class ≡ network
      → e.cause ≡ some c
      → (refresh_with_dpop date_parse resolve_proof fetch now jkt (s, w)
          ≡ refresh_with_dpop_once date_parse resolve_proof fetch now jkt (s, (now w).1))
        × (refresh_retry_once_trigger_of (some c) ≡ none)
  unfolding refresh_with_dpop conclusion
  network_keeps_token s w e c h n cause =
      let once = refresh_with_dpop_once date_parse resolve_proof fetch now jkt in
      let tick = clock date_parse resolve_proof fetch now jkt in
      let out =
        (refresh_with_one_immediate_retry once tick retry_once_trigger is_settled (s, w)).0 in
      let (certain, same) = conclusion-certain out e h n in
      let (spent, single) =
        unsettled_once once tick retry_once_trigger is_settled (s, w) certain
          (rw same (network_unsettled e n)) in
      let first : (once (s, (now w).1)).0 ≡ err e =
        sym (
          ap (λ (o : RefreshRetryOnceOutcome DpopRefreshResult × (DpopSession × W)). o.0.result)
            single)
        ∙ same in
      (rw single refl, untriggered e c n cause (rw first at spent))

if-true {ℓ} : {A : Type ℓ} (b : Bool) (x y : A) → b ≡ true → (if b then x else y) ≡ x
if-true b x y h = rw h refl

module _ {W : Type 0} (date_parse : Text → Option ℤ)
    (resolve_proof : Option Text → W → Result Text Text × W) (fetch : Option Text → W → Fetched × W)
    (now : W → ℕ × W) (jkt : Text) where
  abbrev proved : DpopSession → W → DpopRefreshResult × (DpopSession × W)
  proved s w =
      sent date_parse resolve_proof fetch now jkt
        (usable (resolve_proof none w).0 (codes "DPoP prover returned an empty proof")) s
        (resolve_proof none w).1 (after_challenge date_parse resolve_proof fetch now jkt s)

  once-bound :
      (s : DpopSession) (w : W)
      → s.bound ≡ true
      → refresh_with_dpop_once date_parse resolve_proof fetch now jkt (s, w) ≡ proved s w
  unfolding refresh_with_dpop_once with_proof
  once-bound s w bound = if-true s.bound (proved s w) _ bound

module _ {W : Type 0} (date_parse : Text → Option ℤ)
    (resolve_proof : Option Text → W → Result Text Text × W)
    (fetch fetch' : Option Text → W → Fetched × W) (now : W → ℕ × W) (jkt : Text)
    (agree : (proof : Text) (w : W) → fetch (some proof) w ≡ fetch' (some proof) w) where
  abbrev once : DpopSession × W → DpopRefreshResult × (DpopSession × W)
  once = refresh_with_dpop_once date_parse resolve_proof fetch now jkt

  abbrev Next : Type 0
  Next = Result TokenFailure Tokens → W → DpopRefreshResult × (DpopSession × W)

  sent-agree :
      (made : Result Text Text) (s : DpopSession) (w : W) (next next' : Next)
      → ((r : Result TokenFailure Tokens) (w' : W) → next r w' ≡ next' r w')
      → sent date_parse resolve_proof fetch now jkt made s w next
        ≡ sent date_parse resolve_proof fetch' now jkt made s w next'
  unfolding sent
  sent-agree (ok proof) s w next next' same =
      let a = fetch (some proof) w in
      rw (sym (agree proof w)) (same (refresh_access_token date_parse a.0) a.1)
  sent-agree (err e) s w next next' same = refl
  sent-agree thrown s w next next' same = refl

  concluded-agree :
      (r : Result TokenFailure Tokens) (s : DpopSession) (w : W)
      → concluded date_parse resolve_proof fetch now jkt true r s w
        ≡ concluded date_parse resolve_proof fetch' now jkt true r s w
  concluded-agree (ok tokens) s w = refl
  concluded-agree (err f) s w = refl
  concluded-agree thrown s w = refl

  after_challenge-agree :
      (s : DpopSession) (r : Result TokenFailure Tokens) (w : W)
      → after_challenge date_parse resolve_proof fetch now jkt s r w
        ≡ after_challenge date_parse resolve_proof fetch' now jkt s r w
  unfolding after_challenge with_proof
  after_challenge-agree s (ok tokens) w = refl
  after_challenge-agree s thrown w = refl
  after_challenge-agree s (err f) w = elim (Option-cases f.dpop_nonce) [
    | inl unchallenged ↦ rw unchallenged refl
    | inr (nonce, challenged) ↦ rw challenged (
        sent-agree
          (usable (resolve_proof (some nonce) w).0
            (codes "DPoP prover returned an empty proof on nonce retry"))
          s (resolve_proof (some nonce) w).1
          (λ r' w'. concluded date_parse resolve_proof fetch now jkt true r' s w')
          (λ r' w'. concluded date_parse resolve_proof fetch' now jkt true r' s w')
          (λ r' w'. concluded-agree r' s w'))
  ]

  once-agree :
      (w : DpopSession × W)
      → w.0.bound ≡ true
      → once w ≡ refresh_with_dpop_once date_parse resolve_proof fetch' now jkt w
  once-agree (s, w) bound =
      once-bound date_parse resolve_proof fetch now jkt s w bound
      ∙ sent-agree (usable (resolve_proof none w).0 (codes "DPoP prover returned an empty proof")) s
          (resolve_proof none w).1 (after_challenge date_parse resolve_proof fetch now jkt s)
          (after_challenge date_parse resolve_proof fetch' now jkt s) (after_challenge-agree s)
      ∙ sym (once-bound date_parse resolve_proof fetch' now jkt s w bound)

  -- A result that is worth a retry leaves the session as it was.
  abbrev Keeps : DpopSession → DpopRefreshResult × (DpopSession × W) → Type 0
  Keeps s out = retry_once_trigger out.0 ≢ none → out.1.0 ≡ s

  concluded-Keeps :
      (attached : Bool) (r : Result TokenFailure Tokens) (s : DpopSession) (w : W)
      → Keeps s (concluded date_parse resolve_proof fetch now jkt attached r s w)
  unfolding retry_once_trigger
  concluded-Keeps attached (ok tokens) s w h = absurd (h refl)
  concluded-Keeps attached (err f) s w h = refl
  concluded-Keeps attached thrown s w h = refl

  sent-Keeps :
      (made : Result Text Text) (s : DpopSession) (w : W) (next : Next)
      → ((r : Result TokenFailure Tokens) (w' : W) → Keeps s (next r w'))
      → Keeps s (sent date_parse resolve_proof fetch now jkt made s w next)
  unfolding sent
  sent-Keeps (ok proof) s w next keeps =
      let (a, w') = fetch (some proof) w in keeps (refresh_access_token date_parse a) w'
  sent-Keeps (err e) s w next keeps = λ h. refl
  sent-Keeps thrown s w next keeps = λ h. refl

  after_challenge-Keeps :
      (s : DpopSession) (r : Result TokenFailure Tokens) (w : W)
      → Keeps s (after_challenge date_parse resolve_proof fetch now jkt s r w)
  unfolding after_challenge with_proof
  after_challenge-Keeps s (ok tokens) w = concluded-Keeps true (ok tokens) s w
  after_challenge-Keeps s thrown w = concluded-Keeps true thrown s w
  after_challenge-Keeps s (err f) w = elim (Option-cases f.dpop_nonce) [
    | inl unchallenged ↦ rw unchallenged (λ h. refl)
    | inr (nonce, challenged) ↦ rw challenged (
        sent-Keeps
          (usable (resolve_proof (some nonce) w).0
            (codes "DPoP prover returned an empty proof on nonce retry"))
          s (resolve_proof (some nonce) w).1
          (λ r' w'. concluded date_parse resolve_proof fetch now jkt true r' s w')
          (λ r' w'. concluded-Keeps true r' s w'))
  ]

  once-Keeps : (w : DpopSession × W) → w.0.bound ≡ true → Keeps w.0 (once w)
  once-Keeps (s, w) bound = rw (once-bound date_parse resolve_proof fetch now jkt s w bound) (
      sent-Keeps (usable (resolve_proof none w).0 (codes "DPoP prover returned an empty proof")) s
        (resolve_proof none w).1 (after_challenge date_parse resolve_proof fetch now jkt s)
        (after_challenge-Keeps s))

  -- The refresh of a bound session never sends the refresh token without a proof: a server connection
  -- that differs only on requests without a proof gives the same result, whatever the server answers.
  pub bound_sends_proofs :
      (s : DpopSession) (w : W)
      → s.bound ≡ true
      → refresh_with_dpop date_parse resolve_proof fetch now jkt (s, w)
        ≡ refresh_with_dpop date_parse resolve_proof fetch' now jkt (s, w)
  unfolding refresh_with_dpop
  bound_sends_proofs s w bound =
      let other = refresh_with_dpop_once date_parse resolve_proof fetch' now jkt in
      let tick = clock date_parse resolve_proof fetch now jkt in
      let same =
        refresh-agree once other tick retry_once_trigger is_settled (λ w'. w'.0.bound ≡ true)
          once-agree (λ w' p. p) (λ w' p h. rw (once-Keeps w' p h) p) (s, w) bound in
      rw same refl

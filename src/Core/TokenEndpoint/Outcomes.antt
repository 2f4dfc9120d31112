-- ===== src/Core/TokenEndpoint/Outcomes.antt =====
-- Which answers of the token endpoint end a session, are worth a retry, or break the promise of a typed
-- result.
use rakomi_js.Common.{
  ℕ, true, false, Option, none, some, ◌≡◌, ◌↔◌, ◌⊎◌, inl, inr, refl, arith, get_or, Bool-cases,
}
use rakomi_js.Common.Int.{ℤ}
use rakomi_js.Common.Number.{Number}
use rakomi_js.Common.Text.{Text}
use rakomi_js.Common.Json.{Json, null, obj, end, get}
use rakomi_js.Common.Results.{ok, err, thrown}
use rakomi_js.Core.RefreshRetry.{
  is_transient_status, is_definitive_refresh_rejection, is_settled_refresh_result,
}
use rakomi_js.Core.TokenEndpoint.{
  Response, Fetched, failed, answered, TokenFailure, Tokens, is_ok, rejected, accepted,
  refresh_access_token, refresh, parse_token_endpoint_error, as_retry_after, parse_retry_after_ms,
  fields_of, nonempty_text,
}

-- The code of a rejection's body, as the error keeps it.
abbrev pub body_error : Response → Option Text
body_error r = nonempty_text (get "error" (fields_of (get_or r.body (obj end))))

-- An answer that ends the session: a success that cannot be read, or a definitive rejection.
abbrev pub IsFinal : Fetched → Type 0
IsFinal (failed message) = ⊥
IsFinal (answered r) =
    (is_ok r.status ≡ true) ⊎ (is_definitive_refresh_rejection r.status (body_error r) ≡ true)

parse-settled :
    (status : ℕ) (body : Json) (after : Option Number)
    → (is_settled_refresh_result (some (parse_token_endpoint_error status body refresh after))
        ≡ true)
      ↔ (is_definitive_refresh_rejection status (nonempty_text (get "error" (fields_of body)))
          ≡ true)
unfolding parse_token_endpoint_error is_settled_refresh_result is_definitive_refresh_rejection
    is_transient_status
parse-settled status body after = ground arith

module _ (date_parse : Text → Option ℤ) where
  accepted-settled :
      (r : Response) (f : TokenFailure)
      → accepted date_parse r ≡ err f
      → is_settled_refresh_result (some f.error) ≡ true
  unfolding accepted is_settled_refresh_result
  accepted-settled r f h = ground arith

  rejected-settled :
      (r : Response) (body : Json) (f : TokenFailure)
      → rejected date_parse r body ≡ err f
      → (is_settled_refresh_result (some f.error) ≡ true) ↔ (
          is_definitive_refresh_rejection r.status (nonempty_text (get "error" (fields_of body)))
          ≡ true)
  unfolding rejected
  rejected-settled r null f h = cc
  rejected-settled r body f h = ground (
    arith,
    parse-settled r.status body none,
    parse-settled r.status body
        (as_retry_after (parse_retry_after_ms date_parse r.retry_after r.now)),
  )

  rejected-IsOk : (r : Response) (body : Json) (t : Tokens) → rejected date_parse r body ≡ ok t → ⊥
  unfolding rejected
  rejected-IsOk r null t h = cc
  rejected-IsOk r body t h = ground arith

  -- A refresh that fails with an error ends the session (its error is a settled one) exactly if the
  -- token endpoint answered with a success that cannot be read, or with a definitive rejection; a
  -- transport failure never does.
  pub refresh_ends_session_iff :
      (a : Fetched) (f : TokenFailure)
      → refresh_access_token date_parse a ≡ err f
      → (is_settled_refresh_result (some f.error) ≡ true) ↔ IsFinal a
  unfolding refresh_access_token is_settled_refresh_result
  refresh_ends_session_iff (failed message) f h = ground arith
  refresh_ends_session_iff (answered r) f h = elim (Bool-cases (is_ok r.status)) [
    | inl good ↦ (λ s. inl good, λ e. accepted-settled r f ground arith)
    | inr bad ↦ ground (arith, rejected-settled r (get_or r.body (obj end)) f)
  ]

  rejected-thrown :
      (r : Response) (body : Json) → (rejected date_parse r body ≡ thrown) ↔ (body ≡ null)
  unfolding rejected
  rejected-thrown r null = (λ h. refl, λ h. refl)
  rejected-thrown r body = ground arith

  accepted-returns : (r : Response) → accepted date_parse r ≡ thrown → ⊥
  unfolding accepted
  accepted-returns r h = ground arith

  is_null_body : (b : Option Json) → get_or b (obj end) ≡ null → b ≡ some null
  is_null_body none h = cc
  is_null_body (some j) h = cc

  -- A refresh rejects with an exception, in place of a typed result, exactly if the token endpoint
  -- answers with a status other than 200 to 299 and the JSON body `null`.
  pub refresh_throws_iff :
      (a : Fetched)
      → (refresh_access_token date_parse a ≡ thrown)
        ↔ ((r : Response) × (a ≡ answered r) × (is_ok r.status ≡ false) × (r.body ≡ some null))
  unfolding refresh_access_token
  refresh_throws_iff (failed message) = (λ h. cc, λ x. cc)
  refresh_throws_iff (answered r) = elim (Bool-cases (is_ok r.status)) [
    | inl good ↦
        (λ h. absurd (accepted-returns r ground arith), λ (r', same, bad, b). absurd ground arith)
    | inr bad ↦ (
      λ h. (
        r,
        refl,
        bad,
        is_null_body r.body ((rejected-thrown r (get_or r.body (obj end))).0 ground arith),
      ),
      λ (r', same, b, null_body). ground (arith, rejected-thrown r null),
    )
  ]

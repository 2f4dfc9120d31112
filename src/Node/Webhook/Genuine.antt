-- ===== src/Node/Webhook/Genuine.antt =====
-- When a webhook is accepted.
use mathlib.Core.Path.{subst}
use rakomi_js.Common.{
  ℕ, ◌+◌, ◌≤◌, Bool, true, false, not, Option, some, List, [], ◌∷◌, length, drop, any, ◌≡◌, ◌↔◌,
  ◌⊎◌, inl, inr, refl, sym, ap, ◌∙◌, arith, get_or, Bool-cases,
}
use rakomi_js.Common.Int.{ℤ, pos, pos_part, neg_part, neg, ltb_ℤ, ◌-ℤ◌}
use rakomi_js.Common.Number.{Number}
use rakomi_js.Common.Text.{Text, codes, starts_with, is_empty, trim, IsIn}
use rakomi_js.Common.Results.{Result, ok, >>=-eq-ok}
use rakomi_js.Node.Errors.{SdkError}
use rakomi_js.Node.Webhook.{
  Platform, Headers, get_header, parse_int, replay_window, signature_entries, present, or_fail,
  guard, WebhookVerifyData, derive_key, matches, expected_signature, verify_webhook,
}

present-eq-ok :
    (o : Option Text) (s : Text) → present o ≡ ok s → (o ≡ some s) × (is_empty s ≡ false)
present-eq-ok o s h = ground arith

or_fail-eq-ok : {A : Type 0} (o : Option A) (e : SdkError) (a : A) → or_fail o e ≡ ok a → o ≡ some a
or_fail-eq-ok o e a h = ground arith

pub guard-eq-ok : (b : Bool) (e : SdkError) (u : Unit {0}) → guard b e ≡ ok u → b ≡ true
guard-eq-ok b e u h = ground arith

not-eq-true : (b : Bool) → not b ≡ true → b ≡ false
not-eq-true b h = ground arith

ok_injective :
    (a b : WebhookVerifyData) → ◌≡◌ {A = Result SdkError WebhookVerifyData} (ok a) (ok b) → a ≡ b
ok_injective a b h = cc

-- A time is within a window, in seconds, around the present one.
abbrev pub IsWithin : ℕ → ℤ → ℤ → Type 0
IsWithin now window time =
    (now + neg_part time + neg_part window ≤ pos_part time + pos_part window)
    × (pos_part time + neg_part window ≤ now + neg_part time + pos_part window)

window_iff :
    (now : ℕ) (window time : ℤ)
    → ((ltb_ℤ window (pos now -ℤ time) ≡ false) × (ltb_ℤ (pos now -ℤ time) (neg window) ≡ false))
      ↔ IsWithin now window time
unfolding ◌-ℤ◌
window_iff now window time = (λ h. ground arith, λ h. ground arith)

-- An entry of a list passes a test.
record Passes (p : Text → Bool) (entries : List Text) : Type 0 where
  pub entry : Text
  pub among : IsIn entry entries
  pub passes : p entry ≡ true

any-Passes : (p : Text → Bool) (entries : List Text) → any p entries ≡ true → Passes p entries
any-Passes p [] h = cc
any-Passes p (x ∷ xs) h = elim (Bool-cases (p x)) [
  | inl yes' ↦ record { entry = x; among = inl refl; passes = yes' }
  | inr no' ↦
      let found = any-Passes p xs (ground arith) in
      record { entry = found.entry; among = inr found.among; passes = found.passes }
]

IsIn-any : (p : Text → Bool) (x : Text) (xs : List Text) → IsIn x xs → p x ≡ true → any p xs ≡ true
IsIn-any p x [] h k = absurd h
IsIn-any p x (y ∷ ys) (inl same) k = rw (same, k) refl
IsIn-any p x (y ∷ ys) (inr later) k = ground (arith, IsIn-any p x ys later k)

module _ (platform : Platform) where
  open platform use {
    from_base64, from_base64url, from_utf8, timing_safe_equal, json_parse, now_seconds,
  }

  -- What a webhook is accepted for.
  pub record IsGenuine (body : Text) (headers : Headers) (secret : Text) (tolerance : Number)
      (result : WebhookVerifyData) : Type 0 where
    pub signature : Text
    pub timestamp_text : Text
    pub key : List ℕ
    pub entry : Text
    pub signature_header : get_header headers (codes "webhook-signature") ≡ some signature
    pub timestamp_header : get_header headers (codes "webhook-timestamp") ≡ some timestamp_text
    pub id_header : get_header headers (codes "webhook-id") ≡ some result.webhook_id
    pub signature_nonempty : is_empty signature ≡ false
    pub timestamp_nonempty : is_empty timestamp_text ≡ false
    pub id_nonempty : is_empty result.webhook_id ≡ false
    pub is_time : parse_int timestamp_text ≡ some result.timestamp
    pub in_time : IsWithin now_seconds (replay_window tolerance) result.timestamp
    pub has_key : derive_key platform secret ≡ some key
    pub is_entry : IsIn entry (signature_entries signature)
    pub is_version : starts_with entry (codes "v1,") ≡ true
    pub is_signature :
        from_base64 (drop 3 entry)
        ≡ from_base64 (expected_signature platform key result.webhook_id timestamp_text body)
    pub full_length : length (from_base64 (drop 3 entry)) ≡ 32
    pub is_payload : json_parse body ≡ some result.payload
    pub delivery :
        result.delivery_id
        ≡ get_or (get_header headers (codes "x-rakomi-delivery-id")) result.webhook_id

  matches_sound :
      ((a b : List ℕ) → timing_safe_equal a b ≡ true → a ≡ b)
      → (expected entry : Text) → matches platform expected entry ≡ true
      → (starts_with entry (codes "v1,") ≡ true)
        × (from_base64 (drop 3 entry) ≡ from_base64 expected)
        × (length (from_base64 (drop 3 entry)) ≡ 32)
  matches_sound decides expected entry h =
      let safe : timing_safe_equal (from_base64 expected) (from_base64 (drop 3 entry)) ≡ true =
        ground arith in
      (
        ground arith,
        sym (decides (from_base64 expected) (from_base64 (drop 3 entry)) safe),
        ground arith,
      )

  verify_webhook_sound :
      ((a b : List ℕ) → timing_safe_equal a b ≡ true → a ≡ b)
      → (body : Text) (headers : Headers) (secret : Text) (tolerance : Number)
        (result : WebhookVerifyData)
      → verify_webhook platform body headers secret tolerance ≡ ok result
      → IsGenuine body headers secret tolerance result
  unfolding verify_webhook
  verify_webhook_sound decides body headers secret tolerance result h =
      let (signature, s1, h1) =
        >>=-eq-ok (present (get_header headers (codes "webhook-signature"))) _ h in
      let (time_text, s2, h2) =
        >>=-eq-ok (present (get_header headers (codes "webhook-timestamp"))) _ h1 in
      let (id, s3, h3) = >>=-eq-ok (present (get_header headers (codes "webhook-id"))) _ h2 in
      let (time, s4, h4) = >>=-eq-ok (or_fail (parse_int time_text) _) _ h3 in
      let (u5, s5, h5) =
        >>=-eq-ok (guard (not (ltb_ℤ (replay_window tolerance) (pos now_seconds -ℤ time))) _) _
          h4 in
      let (u6, s6, h6) =
        >>=-eq-ok (guard (not (ltb_ℤ (pos now_seconds -ℤ time) (neg (replay_window tolerance)))) _)
          _ h5 in
      let (key, s7, h7) = >>=-eq-ok (or_fail (derive_key platform secret) _) _ h6 in
      let (u8, s8, h8) =
        >>=-eq-ok
          (guard
            (any (matches platform (expected_signature platform key id time_text body))
              (signature_entries signature))
            _)
          _ h7 in
      let (payload, s9, made) = >>=-eq-ok (or_fail (json_parse body) _) _ h8 in
      let found = any-Passes _ (signature_entries signature) (guard-eq-ok _ _ u8 s8) in
      let expected = expected_signature platform key id time_text body in
      let (version, same, full) = matches_sound decides expected found.entry found.passes in
      subst (IsGenuine body headers secret tolerance) (ok_injective _ result made) (record {
        signature = signature;
        timestamp_text = time_text;
        key = key;
        entry = found.entry;
        signature_header = (present-eq-ok _ signature s1).0;
        timestamp_header = (present-eq-ok _ time_text s2).0;
        id_header = (present-eq-ok _ id s3).0;
        signature_nonempty = (present-eq-ok _ signature s1).1;
        timestamp_nonempty = (present-eq-ok _ time_text s2).1;
        id_nonempty = (present-eq-ok _ id s3).1;
        is_time = or_fail-eq-ok _ _ time s4;
        in_time =
            (window_iff now_seconds (replay_window tolerance) time).0
              (not-eq-true _ (guard-eq-ok _ _ u5 s5), not-eq-true _ (guard-eq-ok _ _ u6 s6));
        has_key = or_fail-eq-ok _ _ key s7;
        is_entry = found.among;
        is_version = version;
        is_signature = same;
        full_length = full;
        is_payload = or_fail-eq-ok _ _ payload s9;
        delivery = refl;
      })

  some-present : (s : Text) → is_empty s ≡ false → present (some s) ≡ ok s
  some-present s h = rw h refl

  matches_complete :
      ((a b : List ℕ) → (timing_safe_equal a b ≡ true) ↔ (a ≡ b))
      → (expected entry : Text) → starts_with entry (codes "v1,") ≡ true
      → from_base64 (drop 3 entry) ≡ from_base64 expected
      → length (from_base64 (drop 3 entry)) ≡ 32
      → matches platform expected entry ≡ true
  matches_complete decides expected entry version same full =
      let safe : timing_safe_equal (from_base64 expected) (from_base64 (drop 3 entry)) ≡ true =
        (decides _ _).1 (sym same) in
      let full' : length (from_base64 expected) ≡ 32 = ap length (sym same) ∙ full in
      rw (version, full, full', safe) refl

  verify_webhook_complete :
      ((a b : List ℕ) → (timing_safe_equal a b ≡ true) ↔ (a ≡ b))
      → (body : Text) (headers : Headers) (secret : Text) (tolerance : Number)
        (result : WebhookVerifyData)
      → IsGenuine body headers secret tolerance result
      → verify_webhook platform body headers secret tolerance ≡ ok result
  unfolding verify_webhook
  verify_webhook_complete decides body headers secret tolerance result g =
      let (not_old, not_new) =
        (window_iff now_seconds (replay_window tolerance) result.timestamp).1 g.in_time in
      let found =
        IsIn-any
          (matches platform
            (expected_signature platform g.key result.webhook_id g.timestamp_text body))
          g.entry (signature_entries g.signature) g.is_entry
          (matches_complete decides _ g.entry g.is_version g.is_signature g.full_length) in
      rw
        (
          g.signature_header,
          some-present g.signature g.signature_nonempty,
          g.timestamp_header,
          some-present g.timestamp_text g.timestamp_nonempty,
          g.id_header,
          some-present result.webhook_id g.id_nonempty,
          g.is_time,
          not_old,
          not_new,
          g.has_key,
          found,
          g.is_payload,
          ← g.delivery,
        )
        refl

  -- If `timingSafeEqual` decides the equality of bytes, a webhook is accepted, with a result, exactly if
  -- its three headers are there, its time is within the tolerance of the present (300 seconds, where the
  -- tolerance is not finite), the secret gives a key, and some entry of version 1 in its signature header
  -- decodes to 32 bytes that are those of the HMAC, under that key, of its id, time and body; the
  -- result has that id and time, the delivery id, and the parsed body.
  pub verify_webhook_iff :
      ((a b : List ℕ) → (timing_safe_equal a b ≡ true) ↔ (a ≡ b))
      → (body : Text) (headers : Headers) (secret : Text) (tolerance : Number)
        (result : WebhookVerifyData)
      → (verify_webhook platform body headers secret tolerance ≡ ok result)
        ↔ IsGenuine body headers secret tolerance result
  verify_webhook_iff decides body headers secret tolerance result = (
    verify_webhook_sound (λ a b. (decides a b).0) body headers secret tolerance result,
    verify_webhook_complete decides body headers secret tolerance result,
  )

  -- A secret that gives a key is not white space alone, and the key has 32 bytes unless the secret
  -- has neither of the two prefixes, and then the key is the secret itself in UTF-8.
  pub derive_key_cases :
      (secret : Text) (key : List ℕ)
      → derive_key platform secret ≡ some key
      → (is_empty (trim secret) ≡ false)
        × ((length key ≡ 32)
            ⊎ ((key ≡ from_utf8 secret)
                × (starts_with secret (codes "whsec_") ≡ false)
                × (starts_with secret (codes "rksec_") ≡ false)))
  unfolding derive_key
  derive_key_cases secret key h = ground arith

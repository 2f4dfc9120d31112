-- ===== src/Common/Results.antt =====
-- `{ ok: true, data } | { ok: false, error }`, with the exception that a promise may reject with.
use mathlib.Core.Path.{◌≡◌, refl}

pub data Result {ℓ κ} (E : Type κ) (A : Type ℓ) : Type (ℓ ⊔ κ) where
  ok : A → Result E A
  err : E → Result E A
  thrown : Result E A

infixl 5 ◌>>=◌
abbrev pub ◌>>=◌ {ℓ κ μ} :
    {E : Type ℓ} {A : Type κ} {B : Type μ} → Result E A → (A → Result E B) → Result E B
thrown >>= next = thrown
err reason >>= next = err reason
ok value >>= next = next value

-- A chain that succeeds has a first success.
pub >>=-eq-ok {ℓ κ μ} :
    {E : Type ℓ} {A : Type κ} {B : Type μ} (first : Result E A) (next : A → Result E B) {last : B}
    → (first >>= next) ≡ ok last
    → (value : A) × (first ≡ ok value) × (next value ≡ ok last)
>>=-eq-ok thrown next succeeds = cc
>>=-eq-ok (err reason) next succeeds = cc
>>=-eq-ok (ok value) next succeeds = (value, refl, succeeds)

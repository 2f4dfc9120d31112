-- ===== src/Core/Base64/RoundTrip.antt =====
-- Decoding what RFC 4648 encodes.
use rakomi_js.Common.{
  ℕ, ◌+◌, ◌-◌, ◌*◌, ◌/◌, ◌%◌, ◌^◌, ◌<◌, Bool, true, false, none, some, List, [], ◌∷◌, ◌++◌, map,
  length, ltb, ◌==◌, if◌then◌else◌, ◌≡◌, refl, ap, arith, All, bit_or, bit_and,
}
use rakomi_js.Common.Bits.{bit_or_disjoint, bit_and_3, bit_and_15}
use rakomi_js.Common.Text.{Text}
use rakomi_js.Core.Base64.{
  to_standard, padded, lookup, group_bytes, decode_groups, base64_to_bytes, replicate_pad,
}

-- The alphabet of RFC 4648, section 5 (URL and filename safe), and section 4.
unfoldable pub symbol : Bool → ℕ → ℕ
symbol url_safe v =
    if ltb v 26
    then b'A' + v
    else if ltb v 52
    then b'a' + (v - 26)
    else if ltb v 62
    then b'0' + (v - 52)
    else if v == 62
    then (if url_safe then b'-' else b'+')
    else (if url_safe then b'_' else b'/')

-- The encoding without padding.
unfoldable pub encode : Bool → List ℕ → Text
encode u [] = []
encode u (a ∷ []) = symbol u (a / 4) ∷ symbol u (a % 4 * 16) ∷ []
encode u (a ∷ b ∷ []) =
    symbol u (a / 4) ∷ symbol u (a % 4 * 16 + b / 16) ∷ symbol u (b % 16 * 4) ∷ []
encode u (a ∷ b ∷ c ∷ rest) =
    symbol u (a / 4)
    ∷ symbol u (a % 4 * 16 + b / 16)
    ∷ symbol u (b % 16 * 4 + c / 64)
    ∷ symbol u (c % 64)
    ∷ encode u rest

abbrev pub IsByte : ℕ → Type 0
IsByte b = b < 256

-- A symbol in either alphabet is read back as its value, and is no padding.
lookup-symbol : (u : Bool) (v : ℕ) → v < 64 → lookup (to_standard (symbol u v)) ≡ v
unfolding lookup to_standard symbol
lookup-symbol true v h = ground arith
lookup-symbol false v h = ground arith

symbol_ne_pad : (u : Bool) (v : ℕ) → v < 64 → (to_standard (symbol u v) == b'=') ≡ false
unfolding to_standard symbol
symbol_ne_pad true v h = ground arith
symbol_ne_pad false v h = ground arith

first_byte : (a b : ℕ) → a < 64 → b < 64 → bit_or (a * 2 ^ 2) (b / 2 ^ 4) ≡ a * 4 + b / 16
first_byte a b h k = bit_or_disjoint 2 a (b / 16) (omega arith)

second_byte : (a b : ℕ) → b < 64 → bit_or (bit_and a 0x0f * 2 ^ 4) (b / 2 ^ 2) ≡ a % 16 * 16 + b / 4
second_byte a b h = rw (bit_and_15 a) (bit_or_disjoint 4 (a % 16) (b / 4) (omega arith))

third_byte : (a b : ℕ) → b < 64 → bit_or (bit_and a 0x03 * 2 ^ 6) b ≡ a % 4 * 64 + b
third_byte a b h = rw (bit_and_3 a) (bit_or_disjoint 6 (a % 4) b (omega arith))

-- How many `=` an encoding lacks.
abbrev missing : List ℕ → ℕ
missing [] = 0
missing (a ∷ []) = 2
missing (a ∷ b ∷ []) = 1
missing (a ∷ b ∷ c ∷ rest) = missing rest

missing_padding :
    (u : Bool) (bs : List ℕ) → (4 - length (map to_standard (encode u bs)) % 4) % 4 ≡ missing bs
unfolding encode
missing_padding u [] = refl
missing_padding u (a ∷ []) = refl
missing_padding u (a ∷ b ∷ []) = refl
missing_padding u (a ∷ b ∷ c ∷ rest) = omega (arith, missing_padding u rest)

-- The three ways in which a group ends.
module _ (u : Bool) (v0 v1 : ℕ) (h0 : v0 < 64) (h1 : v1 < 64) where
  one_byte :
      group_bytes (to_standard (symbol u v0)) (to_standard (symbol u v1)) b'=' b'='
      ≡ (v0 * 4 + v1 / 16) ∷ []
  unfolding group_bytes
  one_byte = rw (lookup-symbol u v0 h0, lookup-symbol u v1 h1, first_byte v0 v1 h0 h1)

  module _ (v2 : ℕ) (h2 : v2 < 64) where
    two_bytes :
        group_bytes
          (to_standard (symbol u v0))
          (to_standard (symbol u v1))
          (to_standard (symbol u v2))
          b'='
        ≡ (v0 * 4 + v1 / 16) ∷ (v1 % 16 * 16 + v2 / 4) ∷ []
    unfolding group_bytes
    two_bytes = rw (
      symbol_ne_pad u v2 h2,
      lookup-symbol u v0 h0,
      lookup-symbol u v1 h1,
      lookup-symbol u v2 h2,
      first_byte v0 v1 h0 h1,
      second_byte v1 v2 h2,
    )

    three_bytes :
        (v3 : ℕ)
        → v3 < 64
        → group_bytes
            (to_standard (symbol u v0))
            (to_standard (symbol u v1))
            (to_standard (symbol u v2))
            (to_standard (symbol u v3))
          ≡ (v0 * 4 + v1 / 16) ∷ (v1 % 16 * 16 + v2 / 4) ∷ (v2 % 4 * 64 + v3) ∷ []
    unfolding group_bytes
    three_bytes v3 h3 = rw (
      symbol_ne_pad u v2 h2,
      symbol_ne_pad u v3 h3,
      lookup-symbol u v0 h0,
      lookup-symbol u v1 h1,
      lookup-symbol u v2 h2,
      lookup-symbol u v3 h3,
      first_byte v0 v1 h0 h1,
      second_byte v1 v2 h2,
      third_byte v2 v3 h3,
    )

decode_groups-encode :
    (u : Bool) (bs : List ℕ)
    → All IsByte bs
    → decode_groups (map to_standard (encode u bs) ++ replicate_pad (missing bs)) ≡ bs
unfolding decode_groups encode
decode_groups-encode u [] h = refl
decode_groups-encode u (a ∷ []) h =
    rw
      (
        symbol_ne_pad u (a / 4) (omega arith),
        one_byte u (a / 4) (a % 4 * 16) (omega arith) (omega arith),
      )
      (ap (λ (n : ℕ). n ∷ []) (omega arith))
decode_groups-encode u (a ∷ b ∷ []) h =
    rw
      (
        symbol_ne_pad u (a / 4) (omega arith),
        two_bytes u (a / 4) (a % 4 * 16 + b / 16) (omega arith) (omega arith) (b % 16 * 4)
            (omega arith),
      )
      (ground arith)
decode_groups-encode u (a ∷ b ∷ c ∷ rest) h =
    rw
      (
        symbol_ne_pad u (a / 4) (omega arith),
        three_bytes u (a / 4) (a % 4 * 16 + b / 16) (omega arith) (omega arith)
            (b % 16 * 4 + c / 64) (omega arith) (c % 64) (omega arith),
        decode_groups-encode u rest h.1.1.1,
      )
      (ground arith)

-- Without `atob`, decoding the unpadded RFC 4648 encoding of any bytes (numbers below 256), in the
-- URL-safe or in the standard alphabet, gives back these bytes.
pub base64_to_bytes-encode :
    (u : Bool) (bs : List ℕ) → All IsByte bs → base64_to_bytes none (encode u bs) ≡ some bs
unfolding base64_to_bytes padded
base64_to_bytes-encode u bs h = rw (missing_padding u bs) (ap some (decode_groups-encode u bs h))

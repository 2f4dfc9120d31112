-- ===== src/Core/Utf8.antt =====
-- `bytesToUtf8` of packages/sdk-core/src/jwt-decode.ts, the decoder for platforms without
-- `TextDecoder`.
pub mod RoundTrip
use mathlib.Core.List.{tail}
use rakomi_js.Common.{
  ℕ, zero, suc, ◌+◌, ◌-◌, ◌*◌, ◌/◌, ◌%◌, ◌^◌, bit_and, bit_or, List, [], ◌∷◌, ◌++◌, length, ltb,
  if◌then◌else◌,
}
use rakomi_js.Common.Text.{Text}

-- `bytes[i++]`; past the end it is `undefined`, which the masks below read as 0
abbrev next : List ℕ → ℕ
next [] = 0
next (b ∷ bs) = b

abbrev two_byte_unit : ℕ → ℕ → ℕ
two_byte_unit c c2 = bit_or (bit_and c 0x1f * 2 ^ 6) (bit_and c2 0x3f)

abbrev three_byte_unit : ℕ → ℕ → ℕ → ℕ
three_byte_unit c c2 c3 =
    bit_or (bit_or (bit_and c 0x0f * 2 ^ 12) (bit_and c2 0x3f * 2 ^ 6)) (bit_and c3 0x3f)

abbrev four_byte_point : ℕ → ℕ → ℕ → ℕ → ℕ
four_byte_point c c2 c3 c4 =
    bit_or
      (bit_or (bit_or (bit_and c 0x07 * 2 ^ 18) (bit_and c2 0x3f * 2 ^ 12))
        (bit_and c3 0x3f * 2 ^ 6))
      (bit_and c4 0x3f)

-- `adj >> 10` rounds down and `adj & 0x3ff` is the remainder, also when `adj = cp - 0x10000` is
-- negative (an overlong form); 0x10000 is 64 * 2 ^ 10. Neither unit reaches 2 ^ 16.
abbrev surrogates : ℕ → Text
surrogates cp = (0xd800 + cp / 2 ^ 10 - 64) ∷ (0xdc00 + cp % 2 ^ 10) ∷ []

-- The loop, on a count of rounds; a round takes at least one byte.
unfoldable pub decode_from : ℕ → List ℕ → Text
decode_from zero bs = []
decode_from (suc n) [] = []
decode_from (suc n) (c ∷ bs) =
    let one = c ∷ decode_from n bs in
    let two = two_byte_unit c (next bs) ∷ decode_from n (tail bs) in
    let three = three_byte_unit c (next bs) (next (tail bs)) ∷ decode_from n (tail (tail bs)) in
    let four =
      surrogates (four_byte_point c (next bs) (next (tail bs)) (next (tail (tail bs))))
      ++ decode_from n (tail (tail (tail bs))) in
    if ltb c 0x80 then one else if ltb c 0xe0 then two else if ltb c 0xf0 then three else four

-- `bytesToUtf8`
unfoldable pub bytes_to_utf8 : List ℕ → Text
unfolding decode_from
bytes_to_utf8 bs = decode_from (length bs) bs

-- ===== src/Core/Base64.antt =====
-- `base64ToBytes` of packages/sdk-core/src/jwt-decode.ts.
pub mod RoundTrip
use rakomi_js.Common.{
  ℕ, zero, suc, ◌+◌, ◌-◌, ◌*◌, ◌/◌, ◌%◌, ◌^◌, bit_and, bit_or, Bool, true, false, ◌&&◌, Option,
  none, some, List, [], ◌∷◌, ◌++◌, map, length, leb, ◌==◌, if◌then◌else◌,
}
use rakomi_js.Common.Text.{Text}

-- `.replace(/-/g, '+').replace(/_/g, '/')`, on one code unit
unfoldable pub to_standard : ℕ → ℕ
to_standard c = if c == b'-' then b'+' else if c == b'_' then b'/' else c

abbrev replicate_pad : ℕ → Text
replicate_pad zero = []
replicate_pad (suc n) = b'=' ∷ replicate_pad n

unfoldable pub padded : Text → Text
padded normalized = normalized ++ replicate_pad ((4 - length normalized % 4) % 4)

-- The table `lookup`: the place of a code unit in the alphabet. Other entries are 0, and so is what a
-- bit operation makes of a read outside of the table.
unfoldable pub lookup : ℕ → ℕ
lookup c =
    if leb b'A' c && leb c b'Z'
    then c - b'A'
    else if leb b'a' c && leb c b'z'
    then c - b'a' + 26
    else if leb b'0' c && leb c b'9'
    then c - b'0' + 52
    else if c == b'+'
    then 62
    else if c == b'/'
    then 63
    else 0

-- The bytes of one group of four code units, but for the first test. A byte is at most 255, so the
-- store into a `Uint8Array` changes nothing.
unfoldable pub group_bytes : ℕ → ℕ → ℕ → ℕ → List ℕ
group_bytes c0 c1 c2 c3 =
    bit_or (lookup c0 * 2 ^ 2) (lookup c1 / 2 ^ 4)
    ∷ (if c2 == b'='
        then []
        else bit_or (bit_and (lookup c1) 0x0f * 2 ^ 4) (lookup c2 / 2 ^ 2)
          ∷ (if c3 == b'=' then [] else bit_or (bit_and (lookup c2) 0x03 * 2 ^ 6) (lookup c3) ∷ []))

-- The loop over groups of four; the padded text has a length that four divides.
unfoldable pub decode_groups : Text → List ℕ
decode_groups (c0 ∷ c1 ∷ c2 ∷ c3 ∷ rest) =
    let more = decode_groups rest in if c0 == b'=' then [] else group_bytes c0 c1 c2 c3 ++ more
decode_groups _ = []

-- `atob` where the platform has it, which the source prefers: `none` of a call is its exception.
unfoldable pub base64_to_bytes : Option (Text → Option (List ℕ)) → Text → Option (List ℕ)
base64_to_bytes (some atob) input = atob (padded (map to_standard input))
base64_to_bytes none input = some (decode_groups (padded (map to_standard input)))

-- ===== src/Core/Utf8/RoundTrip.antt =====
-- Decoding what RFC 3629 encodes, with a spare count of rounds.
use rakomi_js.Common.{
  ℕ, zero, suc, ◌+◌, ◌-◌, ◌*◌, ◌/◌, ◌%◌, ◌^◌, ◌≤◌, ◌<◌, List, [], ◌∷◌, ◌++◌, length, length-append,
  ltb, if◌then◌else◌, ◌≡◌, refl, arith, All, bit_or,
}
use rakomi_js.Common.Bits.{bit_or_disjoint, bit_and_7, bit_and_15, bit_and_31, bit_and_63}
use rakomi_js.Common.Text.{Text}
use rakomi_js.Core.Utf8.{
  two_byte_unit, three_byte_unit, four_byte_point, decode_from, bytes_to_utf8,
}

-- The UTF-8 form of a code point (RFC 3629, section 3).
unfoldable pub encode_point : ℕ → List ℕ
encode_point p =
    if ltb p 0x80
    then p ∷ []
    else if ltb p 0x800
    then (0xc0 + p / 64) ∷ (0x80 + p % 64) ∷ []
    else if ltb p 0x10000
    then (0xe0 + p / 4096) ∷ (0x80 + p / 64 % 64) ∷ (0x80 + p % 64) ∷ []
    else (0xf0 + p / 262144) ∷ (0x80 + p / 4096 % 64) ∷ (0x80 + p / 64 % 64) ∷ (0x80 + p % 64) ∷ []

unfoldable pub encode : List ℕ → List ℕ
encode [] = []
encode (p ∷ ps) = encode_point p ++ encode ps

-- The UTF-16 form (RFC 2781, section 2.1).
unfoldable pub units : List ℕ → Text
units [] = []
units (p ∷ ps) =
    (if ltb p 0x10000
      then p ∷ []
      else (0xd800 + (p - 0x10000) / 1024) ∷ (0xdc00 + (p - 0x10000) % 1024) ∷ [])
    ++ units ps

abbrev pub IsPoint : ℕ → Type 0
IsPoint p = p < 0x110000

two_byte : (p : ℕ) → p < 0x800 → two_byte_unit (0xc0 + p / 64) (0x80 + p % 64) ≡ p
two_byte p h =
    rw (bit_and_31 (0xc0 + p / 64), bit_and_63 (0x80 + p % 64))
      (omega (arith, bit_or_disjoint 6 ((0xc0 + p / 64) % 32) ((0x80 + p % 64) % 64) (omega arith)))

join_three :
    (x y z : ℕ)
    → y < 64
    → z < 64
    → bit_or (bit_or (x * 2 ^ 12) (y * 2 ^ 6)) z ≡ x * 4096 + y * 64 + z
join_three x y z hy hz =
    let inner : bit_or (x * 2 ^ 12) (y * 2 ^ 6) ≡ (x * 64 + y) * 2 ^ 6 =
      omega (arith, bit_or_disjoint 12 x (y * 64) (omega arith)) in
    rw inner (omega (arith, bit_or_disjoint 6 (x * 64 + y) z hz))

join_four :
    (w x y z : ℕ)
    → x < 64
    → y < 64
    → z < 64
    → bit_or (bit_or (bit_or (w * 2 ^ 18) (x * 2 ^ 12)) (y * 2 ^ 6)) z
      ≡ w * 262144 + x * 4096 + y * 64 + z
join_four w x y z hx hy hz =
    let inner : bit_or (w * 2 ^ 18) (x * 2 ^ 12) ≡ (w * 64 + x) * 2 ^ 12 =
      omega (arith, bit_or_disjoint 18 w (x * 4096) (omega arith)) in
    rw inner (omega (arith, join_three (w * 64 + x) y z hy hz))

three_byte :
    (p : ℕ)
    → p < 0x10000
    → three_byte_unit (0xe0 + p / 4096) (0x80 + p / 64 % 64) (0x80 + p % 64) ≡ p
three_byte p h =
    rw
      (
        bit_and_15 (0xe0 + p / 4096),
        bit_and_63 (0x80 + p / 64 % 64),
        bit_and_63 (0x80 + p % 64),
        join_three ((0xe0 + p / 4096) % 16) ((0x80 + p / 64 % 64) % 64) ((0x80 + p % 64) % 64)
            (omega arith) (omega arith),
      )
      (omega arith)

four_byte :
    (p : ℕ)
    → IsPoint p
    → four_byte_point
        (0xf0 + p / 262144)
        (0x80 + p / 4096 % 64)
        (0x80 + p / 64 % 64)
        (0x80 + p % 64)
      ≡ p
four_byte p h =
    rw
      (
        bit_and_7 (0xf0 + p / 262144),
        bit_and_63 (0x80 + p / 4096 % 64),
        bit_and_63 (0x80 + p / 64 % 64),
        bit_and_63 (0x80 + p % 64),
        join_four ((0xf0 + p / 262144) % 8) ((0x80 + p / 4096 % 64) % 64)
            ((0x80 + p / 64 % 64) % 64) ((0x80 + p % 64) % 64) (omega arith) (omega arith)
            (omega arith),
      )
      (omega arith)

-- One round takes one encoded point.
decode_from-encode_point :
    (n p : ℕ) (bs : List ℕ)
    → IsPoint p
    → decode_from (suc n) (encode_point p ++ bs)
      ≡ (if ltb p 0x10000
          then p ∷ []
          else (0xd800 + (p - 0x10000) / 1024) ∷ (0xdc00 + (p - 0x10000) % 1024) ∷ [])
        ++ decode_from n bs
unfolding encode_point decode_from
decode_from-encode_point n p bs h = ground (arith, two_byte p, three_byte p, four_byte p h)

-- A round for every point is enough.
decode_from-encode :
    (n : ℕ) (ps : List ℕ) → All IsPoint ps → length ps ≤ n → decode_from n (encode ps) ≡ units ps
unfolding encode units
decode_from-encode zero [] h le = unfold decode_from in refl
decode_from-encode (suc n) [] h le = unfold decode_from in refl
decode_from-encode zero (p ∷ ps) h le = absurd (omega arith)
decode_from-encode (suc n) (p ∷ ps) h le =
    rw (decode_from-encode_point n p (encode ps) h.0, decode_from-encode n ps h.1 (omega arith))

encode_point_nonempty : (p : ℕ) → 1 ≤ length (encode_point p)
unfolding encode_point
encode_point_nonempty p = ground arith

le-length-encode : (ps : List ℕ) → length ps ≤ length (encode ps)
unfolding encode
le-length-encode [] = omega arith
le-length-encode (p ∷ ps) = omega (
  arith,
  le-length-encode ps,
  encode_point_nonempty p,
  length-append {0} (encode_point p) (encode ps),
)

-- Decoding the UTF-8 form of code points (numbers up to 0x10ffff) gives the UTF-16 code units of these
-- points.
pub bytes_to_utf8-encode : (ps : List ℕ) → All IsPoint ps → bytes_to_utf8 (encode ps) ≡ units ps
unfolding bytes_to_utf8
bytes_to_utf8-encode ps h = decode_from-encode (length (encode ps)) ps h (le-length-encode ps)

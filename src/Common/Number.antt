-- ===== src/Common/Number.antt =====
-- JavaScript numbers, as far as the program tells them apart: the integral ones, the infinities and
-- NaN. Fractions are left out; a caller that can receive one is named in the root file's header.
use mathlib.Core.Bool.{Bool, true, false}
use rakomi_js.Common.Int.{ℤ, ltb_ℤ, leb_ℤ}

pub data Number : Type 0 where
  int : ℤ → Number
  pos_inf : Number
  neg_inf : Number
  nan : Number

-- `Number.isFinite`
abbrev pub is_finite : Number → Bool
is_finite (int a) = true
is_finite _ = false

-- `a < b`; false when a side is NaN
abbrev pub num_lt : Number → Number → Bool
num_lt (int a) (int b) = ltb_ℤ a b
num_lt (int a) pos_inf = true
num_lt neg_inf (int b) = true
num_lt neg_inf pos_inf = true
num_lt _ _ = false

-- `a <= b`
abbrev pub num_le : Number → Number → Bool
num_le (int a) (int b) = leb_ℤ a b
num_le (int a) pos_inf = true
num_le neg_inf (int b) = true
num_le neg_inf pos_inf = true
num_le pos_inf pos_inf = true
num_le neg_inf neg_inf = true
num_le _ _ = false

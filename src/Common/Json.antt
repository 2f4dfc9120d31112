-- ===== src/Common/Json.antt =====
-- Values of `JSON.parse` and of decoded token payloads: `unknown` in the source. An object is a list
-- of its own properties; a missing property reads as `undefined`, which is `none` here.
use Prim.Native.String.{String}
use Prim.Native.Nat.{zero}
use text.Mathlib.Text.{◌==◌}
use mathlib.Core.Bool.{Bool, true, false, not}
use mathlib.Core.List.{List, [], ◌∷◌}
use mathlib.Core.Option.{Option, none, some}
use rakomi_js.Common.Tests.{if◌then◌else◌}
use rakomi_js.Common.Int.{pos}
use rakomi_js.Common.Number.{Number, int, nan}
use rakomi_js.Common.Text.{Text, is_empty, text_eq}

mutual
  pub data Json : Type 0 where
    null : Json
    bool : Bool → Json
    num : Number → Json
    str : Text → Json
    arr : Items → Json
    obj : Fields → Json

  pub data Items : Type 0 where
    nil : Items
    cons : Json → Items → Items

  pub data Fields : Type 0 where
    end : Fields
    field : String → Json → Fields → Fields

-- `object[key]`, for the keys that the program reads
unfoldable pub get : String → Fields → Option Json
get key end = none
get key (field k v rest) = if k == key then some v else get key rest

abbrev pub keys : Fields → List String
keys end = []
keys (field k v rest) = k ∷ keys rest

-- `value === undefined || value === null`
abbrev pub is_nullish : Option Json → Bool
is_nullish none = true
is_nullish (some null) = true
is_nullish (some _) = false

-- `value === true`
abbrev pub is_true : Option Json → Bool
is_true (some (bool b)) = b
is_true _ = false

-- `typeof value === 'string' ? value : undefined`
abbrev pub as_text : Option Json → Option Text
as_text (some (str s)) = some s
as_text _ = none

-- `typeof value === 'boolean' ? value : undefined`
abbrev pub as_bool : Option Json → Option Bool
as_bool (some (bool b)) = some b
as_bool _ = none

-- `typeof value === 'number' ? value : undefined`
abbrev pub as_number : Option Json → Option Number
as_number (some (num n)) = some n
as_number _ = none

-- `Array.isArray(value) ? value : undefined`
abbrev pub as_items : Option Json → Option Items
as_items (some (arr vs)) = some vs
as_items _ = none

-- `typeof value === 'object' && value !== null && !Array.isArray(value) ? value : undefined`
abbrev pub as_fields : Option Json → Option Fields
as_fields (some (obj fs)) = some fs
as_fields _ = none

-- The conversion of a condition: `if (value)`.
abbrev pub is_truthy_number : Number → Bool
is_truthy_number (int (pos zero)) = false
is_truthy_number nan = false
is_truthy_number _ = true

abbrev pub is_truthy : Option Json → Bool
is_truthy none = false
is_truthy (some null) = false
is_truthy (some (bool b)) = b
is_truthy (some (num n)) = is_truthy_number n
is_truthy (some (str s)) = not (is_empty s)
is_truthy (some (arr vs)) = true
is_truthy (some (obj fs)) = true

-- `value.filter((v) => typeof v === 'string')`
unfoldable pub texts : Items → List Text
texts nil = []
texts (cons (str s) vs) = s ∷ texts vs
texts (cons _ vs) = texts vs

-- `value === text`
abbrev pub equals_text : Option Json → Text → Bool
equals_text (some (str s)) t = text_eq s t
equals_text _ t = false

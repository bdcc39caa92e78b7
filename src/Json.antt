-- ===== src/Json.antt =====
-- What `json.loads` returns, as the code sees it: a value of a dynamic language, and Python's
-- tests on it. The decoder itself is the standard library's and is not modelled.
use limit_halo.Prelude.{
  ℕ, String, Bool, true, false, ◌&&◌, Option, none, some, List, [], ◌∷◌, str_eq, if◌then◌else◌,
}
use limit_halo.Prelude.Int.{ℤ, leb_ℤ}

-- An IEEE double: a finite one is ± mantissa / 2 ^ scale.
pub data Float : Type 0 where
  nan : Float
  infinity : Bool → Float
  finite : Bool → ℕ → ℕ → Float

mutual
  -- A dictionary in its insertion order.
  pub data Fields : Type 0 where
    empty : Fields
    entry : String → Value → Fields → Fields

  pub data Items : Type 0 where
    no_items : Items
    item : Value → Items → Items

  pub data Value : Type 0 where
    null : Value
    bool : Bool → Value
    int : ℤ → Value
    float : Float → Value
    str : String → Value
    arr : Items → Value
    obj : Fields → Value

unfoldable pub keys : Fields → List String
keys empty = []
keys (entry k v fs) = k ∷ keys fs

-- `value.get(key)`, with `none` for a missing key. A decoded dictionary has each key once.
unfoldable pub get? : String → Fields → Option Value
get? key empty = none
get? key (entry k v fs) = if str_eq k key then some v else get? key fs

abbrev pub or_null : Option Value → Value
or_null none = null
or_null (some v) = v

-- `value.get(key)`, with `None` for a missing key.
abbrev pub get : String → Fields → Value
get key fs = or_null (get? key fs)

abbrev pub is_null : Value → Bool
is_null null = true
is_null _ = false

-- `value == "name"`.
abbrev pub is_str : String → Value → Bool
is_str name (str s) = str_eq s name
is_str name _ = false

-- `isinstance(value, int) and not isinstance(value, bool) and low <= value <= high`.
abbrev pub int_between : ℤ → ℤ → Value → Option ℤ
int_between low high (int n) = if leb_ℤ low n && leb_ℤ n high then some n else none
int_between low high _ = none

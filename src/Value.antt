-- ===== src/Value.antt =====
-- The JSON values that payloads, sensor events and sensor readings are made of, with Python's
-- `isinstance`, truth and `dict.get` on them. A float is its 64-bit IEEE 754 pattern.
pub mod Key
use distributed_sensor_hub.Base.{
  ℕ, zero, suc, ◌^◌, String, Bool, true, false, not, ◌||◌, Option, none, some, ◌==◌, nat_eq,
  string_eq, if◌then◌else◌,
}
use distributed_sensor_hub.Base.Int.{ℤ, pos, negsuc}

mutual
  pub data Value : Type 0 where
    null : Value
    bool : Bool → Value
    int : ℤ → Value
    float : ℕ → Value
    str : String → Value
    obj : Fields → Value
    arr : Items → Value

  pub data Fields : Type 0 where
    end : Fields
    field : String → Value → Fields → Fields

  pub data Items : Type 0 where
    nil : Items
    cons : Value → Items → Items

-- `d.get(key, default)`
unfoldable pub get_or : String → Value → Fields → Value
get_or key default end = default
get_or key default (field k v fs) = if key == k then v else get_or key default fs

-- `d.get(key)`
abbrev pub get : String → Fields → Value
get key = get_or key null

-- `d[key]`; `none` is a `KeyError`.
unfoldable pub index : String → Fields → Option Value
index key end = none
index key (field k v fs) = if key == k then some v else index key fs

-- What `isinstance(x, int)` accepts: Python's `bool` is a subclass of `int`.
pub data PyInt : Type 0 where
  whole : ℤ → PyInt
  flag : Bool → PyInt

abbrev pub int_value : PyInt → ℤ
int_value (whole n) = n
int_value (flag true) = pos 1
int_value (flag false) = pos 0

abbrev pub as_int : Value → Option PyInt
as_int (int n) = some (whole n)
as_int (bool b) = some (flag b)
as_int _ = none

abbrev pub of_int : PyInt → Value
of_int (whole n) = int n
of_int (flag b) = bool b

-- `isinstance(x, str)`
abbrev pub as_str : Value → Option String
as_str (str s) = some s
as_str _ = none

-- `isinstance(x, dict)`
abbrev pub as_dict : Value → Option Fields
as_dict (obj fs) = some fs
as_dict _ = none

-- `bool(x)`: the patterns of 0.0 and -0.0 are 0 and 2^63.
unfoldable pub truthy : Value → Bool
unfolding nat_eq string_eq
truthy null = false
truthy (bool b) = b
truthy (int (pos zero)) = false
truthy (int (pos (suc n))) = true
truthy (int (negsuc n)) = true
truthy (float bits) = not (bits == 0 || bits == 2 ^ 63)
truthy (str s) = not (s == "")
truthy (arr nil) = false
truthy (arr (cons x xs)) = true
truthy (obj end) = false
truthy (obj (field k v fs)) = true

-- `a or b`
abbrev pub or_value : Value → Value → Value
or_value a b = if truthy a then a else b

-- ===== src/Value/Key.antt =====
-- Values as keys of a Python dictionary: which values are equal as keys, and which cannot be keys.
use distributed_sensor_hub.Base.{
  ◌≡◌, ◌≢◌, true, arith, ℕ, ◌+◌, ◌-◌, ◌*◌, ◌/◌, ◌%◌, ◌^◌, String, Bool, false, Option, none, some,
  Eq, ◌==◌, nat_eq, string_eq, ℕ_discrete, if◌then◌else◌, leb,
}
use distributed_sensor_hub.Base.Int.{ℤ, pos, sub_ℕ}
use distributed_sensor_hub.Value.{Value, null, bool, int, float, str, arr, obj, int_value, flag}

-- A number that is whole is the same key as an integer, a `bool` or a float. The other floats go by
-- their pattern; a NaN is taken to be equal to a NaN of its pattern.
pub data Key : Type 0 where
  none_key : Key
  whole : ℤ → Key
  fraction : ℕ → Key
  text : String → Key

signed : ℕ → ℕ → ℤ
signed sign n = if sign == 0 then pos n else sub_ℕ 0 n

-- The number `mantissa * 2 ^ (exponent - 1075)` of the pattern `bits`.
normal_key : ℕ → ℕ → ℕ → ℕ → Key
normal_key bits sign exponent mantissa =
    let shift = 2 ^ (1075 - exponent) in
    if leb 1075 exponent
    then whole (signed sign (mantissa * 2 ^ (exponent - 1075)))
    else if mantissa % shift == 0
    then whole (signed sign (mantissa / shift))
    else fraction bits

-- The integer that a pattern stands for, if it is one: sign, 11 bits of exponent, 52 of mantissa.
unfoldable pub float_key : ℕ → Key
unfolding nat_eq signed normal_key
float_key bits =
    let exponent = bits / 2 ^ 52 % 2 ^ 11 in
    let low = bits % 2 ^ 52 in
    if exponent == 0
    then if low == 0 then whole (pos 0) else fraction bits
    else if exponent == 2047
    then fraction bits
    else normal_key bits (bits / 2 ^ 63) exponent (2 ^ 52 + low)

-- `hash(x)` for `x` as a key; `none` is the `TypeError` of a list or a dict.
unfoldable pub hash : Value → Option Key
unfolding float_key
hash null = some none_key
hash (bool b) = some (whole (int_value (flag b)))
hash (int n) = some (whole n)
hash (float bits) = some (float_key bits)
hash (str s) = some (text s)
hash (arr _) = none
hash (obj _) = none

Key-discrete : Discrete Key
Key-discrete = hlevel (ℕ_discrete, string_eq.dec)

instance unfoldable pub key_eq : Eq Key
unfolding Key-discrete
key_eq = record { dec = Key-discrete }

-- `x == s` for a text `s`
abbrev pub is_text : Value → String → Bool
is_text (str t) s = t == s
is_text _ s = false

if-ne : (b : Bool) {x y k : Key} → x ≢ k → y ≢ k → (if b then x else y) ≢ k
if-ne true h g = h
if-ne false h g = g

whole-ne-text : (n : ℤ) (s : String) → whole n ≢ text s
whole-ne-text n s h = cc

fraction-ne-text : (n : ℕ) (s : String) → fraction n ≢ text s
fraction-ne-text n s h = cc

normal_key-ne-text :
    (bits sign exponent mantissa : ℕ) (s : String) → normal_key bits sign exponent mantissa ≢ text s
unfolding normal_key
normal_key-ne-text bits sign exponent mantissa s =
    if-ne (leb 1075 exponent) (whole-ne-text _ s)
      (if-ne (mantissa % 2 ^ (1075 - exponent) == 0) (whole-ne-text _ s) (fraction-ne-text bits s))

float_key-ne-text : (bits : ℕ) (s : String) → float_key bits ≢ text s
unfolding float_key
float_key-ne-text bits s =
    if-ne (bits / 2 ^ 52 % 2 ^ 11 == 0)
      (if-ne (bits % 2 ^ 52 == 0) (whole-ne-text _ s) (fraction-ne-text bits s))
      (if-ne (bits / 2 ^ 52 % 2 ^ 11 == 2047) (fraction-ne-text bits s) (
        normal_key-ne-text bits (bits / 2 ^ 63) (bits / 2 ^ 52 % 2 ^ 11) (2 ^ 52 + bits % 2 ^ 52)
          s))

-- A value that is no text `s` has another key than `s`.
pub hash-ne-text :
    (v : Value) (s : String) {k : Key} → is_text v s ≡ false → hash v ≡ some k → k ≢ text s
unfolding hash
hash-ne-text (str t) s h e = ground arith
hash-ne-text (float bits) s h e = ground (arith, float_key-ne-text bits s)
hash-ne-text v s h e = ground arith

-- A text `s` is the value with its own key.
pub hash-text : (v : Value) (s : String) → is_text v s ≡ true → hash v ≡ some (text s)
unfolding hash
hash-text (str t) s h = ground arith
hash-text v s h = ground arith

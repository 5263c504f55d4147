-- ===== src/Base/Decimal.antt =====
-- Whole numbers in decimal: how Python prints a number that is not negative (`str(n)`, `f"{n}"`), and how
-- `int(s)` reads an ASCII text; Python's limit of 4300 digits is left out.
use Prim.Native.Nat.{ℕ, zero, suc, ◌+◌, ◌-◌, ◌*◌, ◌/◌, ◌%◌, ◌<◌}
use Prim.Native.Char.{Char, char, code, IsScalar}
use Prim.Native.String.{String, [], ◌∷◌}
use mathlib.Core.Path.{◌≡◌, sym, ap, ◌∙◌}
use mathlib.Core.Logic.{inl, inr}
use mathlib.Core.Bool.{Bool, true, false, ◌&&◌}
use mathlib.Core.Option.{Option, none, some}
use native.Mathlib.Omega.{arith}
use distributed_sensor_hub.Base.Equality.{ltb, leb, ◌==◌, nat_eq, if◌then◌else◌, Bool-cases}

digit-IsScalar : (n : ℕ) → IsScalar (48 + n % 10)
digit-IsScalar n = ground arith

-- The last digit of a number.
unfoldable pub digit : ℕ → Char
unfolding digit-IsScalar
digit n = char (48 + n % 10) (digit-IsScalar n)

show_from : ℕ → ℕ → String → String
show_from zero n rest = rest
show_from (suc fuel) n rest =
    let more = show_from fuel (n / 10) (digit n ∷ rest) in if ltb n 10 then digit n ∷ rest else more

-- `str(n)`; a number has fewer digits than its successor counts.
unfoldable pub show : ℕ → String
unfolding show_from digit
show n = show_from (suc n) n []

abbrev pub is_digit : ℕ → Bool
is_digit c = leb b'0' c && leb c b'9'

-- The digits of `int(s)` behind the number read so far. An underscore may stand between two digits; the
-- flag says that a digit has to come next.
unfoldable pub read : ℕ → Bool → String → Option ℕ
read n wanted [] = if wanted then none else some n
read n wanted (x ∷ s) = elim (is_digit (code x)) [
  | true ↦ read (n * 10 + (code x - b'0')) false s
  | false ↦ elim (wanted) [
    | true ↦ none
    | false ↦ elim (code x == b'_') [ true ↦ read n true s | false ↦ none ]
  ]
]

read-digit :
    (m n : ℕ) (wanted : Bool) (rest : String)
    → read m wanted (digit n ∷ rest) ≡ read (m * 10 + n % 10) false rest
unfolding read digit
read-digit m n wanted rest = ground arith

read-show_from :
    (fuel n : ℕ) (rest : String)
    → n < fuel
    → read 0 true (show_from fuel n rest) ≡ read n false rest
unfolding show_from
read-show_from zero n rest h = absurd (omega arith)
read-show_from (suc fuel) n rest h = elim (Bool-cases (ltb n 10)) [
  | inl small ↦
      let same : 0 * 10 + n % 10 ≡ n = ground arith in
      rw small (read-digit 0 n true rest ∙ ap (λ m. read m false rest) same)
  | inr large ↦
      let same : n / 10 * 10 + n % 10 ≡ n = omega arith in
      rw large (
        read-show_from fuel (n / 10) (digit n ∷ rest) (ground arith)
        ∙ read-digit (n / 10) n false rest
        ∙ ap (λ m. read m false rest) same)
]

-- A printed number is read back.
pub read-show : (n : ℕ) → read 0 true (show n) ≡ some n
unfolding show read
read-show n = read-show_from (suc n) n [] (omega arith)

pub show_inj : (m n : ℕ) → show m ≡ show n → m ≡ n
show_inj m n h =
    let e : some m ≡ some n = sym (read-show m) ∙ ap (read 0 true) h ∙ read-show n in cc

-- Every character of the text has a code that passes the test.
abbrev pub AllCodes : (ℕ → Bool) → String → Type 0
AllCodes p [] = Unit
AllCodes p (x ∷ s) = (p (code x) ≡ true) × AllCodes p s

is_digit-digit : (n : ℕ) → is_digit (code (digit n)) ≡ true
unfolding digit
is_digit-digit n = ground arith

AllCodes-show_from :
    (fuel n : ℕ) (rest : String)
    → AllCodes is_digit rest
    → AllCodes is_digit (show_from fuel n rest)
unfolding show_from
AllCodes-show_from zero n rest h = h
AllCodes-show_from (suc fuel) n rest h = elim (Bool-cases (ltb n 10)) [
  | inl small ↦ rw small (is_digit-digit n, h)
  | inr large ↦ rw large (AllCodes-show_from fuel (n / 10) (digit n ∷ rest) (is_digit-digit n, h))
]

pub AllCodes-show : (n : ℕ) → AllCodes is_digit (show n)
unfolding show
AllCodes-show n = AllCodes-show_from (suc n) n [] tt

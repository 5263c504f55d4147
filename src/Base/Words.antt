-- ===== src/Base/Words.antt =====
-- Methods of Python's `str`, on ASCII texts: `strip`, `split`, `upper`, `lower`, and `int` of a text.
use Prim.Native.Nat.{ℕ, ◌+◌, ◌-◌}
use Prim.Native.Char.{Char, char, code, IsScalar}
use Prim.Native.String.append
use Prim.Native.String.{String, ◌++◌ as ◌<>◌, [], ◌∷◌}
use mathlib.Core.Path.{◌≡◌, refl, sym, ap, ◌∙◌}
use mathlib.Core.Logic.{◌≢◌}
use mathlib.Core.Bool.{Bool, true, false, ◌&&◌, ◌||◌}
use mathlib.Core.Option
use mathlib.Core.Option.{Option, none, some}
use mathlib.Core.List.{List}
use native.Mathlib.Omega.{arith}
use distributed_sensor_hub.Base.Decimal.{is_digit, AllCodes, read, show, read-show, AllCodes-show}
use distributed_sensor_hub.Base.Equality.{leb, ◌==◌, nat_eq, if◌then◌else◌}
use distributed_sensor_hub.Base.Int.{ℤ, pos, sub_ℕ}
use distributed_sensor_hub.Base.Text.{Free}

-- `str.isspace` of one character
abbrev pub is_space : ℕ → Bool
is_space c = leb 9 c && leb c 13 || leb 28 c && leb c 32

-- What `int` skips: the white space of C.
abbrev pub is_blank : ℕ → Bool
is_blank c = leb 9 c && leb c 13 || c == 32

unfoldable pub trim_start : (ℕ → Bool) → String → String
trim_start blank [] = []
trim_start blank (x ∷ s) = elim (blank (code x)) [ true ↦ trim_start blank s | false ↦ x ∷ s ]

-- A character before a text whose end was trimmed.
abbrev before_end : (ℕ → Bool) → Char → String → String
before_end blank x [] = if blank (code x) then [] else x ∷ []
before_end blank x (y ∷ s) = x ∷ (y ∷ s)

unfoldable pub trim_end : (ℕ → Bool) → String → String
trim_end blank [] = []
trim_end blank (x ∷ s) = before_end blank x (trim_end blank s)

abbrev pub trim : (ℕ → Bool) → String → String
trim blank s = trim_end blank (trim_start blank s)

-- `s.strip()`
abbrev pub strip : String → String
strip = trim is_space

abbrev push : Char → List String → List String
push x List.[] = List.[]
push x (List.◌∷◌ p ps) = List.◌∷◌ (x ∷ p) ps

-- `s.split(c)`, for the character of code `c`; never empty
unfoldable pub split : ℕ → String → List String
split c [] = List.◌∷◌ [] List.[]
split c (x ∷ s) = if code x == c then List.◌∷◌ [] (split c s) else push x (split c s)

-- `int(s)` behind the white space; `none` is a `ValueError`.
unfoldable pub read_signed : String → Option ℤ
read_signed [] = none
read_signed (x ∷ s) =
    if code x == b'-'
    then Option.map (sub_ℕ 0) (read 0 true s)
    else Option.map pos (read 0 true (if code x == b'+' then s else x ∷ s))

unfoldable pub int_of_text : String → Option ℤ
unfolding read_signed
int_of_text s = read_signed (trim is_blank s)

abbrev upper_code : ℕ → ℕ
upper_code c = if leb b'a' c && leb c b'z' then c - 32 else c

upper_code-IsScalar : (c : ℕ) → IsScalar c → IsScalar (upper_code c)
upper_code-IsScalar c h = ground arith

upper_char : Char → Char
unfolding upper_code-IsScalar
upper_char (char c h) = char (upper_code c) (upper_code-IsScalar c h)

-- `s.upper()`
unfoldable pub upper : String → String
unfolding upper_char
upper [] = []
upper (x ∷ s) = upper_char x ∷ upper s

abbrev lower_code : ℕ → ℕ
lower_code c = if leb b'A' c && leb c b'Z' then c + 32 else c

lower_code-IsScalar : (c : ℕ) → IsScalar c → IsScalar (lower_code c)
lower_code-IsScalar c h = ground arith

lower_char : Char → Char
unfolding lower_code-IsScalar
lower_char (char c h) = char (lower_code c) (lower_code-IsScalar c h)

-- `s.lower()`
unfoldable pub lower : String → String
unfolding lower_char
lower [] = []
lower (x ∷ s) = lower_char x ∷ lower s

-- A text without such characters is not trimmed.
abbrev pub Lacks : (ℕ → Bool) → String → Type 0
Lacks p [] = Unit
Lacks p (x ∷ s) = (p (code x) ≡ false) × Lacks p s

before_end-Lacks :
    (p : ℕ → Bool) (x : Char) (s : String) → p (code x) ≡ false → before_end p x s ≡ x ∷ s
before_end-Lacks p x [] h = rw h
before_end-Lacks p x (y ∷ s) h = refl

trim_start-Lacks : (p : ℕ → Bool) (s : String) → Lacks p s → trim_start p s ≡ s
unfolding trim_start
trim_start-Lacks p [] h = refl
trim_start-Lacks p (x ∷ s) (h, _) = rw (h, trim_start)

trim_end-Lacks : (p : ℕ → Bool) (s : String) → Lacks p s → trim_end p s ≡ s
unfolding trim_end
trim_end-Lacks p [] h = refl
trim_end-Lacks p (x ∷ s) (h, hs) = rw (trim_end-Lacks p s hs) (before_end-Lacks p x s h)

pub trim-Lacks : (p : ℕ → Bool) (s : String) → Lacks p s → trim p s ≡ s
trim-Lacks p s h = rw (trim_start-Lacks p s h) (trim_end-Lacks p s h)

pub append-Lacks : (p : ℕ → Bool) (a b : String) → Lacks p a → Lacks p b → Lacks p (a <> b)
append-Lacks p [] b f g = rw (append.nil b) g
append-Lacks p (x ∷ a) b (ne, f) g = rw (append.cons x a b) (ne, append-Lacks p a b f g)

-- The text has no part to split at.
pub split-Free : (c : ℕ) (a : String) → Free c a → split c a ≡ List.◌∷◌ a List.[]
unfolding split
split-Free c [] f = refl
split-Free c (x ∷ a) (ne, f) = ground (arith, split-Free c a f)

pub split-append :
    (c : ℕ) (a b : String) (x : Char)
    → Free c a
    → code x ≡ c
    → split c (a <> (x ∷ b)) ≡ List.◌∷◌ a (split c b)
unfolding split
split-append c [] b x _ e = rw (append.nil (x ∷ b)) (ground arith)
split-append c (y ∷ a) b x (ne, f) e =
    rw (append.cons y a (x ∷ b)) (ground (arith, split-append c a b x f e))

-- A test that fails at digits fails in a text of digits.
digits-Lacks :
    (p : ℕ → Bool)
    → ((c : ℕ) → is_digit c ≡ true → p c ≡ false)
    → (s : String) → AllCodes is_digit s
    → Lacks p s
digits-Lacks p apart [] h = tt
digits-Lacks p apart (x ∷ s) (h, hs) = (apart (code x) h, digits-Lacks p apart s hs)

digits-Free : (c : ℕ) (s : String) → is_digit c ≡ false → AllCodes is_digit s → Free c s
digits-Free c [] h hs = tt
digits-Free c (x ∷ s) h (hx, hs) = (λ e. absurd (ground arith), digits-Free c s h hs)

pub show-Lacks :
    (p : ℕ → Bool) (n : ℕ) → ((c : ℕ) → is_digit c ≡ true → p c ≡ false) → Lacks p (show n)
show-Lacks p n apart = digits-Lacks p apart (show n) (AllCodes-show n)

-- A character that is not a digit is not in a printed number.
pub show-Free : (c n : ℕ) → is_digit c ≡ false → Free c (show n)
show-Free c n h = digits-Free c (show n) h (AllCodes-show n)

pub show-ne : (n : ℕ) → show n ≢ ""
unfolding read
show-ne n h =
    let e : ◌≡◌ {A = Option ℕ} (some n) none = sym (read-show n) ∙ ap (read 0 true) h in absurd (cc)

digit-ne-blank : (c : ℕ) → is_digit c ≡ true → is_blank c ≡ false
digit-ne-blank c h = ground arith

read_signed-digits :
    (s : String) → AllCodes is_digit s → read_signed s ≡ Option.map pos (read 0 true s)
unfolding read_signed read
read_signed-digits [] h = refl
read_signed-digits (x ∷ s) (h, hs) = ground arith

-- `int(str(n))` is `n`.
pub int_of_text-show : (n : ℕ) → int_of_text (show n) ≡ some (pos n)
unfolding int_of_text
int_of_text-show n =
    rw (trim-Lacks is_blank (show n) (show-Lacks is_blank n digit-ne-blank))
      (read_signed-digits (show n) (AllCodes-show n) ∙ ap (Option.map pos) (read-show n))

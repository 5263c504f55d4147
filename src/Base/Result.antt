-- ===== src/Base/Result.antt =====
-- Python's exceptions as values.
use mathlib.Core.Bool.{Bool, true, false}
use mathlib.Core.Path.{◌≡◌, refl, subst}
use distributed_sensor_hub.Base.Equality.{if◌then◌else◌}
use mathlib.Core.Logic.{◌⊎◌, inl, inr}

pub data Exception : Type 0 where
  value_error type_error key_error attribute_error : Exception
  runtime_error protocol_error not_implemented_error index_error recursion_error : Exception

pub data Result {ℓ} (A : Type ℓ) : Type ℓ where
  ok : A → Result A
  raise : Exception → Result A

infixl 5 ◌>>=◌
abbrev pub ◌>>=◌ {ℓ κ} : {A : Type ℓ} {B : Type κ} → Result A → (A → Result B) → Result B
ok a >>= f = f a
raise e >>= f = raise e

pub Result-cases :
    {A : Type 0} (r : Result A) → ((e : Exception) × (r ≡ raise e)) ⊎ ((a : A) × (r ≡ ok a))
Result-cases (raise e) = inl (e, refl)
Result-cases (ok a) = inr (a, refl)

pub ok_inj {ℓ} : {A : Type ℓ} {a b : A} → ok a ≡ ok b → a ≡ b
ok_inj h = cc

-- Where the code returns, the result has the property.
abbrev pub Returns : {A : Type 0} → (A → Type 0) → Result A → Type 0
Returns {A} P m = (a : A) → m ≡ ok a → P a

-- Where the code raises, the exception has the property.
abbrev pub Raises : {A : Type 0} → (Exception → Type 0) → Result A → Type 0
Raises E m = (e : Exception) → m ≡ raise e → E e

module _ {A B : Type 0} where
  -- What a chain that returns has computed on the way.
  pub >>=-eq_ok :
      {b : B} (m : Result A) (next : A → Result B)
      → m >>= next ≡ ok b
      → (a : A) × (m ≡ ok a) × (next a ≡ ok b)
  >>=-eq_ok (raise e) next h = cc
  >>=-eq_ok (ok a) next h = (a, refl, h)

  -- A chain raises what its first or its second part raises.
  pub >>=-eq_raise :
      {e : Exception} (m : Result A) (next : A → Result B)
      → m >>= next ≡ raise e
      → (m ≡ raise e) ⊎ ((a : A) × (m ≡ ok a) × (next a ≡ raise e))
  >>=-eq_raise (raise x) next h = inl (cc)
  >>=-eq_raise (ok a) next h = inr (a, refl, h)

  pub >>=-Returns :
      (P : B → Type 0) (m : Result A) (f : A → Result B)
      → ((a : A) → m ≡ ok a → Returns P (f a))
      → Returns P (m >>= f)
  >>=-Returns P m f next b h = let (a, first, second) = >>=-eq_ok m f h in next a first b second

  pub >>=-Raises :
      (E : Exception → Type 0) (m : Result A) (f : A → Result B)
      → Raises E m
      → ((a : A) → Raises E (f a))
      → Raises E (m >>= f)
  >>=-Raises E m f first second e h = elim (>>=-eq_raise m f h) [
    | inl r ↦ first e r
    | inr (a, _, r) ↦ second a e r
  ]

module _ {A : Type 0} where
  pub ok-Returns : (P : A → Type 0) (a : A) → P a → Returns P (ok a)
  ok-Returns P a p b h = subst P (ok_inj h) p

  pub raise-Returns : (P : A → Type 0) (e : Exception) → Returns {A = A} P (raise e)
  raise-Returns P e b h = absurd (cc)

  pub ok-Raises : (E : Exception → Type 0) (a : A) → Raises E (ok a)
  ok-Raises E a e h = absurd (cc)

  pub raise-Raises : (E : Exception → Type 0) (e : Exception) → E e → Raises {A = A} E (raise e)
  raise-Raises E e p e' h = let same : e ≡ e' = cc in subst E same p

  pub if-Returns :
      (P : A → Type 0) (b : Bool) (m n : Result A)
      → Returns P m
      → Returns P n
      → Returns P (if b then m else n)
  if-Returns P true m n p q = p
  if-Returns P false m n p q = q

  pub if-Raises :
      (E : Exception → Type 0) (b : Bool) (m n : Result A)
      → Raises E m
      → Raises E n
      → Raises E (if b then m else n)
  if-Raises E true m n p q = p
  if-Raises E false m n p q = q

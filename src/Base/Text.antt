-- ===== src/Base/Text.antt =====
-- Texts: the order of their code points, which is how Python compares strings.
use Prim.Native.Nat.{ℕ, Ordering, compare as compare_ℕ}
use Prim.Native.Char.{Char, code}
use Prim.Native.String.compare
use Prim.Native.String.append
use Prim.Native.String.{String, ◌++◌ as ◌<>◌, [], ◌∷◌, then, compare as compare_text}
use mathlib.Core.Path.{◌≡◌, refl, sym, ◌∙◌, subst}
use mathlib.Core.Logic.{◌≢◌}
use mathlib.Core.Option.{Option, none, some}
use native.Mathlib.Decide.{ℕ_discrete}
use native.Mathlib.Omega.{arith}
use distributed_sensor_hub.Base.Int.{swap}

then-swap : (o p : Ordering) → then (swap o) (swap p) ≡ swap (then o p)
then-swap Ordering.lt p = refl
then-swap Ordering.eq p = refl
then-swap Ordering.gt p = refl

swap-compare_ℕ : (a b : ℕ) → compare_ℕ b a ≡ swap (compare_ℕ a b)
swap-compare_ℕ a b = ground arith

pub swap-compare : (s t : String) → compare_text t s ≡ swap (compare_text s t)
swap-compare [] [] = refl
swap-compare [] (d ∷ t) = rw (compare.cons-nil d t, compare.nil-cons d t)
swap-compare (c ∷ s) [] = rw (compare.cons-nil c s, compare.nil-cons c s)
swap-compare (c ∷ s) (d ∷ t) =
    rw
      (
        compare.cons-cons d c t s,
        compare.cons-cons c d s t,
        swap-compare s t,
        swap-compare_ℕ (code c) (code d),
      )
      (then-swap _ _)

not-compare-nil : (s : String) → compare_text s [] ≢ Ordering.lt
not-compare-nil [] h = cc
not-compare-nil (c ∷ s) h = cc (sym (compare.cons-nil c s) ∙ h)

then_trans :
    (a b c : ℕ) (p q r : Ordering)
    → (p ≡ Ordering.lt → q ≡ Ordering.lt → r ≡ Ordering.lt)
    → then (compare_ℕ a b) p ≡ Ordering.lt
    → then (compare_ℕ b c) q ≡ Ordering.lt
    → then (compare_ℕ a c) r ≡ Ordering.lt
then_trans a b c p q r f h k = ground arith

pub compare_trans :
    (s t u : String)
    → compare_text s t ≡ Ordering.lt
    → compare_text t u ≡ Ordering.lt
    → compare_text s u ≡ Ordering.lt
compare_trans s t [] h k = absurd (not-compare-nil t k)
compare_trans s [] (e ∷ u) h k = absurd (not-compare-nil s h)
compare_trans [] (d ∷ t) (e ∷ u) h k = compare.nil-cons e u
compare_trans (c ∷ s) (d ∷ t) (e ∷ u) h k = rw (compare.cons-cons c e s u) (
    then_trans (code c) (code d) (code e) _ _ _ (compare_trans s t u)
      (sym (compare.cons-cons c d s t) ∙ h) (sym (compare.cons-cons d e t u) ∙ k))

-- A text that is greater than a second, which is greater than a third, is greater than the third.
pub compare_trans_gt :
    (s t u : String)
    → compare_text s t ≡ Ordering.gt
    → compare_text t u ≡ Ordering.gt
    → compare_text s u ≡ Ordering.gt
compare_trans_gt s t u h k =
    ground (arith, compare_trans u t s, swap-compare s t, swap-compare t u, swap-compare u s)

-- `s.split(c, 1)` at the first character of code `c`; `none` where there is none.
unfoldable pub split_first : ℕ → String → Option (String × String)
split_first c [] = none
split_first c (x ∷ s) = elim (ℕ_discrete (code x) c) [
  | yes _ ↦ some ("", s)
  | no _ ↦ elim (split_first c s) [ none ↦ none | some (a, b) ↦ some (x ∷ a, b) ]
]

-- No character of the text has the code `c`.
abbrev pub Free : ℕ → String → Type 0
Free c [] = Unit
Free c (x ∷ s) = (code x ≢ c) × Free c s

pub append-Free : (c : ℕ) (a b : String) → Free c a → Free c b → Free c (a <> b)
append-Free c [] b f g = rw (append.nil b) g
append-Free c (x ∷ a) b (ne, f) g = rw (append.cons x a b) (ne, append-Free c a b f g)

pub append-eq_nil : (a b : String) → a <> b ≡ "" → b ≡ ""
append-eq_nil [] b h = sym (append.nil b) ∙ h
append-eq_nil (x ∷ a) b h = absurd (cc (append.cons x a b, h))

pub split_first-append :
    (c : ℕ) (a b : String) (x : Char)
    → Free c a
    → code x ≡ c
    → split_first c (a <> (x ∷ b)) ≡ some (a, b)
unfolding split_first
split_first-append c [] b x _ e = rw (append.nil (x ∷ b)) (ground arith)
split_first-append c (y ∷ a) b x (ne, f) e =
    rw (append.cons y a (x ∷ b)) (ground (arith, split_first-append c a b x f e))

abbrev colon : Char
colon = ":"

-- A text is cut at its first colon.
pub split_colon : (a b : String) → Free b':' a → split_first b':' (a <> (":" <> b)) ≡ some (a, b)
split_colon a b f =
    rw (append.cons colon "" b, append.nil b) (split_first-append b':' a b colon f refl)

not-Free-append : (c : ℕ) (a s : String) (x : Char) → code x ≡ c → Free c (a <> (x ∷ s)) → ⊥
not-Free-append c [] s x e f = (subst (Free c) (append.nil (x ∷ s)) f).0 e
not-Free-append c (y ∷ a) s x e f =
    not-Free-append c a s x e (subst (Free c) (append.cons y a (x ∷ s)) f).1

-- What follows the last character of code `c` is determined by the text.
pub append-Free_inj :
    (c : ℕ) (a b s t : String) (x : Char)
    → code x ≡ c
    → Free c s
    → Free c t
    → a <> (x ∷ s) ≡ b <> (x ∷ t)
    → s ≡ t
append-Free_inj c [] [] s t x e f g h =
    let k : x ∷ s ≡ x ∷ t = sym (append.nil (x ∷ s)) ∙ h ∙ append.nil (x ∷ t) in cc
append-Free_inj c [] (y ∷ b) s t x e f g h =
    let k : x ∷ s ≡ y ∷ (b <> (x ∷ t)) = sym (append.nil (x ∷ s)) ∙ h ∙ append.cons y b (x ∷ t) in
    let same : s ≡ b <> (x ∷ t) = cc in absurd (not-Free-append c b t x e (subst (Free c) same f))
append-Free_inj c (y ∷ a) [] s t x e f g h =
    let k : y ∷ (a <> (x ∷ s)) ≡ x ∷ t = sym (append.cons y a (x ∷ s)) ∙ h ∙ append.nil (x ∷ t) in
    let same : t ≡ a <> (x ∷ s) = cc in absurd (not-Free-append c a s x e (subst (Free c) same g))
append-Free_inj c (y ∷ a) (z ∷ b) s t x e f g h =
    let k : y ∷ (a <> (x ∷ s)) ≡ z ∷ (b <> (x ∷ t)) =
      sym (append.cons y a (x ∷ s)) ∙ h ∙ append.cons z b (x ∷ t) in
    append-Free_inj c a b s t x e f g (cc)

-- The same for a separator that is one character.
pub split_last :
    (c : ℕ) (x : Char) (e : code x ≡ c) (a b s t : String)
    → Free c s
    → Free c t
    → a <> ((x ∷ []) <> s) ≡ b <> ((x ∷ []) <> t)
    → s ≡ t
split_last c x e a b s t f g h =
    let one : (u : String) → (x ∷ []) <> u ≡ x ∷ u =
      λ u. rw (append.cons x "" u, append.nil u) refl in
    append-Free_inj c a b s t x e f g (rw (one s, one t) at h)

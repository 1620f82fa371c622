-- ===== src/Base/Lists.antt =====
-- Lists measured by native numbers, filtered by Boolean tests, and predicates by recursion.
use Prim.Native.Nat.{ℕ, zero, suc, ◌+◌}
use mathlib.Core.Path.{◌≡◌, refl, sym, ap, subst, fun_ext}
use mathlib.Core.Bool.{Bool, true, false, ◌&&◌}
use mathlib.Core.Option.{Option, none, some, some-injective}
use mathlib.Core.Logic.{◌⊎◌, inl, inr}
use mathlib.Core.List.{List, [], ◌∷◌, ◌++◌}
use native.Mathlib.Omega.{arith}
use backbeat.Base.Tests.{if◌then◌else◌}

module _ {ℓ} {A : Type ℓ} where
  abbrev pub length : List A → ℕ
  length [] = 0
  length (x ∷ xs) = suc (length xs)

  abbrev pub get_elem? : List A → ℕ → Option A
  get_elem? [] i = none
  get_elem? (x ∷ xs) zero = some x
  get_elem? (x ∷ xs) (suc i) = get_elem? xs i

  -- `Array.prototype.filter`
  unfoldable pub filter_by : (A → Bool) → List A → List A
  filter_by p [] = []
  filter_by p (x ∷ xs) = let rest = filter_by p xs in if p x then x ∷ rest else rest

  abbrev pub All {κ} : (A → Type κ) → List A → Type κ
  All P [] = Unit
  All P (x ∷ xs) = P x × All P xs

  pub length-append : (xs ys : List A) → length (xs ++ ys) ≡ length xs + length ys
  length-append [] ys = omega arith
  length-append (x ∷ xs) ys = omega (arith, length-append xs ys)

  pub All-append {κ} : (P : A → Type κ) (xs ys : List A) → All P xs → All P ys → All P (xs ++ ys)
  All-append P [] ys h k = k
  All-append P (x ∷ xs) ys h k = (h.0, All-append P xs ys h.1 k)

  pub All-map {κ μ} :
      (P : A → Type κ) (Q : A → Type μ) (xs : List A) → ((x : A) → P x → Q x) → All P xs → All Q xs
  All-map P Q [] f h = tt
  All-map P Q (x ∷ xs) f h = (f x h.0, All-map P Q xs f h.1)

  pub All-if {κ} :
      (P : A → Type κ) (b : Bool) (xs ys : List A)
      → All P xs
      → All P ys
      → All P (if b then xs else ys)
  All-if P true xs ys h k = h
  All-if P false xs ys h k = k

  pub All-filter_by {κ} :
      (P : A → Type κ) (p : A → Bool) (xs : List A) → All P xs → All P (filter_by p xs)
  unfolding filter_by
  All-filter_by P p [] h = tt
  All-filter_by P p (x ∷ xs) h =
      let ih = All-filter_by P p xs h.1 in All-if P (p x) (x ∷ filter_by p xs) _ (h.0, ih) ih

  pub filter_by-filter_by :
      (p q : A → Bool) (xs : List A) → filter_by p (filter_by q xs) ≡ filter_by (λ x. q x && p x) xs
  unfolding filter_by
  filter_by-filter_by p q [] = refl
  filter_by-filter_by p q (x ∷ xs) = ground (arith, filter_by-filter_by p q xs)

  -- Two tests that agree keep the same elements.
  pub filter_by-ext :
      (p q : A → Bool) (xs : List A) → ((x : A) → p x ≡ q x) → filter_by p xs ≡ filter_by q xs
  filter_by-ext p q xs h = rw (fun_ext h)

  pub filter_by-true : (xs : List A) → filter_by (λ _. true) xs ≡ xs
  unfolding filter_by
  filter_by-true [] = refl
  filter_by-true (x ∷ xs) = ap (x ∷◌) (filter_by-true xs)

  -- Some element satisfies `P`.
  abbrev pub AnyOf : (A → Type 0) → List A → Type 0
  AnyOf P [] = ⊥
  AnyOf P (x ∷ xs) = P x ⊎ AnyOf P xs

  pub All-of_get {κ} :
      (P : A → Type κ) (xs : List A) → ((i : ℕ) (x : A) → get_elem? xs i ≡ some x → P x) → All P xs
  All-of_get P [] h = tt
  All-of_get P (x ∷ xs) h = (h 0 x refl, All-of_get P xs (λ i y e. h (suc i) y e))

  pub All-get {κ} :
      (P : A → Type κ) (xs : List A) (i : ℕ) (x : A) → All P xs → get_elem? xs i ≡ some x → P x
  All-get P [] i x h e = absurd (ground arith)
  All-get P (y ∷ xs) zero x h e = subst P (some-injective _ _ e) h.0
  All-get P (y ∷ xs) (suc i) x h e = All-get P xs i x h.1 e

-- `x` is in the list.
abbrev pub IsIn : {A : Type 0} → A → List A → Type 0
IsIn x = AnyOf (λ y. x ≡ y)

pub All-IsIn {κ} : {A : Type 0} (P : A → Type κ) (xs : List A) {x : A} → All P xs → IsIn x xs → P x
All-IsIn P [] h i = absurd i
All-IsIn P (y ∷ xs) h (inl e) = subst P (sym e) h.0
All-IsIn P (y ∷ xs) h (inr i) = All-IsIn P xs h.1 i

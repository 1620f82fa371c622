-- ===== src/Base/Permutation.antt =====
-- Lists with the same elements in another order, with the steps that lead from one to the other.
use Prim.Native.Nat.{suc}
use mathlib.Core.Path.{◌≡◌, ◌∙◌, refl, ap}
use mathlib.Core.List.{List, [], ◌∷◌, ◌++◌}
use backbeat.Base.Lists.{length, All}

pub data Permutation {ℓ} {A : Type ℓ} : List A → List A → Type ℓ where
  done : Permutation [] []
  skip : (x : A) → {xs ys : List A} → Permutation xs ys → Permutation (x ∷ xs) (x ∷ ys)
  flip : (x y : A) (xs : List A) → Permutation (x ∷ y ∷ xs) (y ∷ x ∷ xs)
  chain : {xs ys zs : List A} → Permutation xs ys → Permutation ys zs → Permutation xs zs

module _ {ℓ} {A : Type ℓ} where
  pub same : (xs : List A) → Permutation xs xs
  same [] = done
  same (x ∷ xs) = skip x (same xs)

  pub back : {xs ys : List A} → Permutation xs ys → Permutation ys xs
  back done = done
  back (skip x p) = skip x (back p)
  back (flip x y xs) = flip y x xs
  back (chain p q) = chain (back q) (back p)

  pub All-Permutation {κ} :
      (P : A → Type κ) → {xs ys : List A} → Permutation xs ys → All P xs → All P ys
  All-Permutation P done h = tt
  All-Permutation P (skip x p) h = (h.0, All-Permutation P p h.1)
  All-Permutation P (flip x y xs) h = (h.1.0, (h.0, h.1.1))
  All-Permutation P (chain p q) h = All-Permutation P q (All-Permutation P p h)

  pub length-Permutation : {xs ys : List A} → Permutation xs ys → length xs ≡ length ys
  length-Permutation done = refl
  length-Permutation (skip x p) = ap suc (length-Permutation p)
  length-Permutation (flip x y xs) = refl
  length-Permutation (chain p q) = length-Permutation p ∙ length-Permutation q

  pub append_left :
      (xs : List A) → {ys zs : List A} → Permutation ys zs → Permutation (xs ++ ys) (xs ++ zs)
  append_left [] p = p
  append_left (x ∷ xs) p = skip x (append_left xs p)

  pub to_front : (xs : List A) (x : A) (ys : List A) → Permutation (xs ++ x ∷ ys) (x ∷ (xs ++ ys))
  to_front [] x ys = same (x ∷ ys)
  to_front (y ∷ xs) x ys = chain (skip y (to_front xs x ys)) (flip y x (xs ++ ys))

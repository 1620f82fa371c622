-- ===== src/Base/Assoc.antt =====
-- Objects used as maps, as association lists over keys with an `Eq` instance. The laws are stated
-- with the key test, so that they have no side condition.
use mathlib.Core.Path.{◌≡◌, refl}
use mathlib.Core.Option.{Option, none, some}
use mathlib.Core.List.{List, [], ◌∷◌}
use native.Mathlib.Omega.{arith}
use backbeat.Base.Tests.{if◌then◌else◌}
use backbeat.Base.Equality.{Eq, ◌==◌, beq_self}

abbrev pub Assoc {ℓ} : Type ℓ → Type ℓ → Type ℓ
Assoc K V = List (K × V)

module _ {ℓ} {K V : Type ℓ} ⦃e : Eq K⦄ where
  unfoldable pub get : Assoc K V → K → Option V
  get [] k = none
  get ((j, v) ∷ m) k = if j == k then some v else get m k

  unfoldable pub put : Assoc K V → K → V → Assoc K V
  put [] k v = (k, v) ∷ []
  put ((j, w) ∷ m) k v = let rest = put m k v in if j == k then (k, v) ∷ m else (j, w) ∷ rest

  -- `delete m[k]`
  unfoldable pub remove : Assoc K V → K → Assoc K V
  remove [] k = []
  remove ((j, w) ∷ m) k = let rest = remove m k in if j == k then rest else (j, w) ∷ rest

  pub get-put :
      (m : Assoc K V) (k j : K) (v : V) → get (put m k v) j ≡ (if k == j then some v else get m j)
  unfolding get put
  get-put [] k j v = refl
  get-put ((i, w) ∷ m) k j v =
      ground (arith, e.beq_iff k j, e.beq_iff i k, e.beq_iff i j, get-put m k j v)

  pub get-remove :
      (m : Assoc K V) (k j : K) → get (remove m k) j ≡ (if k == j then none else get m j)
  unfolding get remove
  get-remove [] k j = ground arith
  get-remove ((i, w) ∷ m) k j =
      ground (arith, e.beq_iff k j, e.beq_iff i k, e.beq_iff i j, get-remove m k j)

  pub get-put_self : (m : Assoc K V) (k : K) (v : V) → get (put m k v) k ≡ some v
  get-put_self m k v = simp (get-put, beq_self)

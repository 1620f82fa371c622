-- ===== src/Base/Equality.antt =====
-- Decidable equality as an instance, so that one `==` serves numbers, texts and enumerations.
use Prim.Native.Nat.{ℕ}
use Prim.Native.String.{String}
use mathlib.Core.Path.{◌≡◌, refl}
use mathlib.Core.Logic.{◌↔◌, ◌≢◌}
use mathlib.Core.Bool.{Bool, true, false, ◌||◌}
use mathlib.Core.List.{List, [], ◌∷◌}
use mathlib.Core.Option.{Option, none, some}
use native.Mathlib.Omega.{arith}
use text.Mathlib.Text.{◌==◌ as str_eq}
use text.Mathlib.TextEquality.{eq_iff}
use backbeat.Base.Tests.{nat_beq}

pub record Eq {ℓ} (A : Type ℓ) : Type ℓ where
  pub beq : A → A → Bool
  pub beq_iff : (a b : A) → (beq a b ≡ true) ↔ (a ≡ b)

pub nat_beq_iff : (a b : ℕ) → (nat_beq a b ≡ true) ↔ (a ≡ b)
nat_beq_iff a b = ground arith

instance abbrev pub nat_eq : Eq ℕ
nat_eq = record { beq = nat_beq; beq_iff = nat_beq_iff }

infix 50 ◌==◌
abbrev pub ◌==◌ {ℓ} : {A : Type ℓ} ⦃e : Eq A⦄ → A → A → Bool
◌==◌ ⦃e⦄ = e.beq

module _ {ℓ} {A : Type ℓ} ⦃e : Eq A⦄ where
  pub beq_self : (a : A) → (a == a) ≡ true
  beq_self a = (e.beq_iff a a).1 refl

  pub beq_ne : (a b : A) → a ≢ b → (a == b) ≡ false
  beq_ne a b ne = ground (arith, e.beq_iff a b)

  unfoldable pub contains : List A → A → Bool
  contains [] a = false
  contains (x ∷ xs) a = a == x || contains xs a

instance abbrev pub string_eq : Eq String
string_eq = record { beq = str_eq; beq_iff = eq_iff }

-- Two values that may be missing.
abbrev pub opt_beq {ℓ} : {A : Type ℓ} ⦃e : Eq A⦄ → Option A → Option A → Bool
opt_beq none none = true
opt_beq (some a) (some b) = a == b
opt_beq _ _ = false

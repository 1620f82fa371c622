-- ===== src/Base/TextOrder.antt =====
-- The order of texts by `<`, by code points. JavaScript compares code units, which comes to the same for
-- texts without characters beyond U+FFFF.
use Prim.Native.String.{String}
use Prim.Native.Char.{code}
use mathlib.Core.Path.{◌≡◌, refl, ap₂}
use mathlib.Core.Logic.{◌⊎◌, inl, inr}
use mathlib.Core.Bool.{Bool, true, false}
use native.Mathlib.Omega.{arith}
use text.Mathlib.TextEquality.{Char-path}
use backbeat.Base.Tests.{ltb, if◌then◌else◌, Bool-cases}

unfoldable pub text_lt : String → String → Bool
text_lt s String.[] = false
text_lt String.[] (String.◌∷◌ d t) = true
text_lt (String.◌∷◌ c s) (String.◌∷◌ d t) =
    let rest = text_lt s t in
    if ltb (code c) (code d) then true else if ltb (code d) (code c) then false else rest

pub text_lt-total : (s t : String) → text_lt s t ≡ false → (s ≡ t) ⊎ (text_lt t s ≡ true)
unfolding text_lt
text_lt-total String.[] String.[] h = inl refl
text_lt-total (String.◌∷◌ c s) String.[] h = inr refl
text_lt-total String.[] (String.◌∷◌ d t) h = absurd (ground (arith, h))
text_lt-total (String.◌∷◌ c s) (String.◌∷◌ d t) h = elim (Bool-cases (ltb (code d) (code c))) [
  | inl more ↦ inr (ground (arith, more))
  | inr no_more ↦
      let same : code c ≡ code d = ground (arith, h, no_more) in
      elim (text_lt-total s t (ground (arith, h, no_more, same))) [
        | inl e ↦ inl (ap₂ String.◌∷◌ (Char-path c d same) e)
        | inr less ↦ inr (ground (arith, same, less))
      ]
]

pub text_lt_trans : (s t u : String) → text_lt s t ≡ true → text_lt t u ≡ true → text_lt s u ≡ true
unfolding text_lt
text_lt_trans s t String.[] h k = absurd (ground (arith, k))
text_lt_trans s String.[] (String.◌∷◌ e u) h k = absurd (ground (arith, h))
text_lt_trans String.[] (String.◌∷◌ d t) (String.◌∷◌ e u) h k = refl
text_lt_trans (String.◌∷◌ c s) (String.◌∷◌ d t) (String.◌∷◌ e u) h k =
    ground (arith, text_lt_trans s t u)

pub text_lt_irrefl : (s : String) → text_lt s s ≡ false
unfolding text_lt
text_lt_irrefl String.[] = refl
text_lt_irrefl (String.◌∷◌ c s) = ground (arith, text_lt_irrefl s)

-- ===== src/Prelude/Order.antt =====
-- The order of texts: a strict total order.

use mathlib.Core.Bool.{true, false}
use mathlib.Core.List.{[], ◌∷◌}
use mathlib.Core.Logic.{◌⊎◌, inl, inr}
use mathlib.Core.Path.{◌≡◌, refl}
use native.Mathlib.Omega.{arith}
use stateform.Prelude.Text.{Str, str_ltb}

pub str_ltb_irrefl : (s : Str) → str_ltb s s ≡ false
unfolding str_ltb
str_ltb_irrefl [] = refl
str_ltb_irrefl (x ∷ s) = ground (arith, str_ltb_irrefl s)

pub str_ltb_trans : (s t u : Str) → str_ltb s t ≡ true → str_ltb t u ≡ true → str_ltb s u ≡ true
unfolding str_ltb
str_ltb_trans [] [] u h k = absurd (cc)
str_ltb_trans [] (y ∷ t) [] h k = absurd (cc)
str_ltb_trans [] (y ∷ t) (z ∷ u) h k = refl
str_ltb_trans (x ∷ s) [] u h k = absurd (cc)
str_ltb_trans (x ∷ s) (y ∷ t) [] h k = absurd (cc)
str_ltb_trans (x ∷ s) (y ∷ t) (z ∷ u) h k = ground (arith, str_ltb_trans s t u)

pub str_ltb_total : (s t : Str) → str_ltb s t ≡ false → (s ≡ t) ⊎ (str_ltb t s ≡ true)
unfolding str_ltb
str_ltb_total [] [] h = inl refl
str_ltb_total [] (y ∷ t) h = absurd (cc)
str_ltb_total (x ∷ s) [] h = inr refl
str_ltb_total (x ∷ s) (y ∷ t) h = ground (arith, str_ltb_total s t)

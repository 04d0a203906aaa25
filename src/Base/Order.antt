-- ===== src/Base/Order.antt =====
-- The order of strings by their bytes is strict, and its complement is transitive.
use mathlib.Core.Path.{◌≡◌, refl}
use mathlib.Core.Bool.{true, false}
use mathlib.Core.List.{[], ◌∷◌}
use native.Mathlib.Omega.{arith}
use iolink.Base.Lists.{Text}
use iolink.Base.Strings.{text_ltb}

pub text_ltb_asymm : (s t : Text) → text_ltb s t ≡ true → text_ltb t s ≡ false
unfolding text_ltb
text_ltb_asymm [] [] h = cc
text_ltb_asymm [] (b ∷ t) h = refl
text_ltb_asymm (a ∷ s) [] h = cc
text_ltb_asymm (a ∷ s) (b ∷ t) h = ground (arith, text_ltb_asymm s t)

pub text_ltb_trans :
    (s t u : Text) → text_ltb u t ≡ false → text_ltb t s ≡ false → text_ltb u s ≡ false
unfolding text_ltb
text_ltb_trans [] [] [] p q = refl
text_ltb_trans [] [] (c ∷ u) p q = refl
text_ltb_trans [] (b ∷ t) [] p q = cc
text_ltb_trans [] (b ∷ t) (c ∷ u) p q = refl
text_ltb_trans (a ∷ s) [] u p q = cc
text_ltb_trans (a ∷ s) (b ∷ t) [] p q = cc
text_ltb_trans (a ∷ s) (b ∷ t) (c ∷ u) p q = ground (arith, text_ltb_trans s t u)

-- ===== src/Prelude/Order.antt =====
-- The order of strings by code units is a strict linear order.
use mathlib.Core.Path.{◌≡◌}
use mathlib.Core.Logic.{◌≢◌}
use mathlib.Core.Bool.{true, false}
use mathlib.Core.List.{[], ◌∷◌}
use native.Mathlib.Omega.{arith}
use mgds.Prelude.Strings.{Text, text_lt}

pub text_lt_asymm : (s t : Text) → text_lt s t ≡ true → text_lt t s ≡ false
text_lt_asymm [] [] h = cc
text_lt_asymm [] (b ∷ t) h = cc
text_lt_asymm (a ∷ s) [] h = cc
text_lt_asymm (a ∷ s) (b ∷ t) h = ground (arith, text_lt_asymm s t)

pub text_lt_total : (s t : Text) → s ≢ t → text_lt s t ≡ false → text_lt t s ≡ true
text_lt_total [] [] ne h = ground arith
text_lt_total [] (b ∷ t) ne h = cc
text_lt_total (a ∷ s) [] ne h = cc
text_lt_total (a ∷ s) (b ∷ t) ne h = ground (arith, text_lt_total s t)

pub text_le_lt_trans :
    (s t u : Text) → text_lt t s ≡ false → text_lt t u ≡ true → text_lt s u ≡ true
text_le_lt_trans [] [] [] p q = cc
text_le_lt_trans [] [] (c ∷ u) p q = cc
text_le_lt_trans [] (b ∷ t) [] p q = cc
text_le_lt_trans [] (b ∷ t) (c ∷ u) p q = cc
text_le_lt_trans (a ∷ s) [] u p q = cc
text_le_lt_trans (a ∷ s) (b ∷ t) [] p q = cc
text_le_lt_trans (a ∷ s) (b ∷ t) (c ∷ u) p q = ground (arith, text_le_lt_trans s t u)

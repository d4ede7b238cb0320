-- ===== src/Domain/Float/Tests.antt =====
-- Halves, the first integers that a float64 does not hold, and the comparison.
use shingan.Prelude.{◌≡◌, refl, true, false}
use shingan.Prelude.Int.{pos, negsuc}
use shingan.Domain.Float.{div_even, of_ℤ, exceeds, rounded}

div_even-half : div_even 5 2 ≡ 2
unfolding div_even
div_even-half = refl

of_ℤ-odd : rounded (of_ℤ (pos 9007199254740993)) ≡ pos 9007199254740992
unfolding rounded of_ℤ
of_ℤ-odd = refl

exceeds-half : exceeds (record { negative = false; mantissa = 7; exponent = negsuc 0 }) 3 ≡ true
unfolding exceeds
exceeds-half = refl

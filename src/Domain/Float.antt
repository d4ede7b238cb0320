-- ===== src/Domain/Float.antt =====
-- What Go's conversions and comparisons do on the finite floats of Domain/Value.
mod Tests
use shingan.Prelude.{
  ℕ, zero, suc, ◌+◌, ◌-◌, ◌*◌, ◌/◌, ◌%◌, ◌^◌, Bool, true, false, ◌==◌, not, ltb, if◌then◌else◌,
}
use shingan.Prelude.Int.{ℤ, pos, negsuc, neg_ℕ}
use shingan.Domain.Value.{Float}

-- m / d to the nearest number, and from halfway to the even one.
unfoldable pub div_even : ℕ → ℕ → ℕ
div_even m d =
    let q = m / d in
    let twice = 2 * (m % d) in if ltb twice d then q else if ltb d twice then suc q else q + q % 2

-- How many of the last bits of a number below 2 ^ (53 + shift + fuel) do not fit in a float64.
unfoldable pub excess : ℕ → ℕ → ℕ → ℕ
excess zero shift m = shift
excess (suc fuel) shift m =
    let more = excess fuel (suc shift) m in if ltb m (2 ^ (53 + shift)) then shift else more

-- float64(n) of an int, int32 or int64: at most 11 of its 64 bits do not fit.
unfoldable pub of_ℕ : Bool → ℕ → Float
unfolding div_even excess
of_ℕ negative m =
    let shift = excess 11 0 m in
    record { negative = negative; mantissa = div_even m (2 ^ shift); exponent = pos shift }

unfoldable pub of_ℤ : ℤ → Float
unfolding of_ℕ
of_ℤ (pos n) = of_ℕ false n
of_ℤ (negsuc n) = of_ℕ true (suc n)

-- Whether the mantissa times 2 ^ exponent is greater than a number.
unfoldable pub scaled_over : ℕ → ℕ → ℤ → Bool
scaled_over n m (pos e) = ltb n (m * 2 ^ e)
scaled_over n m (negsuc e) = ltb (n * 2 ^ suc e) m

-- x > n
unfoldable pub exceeds : Float → ℕ → Bool
unfolding scaled_over
exceeds x n = if x.negative then false else scaled_over n x.mantissa x.exponent

unfoldable pub nearest : ℕ → ℤ → ℕ
unfolding div_even
nearest m (pos e) = m * 2 ^ e
nearest m (negsuc e) = div_even m (2 ^ suc e)

-- The number that `%.0f` prints.
unfoldable pub rounded : Float → ℤ
unfolding nearest
rounded x = let n = nearest x.mantissa x.exponent in if x.negative then neg_ℕ n else pos n

-- Whether the mantissa times 2 ^ exponent is greater than n / 2 ^ s.
unfoldable pub scaled_over_part : ℕ → ℕ → ℕ → ℤ → Bool
scaled_over_part n s m (pos e) = ltb n (m * 2 ^ e * 2 ^ s)
scaled_over_part n s m (negsuc e) = ltb (n * 2 ^ suc e) (m * 2 ^ s)

-- x > n / 2 ^ s
unfoldable pub exceeds_part : Float → ℕ → ℕ → Bool
unfolding scaled_over_part
exceeds_part x n s = if x.negative then false else scaled_over_part n s x.mantissa x.exponent

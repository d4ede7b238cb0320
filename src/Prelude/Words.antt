-- ===== src/Prelude/Words.antt =====
-- The functions of `strings`, `unicode` and `strconv` by which the code looks for words in a text.
use Prim.Native.String.{◌++◌ as ◌+++◌}
use shingan.Prelude.{
  ℕ, zero, suc, ◌+◌, ◌/◌, ◌%◌, ◌<◌, ◌≡◌, refl, String, Bool, true, false, ◌&&◌, ◌||◌, List, [], ◌∷◌,
  map, arith, leb, ltb, nat_eq, Bool-cases, if◌then◌else◌, inl, inr,
}
use shingan.Prelude.Text.{codes}

-- unicode.ToLower, as far as ASCII letters come out of it: beside A to Z, the dotted capital I and the
-- Kelvin sign. What it makes of other letters is not ASCII.
abbrev lower_code : ℕ → ℕ
lower_code c =
    if leb b'A' c && leb c b'Z'
    then c + 32
    else if nat_eq c 304
    then b'i'
    else if nat_eq c 8490
    then b'k'
    else c

-- strings.ToLower, for the comparison with ASCII words.
unfoldable pub to_lower : String → List ℕ
unfolding codes
to_lower s = map lower_code (codes s)

unfoldable pub is_prefix : List ℕ → List ℕ → Bool
is_prefix [] cs = true
is_prefix (p ∷ ps) [] = false
is_prefix (p ∷ ps) (c ∷ cs) = nat_eq p c && is_prefix ps cs

-- strings.Contains
unfoldable pub has_word : List ℕ → List ℕ → Bool
unfolding is_prefix
has_word [] word = is_prefix word []
has_word (c ∷ cs) word = is_prefix word (c ∷ cs) || has_word cs word

unfoldable pub same_codes : List ℕ → List ℕ → Bool
same_codes [] [] = true
same_codes (x ∷ xs) (y ∷ ys) = nat_eq x y && same_codes xs ys
same_codes _ _ = false

-- strings.HasSuffix
unfoldable pub has_suffix : List ℕ → List ℕ → Bool
unfolding same_codes
has_suffix [] word = same_codes [] word
has_suffix (c ∷ cs) word = same_codes (c ∷ cs) word || has_suffix cs word

abbrev digit_text : ℕ → String
digit_text d =
    if nat_eq d 0
    then "0"
    else if nat_eq d 1
    then "1"
    else if nat_eq d 2
    then "2"
    else if nat_eq d 3
    then "3"
    else if nat_eq d 4
    then "4"
    else if nat_eq d 5
    then "5"
    else if nat_eq d 6
    then "6"
    else if nat_eq d 7
    then "7"
    else if nat_eq d 8
    then "8"
    else "9"

-- The digits of a number before a text, with fuel for each digit.
unfoldable decimal : ℕ → ℕ → String → String
decimal zero n after = after
decimal (suc fuel) n after =
    let rest = decimal fuel (n / 10) (digit_text (n % 10) +++ after) in
    if ltb n 10 then digit_text n +++ after else rest

-- A number is fuel enough for its own digits.
decimal_enough :
    (fuel other n : ℕ) (after : String)
    → n < fuel
    → n < other
    → decimal fuel n after ≡ decimal other n after
unfolding decimal
decimal_enough zero other n after h k = absurd (omega arith)
decimal_enough (suc fuel) zero n after h k = absurd (omega arith)
decimal_enough (suc fuel) (suc other) n after h k = elim (Bool-cases (ltb n 10)) [
  | inl t ↦ rw t refl
  | inr f ↦ rw f (
      decimal_enough fuel other (n / 10) (digit_text (n % 10) +++ after) (ground (arith, f))
        (ground (arith, f)))
]

-- The verb %d on a number from 0.
unfoldable pub itoa : ℕ → String
unfolding decimal
itoa n = decimal (suc n) n ""

-- ===== src/Prelude/Text.antt =====
-- Texts as Go sees them: the order of `<` on strings, which on valid UTF-8 is the order of the
-- code points, and the decimal numerals that `strconv` reads.
use Prim.Native.Char.{code}
use text.Mathlib.TextEquality.{Char-path}
use shingan.Prelude.{
  ℕ, ◌+◌, ◌-◌, ◌*◌, ◌^◌, String, ◌≡◌, refl, ap₂, Bool, true, false, ◌&&◌, ◌||◌, List, [], ◌∷◌,
  Option, none, some, arith, ltb, leb, nat_eq, if◌then◌else◌,
}
use shingan.Prelude.Int.{ℤ, pos, neg_ℕ}
use shingan.Prelude.Sort.{IsOrder}

-- The code points of a text.
unfoldable pub codes : String → List ℕ
codes String.[] = []
codes (String.◌∷◌ c s) = code c ∷ codes s

codes_inj : (s t : String) → codes s ≡ codes t → s ≡ t
unfolding codes
codes_inj String.[] String.[] h = refl
codes_inj String.[] (String.◌∷◌ c t) h = cc
codes_inj (String.◌∷◌ c s) String.[] h = cc
codes_inj (String.◌∷◌ c s) (String.◌∷◌ d t) h =
    ap₂ String.◌∷◌ (Char-path c d (cc)) (codes_inj s t (cc))

-- The lexicographic order.
unfoldable pub lex_ltb : List ℕ → List ℕ → Bool
lex_ltb xs [] = false
lex_ltb [] (y ∷ ys) = true
lex_ltb (x ∷ xs) (y ∷ ys) = ltb x y || nat_eq x y && lex_ltb xs ys

lex_asym : (xs ys : List ℕ) → lex_ltb xs ys ≡ true → lex_ltb ys xs ≡ false
unfolding lex_ltb
lex_asym [] [] h = refl
lex_asym (x ∷ xs) [] h = cc
lex_asym [] (y ∷ ys) h = refl
lex_asym (x ∷ xs) (y ∷ ys) h = ground (arith, lex_asym xs ys)

lex_trans : (xs ys zs : List ℕ) → lex_ltb xs ys ≡ true → lex_ltb ys zs ≡ true → lex_ltb xs zs ≡ true
unfolding lex_ltb
lex_trans xs [] zs h k = ground arith
lex_trans [] (y ∷ ys) [] h k = cc
lex_trans (x ∷ xs) (y ∷ ys) [] h k = cc
lex_trans [] (y ∷ ys) (z ∷ zs) h k = refl
lex_trans (x ∷ xs) (y ∷ ys) (z ∷ zs) h k = ground (arith, lex_trans xs ys zs)

lex_connected : (xs ys : List ℕ) → lex_ltb xs ys ≡ false → lex_ltb ys xs ≡ false → xs ≡ ys
unfolding lex_ltb
lex_connected [] [] h k = refl
lex_connected (x ∷ xs) [] h k = cc
lex_connected [] (y ∷ ys) h k = cc
lex_connected (x ∷ xs) (y ∷ ys) h k = ground (arith, lex_connected xs ys)

-- s < t
unfoldable pub str_ltb : String → String → Bool
unfolding codes lex_ltb
str_ltb s t = lex_ltb (codes s) (codes t)

-- `<` on strings is a strict total order.
pub str_ltb-IsOrder : IsOrder str_ltb
unfolding str_ltb
str_ltb-IsOrder = record {
  asym = λ s t h. lex_asym (codes s) (codes t) h;
  trans = λ s t u h k. lex_trans (codes s) (codes t) (codes u) h k;
  connected = λ s t h k. codes_inj s t (lex_connected (codes s) (codes t) h k);
}

-- The value of a run of decimal digits, `none` at another character.
digits_value : ℕ → List ℕ → Option ℕ
digits_value acc [] = some acc
digits_value acc (c ∷ cs) =
    if leb b'0' c && leb c b'9' then digits_value (acc * 10 + (c - b'0')) cs else none

-- A numeral without its sign: at least one digit.
numeral : List ℕ → Option ℕ
unfolding digits_value
numeral [] = none
numeral (c ∷ cs) = digits_value 0 (c ∷ cs)

in_range : ℕ → (ℕ → ℤ) → Option ℕ → Option ℤ
in_range bound sign none = none
in_range bound sign (some n) = if leb n bound then some (sign n) else none

atoi_codes : List ℕ → Option ℤ
unfolding numeral in_range
atoi_codes [] = none
atoi_codes (c ∷ cs) =
    if nat_eq c b'-'
    then in_range (2 ^ 63) neg_ℕ (numeral cs)
    else if nat_eq c b'+'
    then in_range (2 ^ 63 - 1) pos (numeral cs)
    else in_range (2 ^ 63 - 1) pos (numeral (c ∷ cs))

-- strconv.Atoi into a 64-bit int: an optional sign and decimal digits, in range.
unfoldable pub atoi : String → Option ℤ
unfolding atoi_codes codes
atoi s = atoi_codes (codes s)

atoi_runs :
    (atoi "-12" ≡ some (neg_ℕ 12)) × (atoi "1e3" ≡ none) × (atoi "9223372036854775808" ≡ none)
unfolding atoi
atoi_runs = (refl, refl, refl)

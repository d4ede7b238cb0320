-- ===== src/Domain/Value.antt =====
-- The values of Go's `any` that a node's Config can hold, and the maps of them.
use shingan.Prelude.{ℕ, suc, ◌-◌, ◌*◌, ◌/◌, ◌^◌, String, Bool, List, Dict, leb, ltb, if◌then◌else◌}
use shingan.Prelude.Int.{ℤ, pos, negsuc, neg_ℕ}

-- A finite float64 (or float32): ± mantissa * 2 ^ exponent.
pub record Float : Type 0 where
  pub negative : Bool
  pub mantissa : ℕ
  pub exponent : ℤ

magnitude : ℕ → ℤ → ℕ
magnitude m (pos e) = m * 2 ^ e
magnitude m (negsuc e) = m / 2 ^ suc e

-- int(x) on 64 bits: the fraction is dropped. What does not fit Go leaves to the implementation, which on
-- amd64 answers the least int, -2^63.
unfoldable pub to_int : Float → ℤ
unfolding magnitude
to_int x =
    let n = magnitude x.mantissa x.exponent in
    if x.negative
    then (if leb n (2 ^ 63) then neg_ℕ n else negsuc (2 ^ 63 - 1))
    else if ltb n (2 ^ 63)
    then pos n
    else negsuc (2 ^ 63 - 1)

mutual
  pub data Value : Type 0 where
    null : Value
    boolean : Bool → Value
    int int32 int64 : ℤ → Value
    float32 float64 : Float → Value
    text : String → Value
    texts : List String → Value
    array : Items → Value
    object : Fields → Value

  pub data Items : Type 0 where
    nil : Items
    item : Value → Items → Items

  pub data Fields : Type 0 where
    end : Fields
    field : String → Value → Fields → Fields

-- map[string]any. A nil map reads as an empty one.
abbrev pub Config : Type 0
Config = Dict Value

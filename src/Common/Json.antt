-- ===== src/Common/Json.antt =====
-- The values of the dynamic language that configurations, payloads and tag results hold, and the
-- conversions `bool`, `int` and `isinstance` of them. A float is its IEEE 754 binary64 bit pattern.
use Prim.Native.Char.{code}
use Prim.Native.Nat.{ℕ, zero, ◌+◌, ◌-◌, ◌*◌, ◌/◌, ◌%◌, ◌^◌}
use Prim.Native.String.{String}
use mathlib.Core.Bool.{Bool, true, false, not, ◌&&◌, ◌||◌}
use mathlib.Core.Option.{Option, none, some}
use iot_gathering.Common.Tests.{ltb, leb, nat_beq, if◌then◌else◌}
use iot_gathering.Common.Int.{ℤ, pos, sub_ℕ}
use iot_gathering.Common.Text.{is_empty, strip}

mutual
  pub data Json : Type 0 where
    null : Json
    bool : Bool → Json
    int : ℤ → Json
    float : ℕ → Json
    text : String → Json
    list : Items → Json
    dict : Fields → Json

  pub data Items : Type 0 where
    nil : Items
    cons : Json → Items → Items

  pub data Fields : Type 0 where
    end : Fields
    field : String → Json → Fields → Fields

-- `f == 0` and `not f`, for +0.0 and -0.0
abbrev pub float_is_zero : ℕ → Bool
float_is_zero f = nat_beq f 0 || nat_beq f (2 ^ 63)

-- `bool(value)`
unfoldable pub truthy : Json → Bool
truthy null = false
truthy (bool b) = b
truthy (int (pos zero)) = false
truthy (int n) = true
truthy (float f) = not (float_is_zero f)
truthy (text s) = not (is_empty s)
truthy (list nil) = false
truthy (list (cons x xs)) = true
truthy (dict end) = false
truthy (dict (field k v fs)) = true

-- The integer part of the finite number with this bit pattern: 1.m * 2 ^ (e - 1023).
float_magnitude : ℕ → ℕ
float_magnitude f =
    let e = f / 2 ^ 52 % 2048 in
    let m = 2 ^ 52 + f % 2 ^ 52 in
    if ltb e 1023 then 0 else if leb 1075 e then m * 2 ^ (e - 1075) else m / 2 ^ (1075 - e)

-- `int(f)` raises for the infinities and NaN.
unfoldable pub float_to_int : ℕ → Option ℤ
unfolding float_magnitude
float_to_int f =
    if nat_beq (f / 2 ^ 52 % 2048) 2047
    then none
    else if leb (2 ^ 63) f
    then some (sub_ℕ 0 (float_magnitude f))
    else some (pos (float_magnitude f))

is_digit : ℕ → Bool
is_digit c = leb 48 c && leb c 57

-- Decimal digits, with one `_` between two of them; `after` says that a digit stands in front.
int_digits : Bool → ℕ → String → Option ℕ
int_digits after n String.[] = if after then some n else none
int_digits after n (String.◌∷◌ c s) =
    let d = code c in
    let more = int_digits true (n * 10 + (d - 48)) s in
    let skip = int_digits false n s in
    if is_digit d then more else if nat_beq d 95 && after then skip else none

-- `int(s)` of ASCII text: white space round it, a sign, digits.
unfoldable pub text_to_int : String → Option ℤ
unfolding int_digits is_digit
text_to_int s = signed (strip s)
  where
    plain : Option ℕ → Option ℤ
    plain none = none
    plain (some n) = some (pos n)

    negated : Option ℕ → Option ℤ
    negated none = none
    negated (some n) = some (sub_ℕ 0 n)

    signed : String → Option ℤ
    signed String.[] = none
    signed (String.◌∷◌ c s) =
        if nat_beq (code c) 45
        then negated (int_digits false 0 s)
        else if nat_beq (code c) 43
        then plain (int_digits false 0 s)
        else plain (int_digits false 0 (String.◌∷◌ c s))

-- `int(value)`, `none` where it raises
unfoldable pub to_int : Json → Option ℤ
unfolding float_to_int text_to_int
to_int (bool true) = some (pos 1)
to_int (bool false) = some (pos 0)
to_int (int n) = some n
to_int (float f) = float_to_int f
to_int (text s) = text_to_int s
to_int _ = none

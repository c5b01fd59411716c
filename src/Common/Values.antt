-- ===== src/Common/Values.antt =====
-- Conversions of Python's values to text and to floats, and the dictionaries among them. How a number, a list
-- or a dictionary is printed and how a text is read as a float is an argument.
use Prim.Native.Nat.{ℕ}
use Prim.Native.String.{String}
use mathlib.Core.Bool.{Bool, true, false, ◌||◌}
use mathlib.Core.Option.{Option, none, some}
use mathlib.Core.List.{[], ◌∷◌}
use iot_gathering.Common.Tests.{if◌then◌else◌}
use iot_gathering.Common.Int.{ℤ, pos}
use iot_gathering.Common.Equality.{◌==◌, string_eq}
use iot_gathering.Common.Text.{is_empty, strip, lower}
use iot_gathering.Common.Json.{
  Json, null, bool, int, float, text, Fields, end, field, truthy, to_int,
}
use iot_gathering.Common.Dict.{Dict}
use iot_gathering.Common.Result.{value_error, type_error, int_error, Result, ok, err, found_or}

-- `str` of a number, a list or a dictionary; `float` of an integer and of a text; `==` of dictionaries.
pub record Conversions : Type 0 where
  pub printed : Json → String
  pub int_float : ℤ → ℕ
  pub text_float : String → Option ℕ
  pub equal : Dict String Json → Dict String Json → Bool

-- `str(value)`
abbrev pub str : Conversions → Json → String
str c (text s) = s
str c null = "None"
str c (bool true) = "True"
str c (bool false) = "False"
str c v = c.printed v

-- `float(value)`
abbrev pub to_float : Conversions → Json → Result ℕ
to_float c (float f) = ok f
to_float c (int n) = ok (c.int_float n)
to_float c (bool true) = ok (c.int_float (pos 1))
to_float c (bool false) = ok (c.int_float (pos 0))
to_float c (text s) = found_or (c.text_float s) (value_error "could not convert string to float")
to_float c _ = err (type_error "float() argument must be a string or a real number")

-- `int(value)`
abbrev pub int_of : Json → Result ℤ
int_of v = found_or (to_int v) (int_error v)

-- The conversions between the two forms of a dictionary.
unfoldable pub to_fields : Dict String Json → Fields
to_fields [] = end
to_fields ((k, v) ∷ d) = field k v (to_fields d)

unfoldable pub of_fields : Fields → Dict String Json
of_fields end = []
of_fields (field k v fs) = (k, v) ∷ of_fields fs

-- `d.get(k)`, where None and a missing key are one
abbrev pub value_or_null : Option Json → Json
value_or_null none = null
value_or_null (some v) = v

-- `d.get(k, default)`
abbrev pub value_or : Option Json → Json → Json
value_or none v = v
value_or (some w) v = w

-- `v or w`
abbrev pub or_value : Json → Json → Json
or_value v w = if truthy v then v else w

-- `value in (None, "")`
abbrev pub is_unset : Json → Bool
is_unset null = true
is_unset (text s) = is_empty s
is_unset _ = false

-- A text, or None
abbrev pub optional_text : Option String → Json
optional_text none = null
optional_text (some s) = text s

abbrev pub optional_int : Option ℤ → Json
optional_int none = null
optional_int (some n) = int n

-- The words of `_csv_bool` and `_bool_config`.
abbrev pub is_yes : String → Bool
is_yes s = s == "1" || s == "true" || s == "yes" || s == "y" || s == "on"

-- `str(value).strip().lower() in {"1", "true", "yes", "y", "on"}`
unfoldable pub says_yes : Conversions → Json → Bool
says_yes c v = is_yes (lower (strip (str c v)))

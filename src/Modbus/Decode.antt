-- ===== src/Modbus/Decode.antt =====
-- drivers/modbus.py: from the registers and bits of a reply to the value of a tag. A register is a
-- number, as pymodbus gives it.
use Prim.Native.Char.{Char, char, IsScalar}
use mathlib.Core.Logic.{dite}
use native.Mathlib.Decide.{dec_lt}
use iot_gathering.Common.{
  ℕ, zero, suc, ◌+◌, ◌*◌, ◌/◌, ◌%◌, ◌^◌, ◌<◌, String, ℤ, pos, sub_ℕ, pos_part, ltb_ℤ, ltb, nat_beq,
  true, false, not, ◌&&◌, List, [], ◌∷◌, length, slice, ◌==◌, if◌then◌else◌, string_eq, int_eq,
  arith,
}
use mathlib.Core.List.{reverse}
use iot_gathering.Common.Text.{◌<>◌}
use iot_gathering.Common.Json.{Json, null, dict, bool, int, float, text, list, Items, nil, cons}
use iot_gathering.Common.Float.{Floats, widen}
use iot_gathering.Common.Result.{value_error, Result, ok, err, ◌>>=◌}
use iot_gathering.Models.{TagSpec}
use iot_gathering.Modbus.Blocks.{register_count, value_count, words_per_value}

-- `reversed` where the tag's word order is little.
unfoldable pub apply_word_order : List ℕ → TagSpec → List ℕ
apply_word_order registers tag =
    if tag.word_order == "little" && ltb 1 (length registers) then reverse registers else registers

-- `raw = (raw << 16) | (register & 0xFFFF)` for each register.
unfoldable pub registers_to_int_from : ℕ → List ℕ → ℕ
registers_to_int_from raw [] = raw
registers_to_int_from raw (r ∷ rs) = registers_to_int_from (raw * 2 ^ 16 + r % 2 ^ 16) rs

unfoldable pub registers_to_int : List ℕ → ℕ
unfolding registers_to_int_from
registers_to_int registers = registers_to_int_from 0 registers

-- The number `value` as a signed one of `bits + 1` bits: `value - 2 * top if value & top else value`.
abbrev pub signed : ℕ → ℕ → ℤ
signed bits value =
    if nat_beq (value / 2 ^ bits % 2) 1 then sub_ℕ value (2 ^ (bits + 1)) else pos value

pub IsScalar-of_ascii : (n : ℕ) → n < 128 → IsScalar n
IsScalar-of_ascii n h = ground arith

-- One byte of `decode("ascii", errors="replace")`.
unfoldable pub ascii_char : ℕ → Char
unfolding dec_lt
ascii_char n = dite (dec_lt n 128) (λ h. char n (IsScalar-of_ascii n h)) (λ _. "�")

unfoldable pub register_bytes : String → List ℕ → List ℕ
register_bytes byte_order [] = []
register_bytes byte_order (r ∷ rs) =
    let high = r / 2 ^ 8 % 2 ^ 8 in
    let low = r % 2 ^ 8 in
    let rest = register_bytes byte_order rs in
    if byte_order == "little" then low ∷ high ∷ rest else high ∷ low ∷ rest

-- `bytes.split(b"\x00", 1)[0].decode("ascii", errors="replace")`
unfoldable pub text_until_nul : List ℕ → String
unfolding ascii_char
text_until_nul [] = ""
text_until_nul (b ∷ bs) =
    let rest = text_until_nul bs in
    elim (nat_beq b 0) [ true ↦ "" | false ↦ String.◌∷◌ (ascii_char b) rest ]

unfoldable pub decode_string : List ℕ → TagSpec → String
unfolding register_bytes text_until_nul
decode_string registers tag = text_until_nul (register_bytes tag.byte_order registers)

-- `registers[0]`
abbrev pub first : List ℕ → Result ℕ
first [] = err (value_error "list index out of range")
first (r ∷ rs) = ok r

-- `raw.to_bytes(width, "big")` raises where the number does not fit.
abbrev pub to_bytes : ℕ → ℕ → Result ℕ
to_bytes width raw =
    if ltb raw (2 ^ (8 * width)) then ok raw else err (value_error "int too big to convert")

unfoldable pub decode_single_register_value : List ℕ → TagSpec → Result Json
decode_single_register_value registers tag =
    let ordered = apply_word_order registers tag in
    let raw = registers_to_int ordered in
    if tag.data_type == "bool"
    then (do r ← first registers; ok (bool (not (nat_beq r 0))))
    else if tag.data_type == "int16"
    then (do r ← first ordered; ok (int (signed 15 r)))
    else if tag.data_type == "uint16"
    then (do r ← first ordered; ok (int (pos r)))
    else if tag.data_type == "string"
    then ok (text (decode_string ordered tag))
    else if tag.data_type == "int32"
    then ok (int (signed 31 raw))
    else if tag.data_type == "uint32"
    then ok (int (pos raw))
    else if tag.data_type == "float32"
    then (do bits ← to_bytes 4 raw; ok (float (widen bits)))
    else if tag.data_type == "float64"
    then (do bits ← to_bytes 8 raw; ok (float bits))
    else err (value_error ("unsupported data type " <> tag.data_type))

-- The loop of `_decode_registers` over the values of a tag, from `start` on.
unfoldable pub decode_values : ℕ → ℕ → List ℕ → TagSpec → Result Items
decode_values zero start registers tag = ok nil
decode_values (suc n) start registers tag = do
  let stop = start + pos_part (words_per_value tag)
  value ← decode_single_register_value (slice registers (pos start) (pos stop)) tag
  values ← decode_values n stop registers tag
  ok (cons value values)

unfoldable pub decode_registers : List ℕ → TagSpec → Result Json
decode_registers registers tag =
    if ltb_ℤ (pos (length registers)) (register_count tag)
    then err (value_error ("not enough registers for " <> tag.name))
    else if not (tag.data_type == "string") && ltb_ℤ (pos 1) (value_count tag)
    then (do values ← decode_values (pos_part (value_count tag)) 0 registers tag; ok (list values))
    else decode_single_register_value registers tag

-- `_apply_scale`; the floats' arithmetic is the argument.
unfoldable mutual
  pub apply_scale : Floats → ℕ → ℕ → Json → Json
  apply_scale floats scale offset (int n) =
      float (floats.plus (floats.times (floats.of_int n) scale) offset)
  apply_scale floats scale offset (float f) = float (floats.plus (floats.times f scale) offset)
  apply_scale floats scale offset (list xs) = list (apply_scale_items floats scale offset xs)
  apply_scale floats scale offset (bool b) = bool b
  apply_scale floats scale offset (text s) = text s
  apply_scale floats scale offset null = null
  apply_scale floats scale offset (dict fs) = dict fs

  pub apply_scale_items : Floats → ℕ → ℕ → Items → Items
  apply_scale_items floats scale offset nil = nil
  apply_scale_items floats scale offset (cons x xs) =
      cons (apply_scale floats scale offset x) (apply_scale_items floats scale offset xs)

-- ===== src/Modbus/Strings.antt =====
-- The decoding of texts undoes an independent packing of ASCII characters, two to a register.
use Prim.Native.Char.{Char, code}
use mathlib.Core.Logic.{dif_pos}
use native.Mathlib.Decide.{dec_lt}
use native.Mathlib.Bridge.{le_prop}
use package.text.Mathlib.TextEquality.{Char-path}
use iot_gathering.Common.{
  ℕ, ◌+◌, ◌*◌, ◌<◌, String, pos, some, List, [], ◌∷◌, ◌≡◌, refl, ◌∙◌, ap, length, ◌==◌,
  if◌then◌else◌, string_eq, arith,
}
use iot_gathering.Common.Json.{text}
use iot_gathering.Common.Result.{ok}
use iot_gathering.Models.{TagSpec}
use iot_gathering.Modbus.Blocks.{register_count}
use iot_gathering.Modbus.Decode.{
  ascii_char, register_bytes, text_until_nul, decode_string, decode_single_register_value,
  decode_registers,
}
use iot_gathering.Modbus.Numbers.{sent, ordered-sent, length-sent}

-- The codes of a text.
abbrev pub codes : String → List ℕ
codes String.[] = []
codes (String.◌∷◌ c s) = code c ∷ codes s

-- An ASCII text with no NUL.
abbrev pub IsPlain : String → Type 0
IsPlain String.[] = Unit
IsPlain (String.◌∷◌ c s) = (0 < code c) × (code c < 128) × IsPlain s

-- The register of two bytes, `a` before `b`.
abbrev register_of : String → ℕ → ℕ → ℕ
register_of byte_order a b = if byte_order == "little" then b * 256 + a else a * 256 + b

-- Two bytes to a register, with a NUL at the end where their number is odd.
unfoldable pub packed : String → List ℕ → List ℕ
packed byte_order [] = []
packed byte_order (a ∷ []) = register_of byte_order a 0 ∷ []
packed byte_order (a ∷ b ∷ rest) = register_of byte_order a b ∷ packed byte_order rest

ascii_char-code : (c : Char) → code c < 128 → ascii_char (code c) ≡ c
unfolding ascii_char
ascii_char-code c h = dif_pos (dec_lt (code c) 128) le_prop h _ _ ∙ Char-path _ c refl

unpack_two :
    (byte_order : String) (a b : ℕ) (rest : List ℕ)
    → a < 256
    → b < 256
    → register_bytes byte_order (register_of byte_order a b ∷ rest)
      ≡ a ∷ b ∷ register_bytes byte_order rest
unfolding register_bytes
unpack_two byte_order a b rest h k = ground arith

text_until_nul-cons :
    (c : Char) (bs : List ℕ)
    → 0 < code c
    → code c < 128
    → text_until_nul (code c ∷ bs) ≡ String.◌∷◌ c (text_until_nul bs)
unfolding text_until_nul
text_until_nul-cons c bs h k = ground (arith, ascii_char-code c k)

unpacked :
    (byte_order : String) (s : String)
    → IsPlain s
    → text_until_nul (register_bytes byte_order (packed byte_order (codes s))) ≡ s
unfolding packed
unpacked byte_order String.[] p = nothing
  where
    nothing : text_until_nul (register_bytes byte_order []) ≡ ""
    nothing = unfold register_bytes text_until_nul in refl
unpacked byte_order (String.◌∷◌ c String.[]) p =
    rw (unpack_two byte_order (code c) 0 [] (omega arith) (omega arith))
      (text_until_nul-cons c _ p.0 p.1 ∙ ap (String.◌∷◌ c) end_of)
  where
    end_of : text_until_nul (0 ∷ register_bytes byte_order []) ≡ ""
    end_of = unfold text_until_nul in refl
unpacked byte_order (String.◌∷◌ c (String.◌∷◌ d s)) p =
    rw
      (unpack_two byte_order (code c) (code d) (packed byte_order (codes s)) (omega arith)
        (omega arith))
      (text_until_nul-cons c _ p.0 p.1
        ∙ ap (String.◌∷◌ c)
            (text_until_nul-cons d _ p.2.0 p.2.1 ∙ ap (String.◌∷◌ d) (unpacked byte_order s p.2.2)))

register_count_of :
    (tag : TagSpec) (n : ℕ)
    → tag.data_type ≡ "string"
    → 0 < n
    → tag.word_count ≡ some (pos n)
    → register_count tag ≡ pos n
unfolding register_count
register_count_of tag n t h c = simp (t, c) (ground arith)

-- Reading back: an ASCII text without NUL, packed two characters to a register in the byte order of a
-- string tag and sent in its word order, decodes to the text, if the count of the tag is that of the registers
-- and not zero.
pub decode_registers-packed :
    (tag : TagSpec) (s : String)
    → tag.data_type ≡ "string"
    → IsPlain s
    → 0 < length (packed tag.byte_order (codes s))
    → tag.word_count ≡ some (pos (length (packed tag.byte_order (codes s))))
    → decode_registers (sent tag (packed tag.byte_order (codes s))) tag ≡ ok (text s)
unfolding decode_registers
decode_registers-packed tag s t p h c =
    simp (register_count_of tag _ t h c, t, length-sent)
      (unfold decode_single_register_value decode_string in
        simp (t, ordered-sent, unpacked tag.byte_order s p) (ground arith))

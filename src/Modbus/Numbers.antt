-- ===== src/Modbus/Numbers.antt =====
-- The decoding of numbers undoes an independent encoding: the words of a bit pattern, the most
-- significant first, reversed where the tag's word order is little.
use mathlib.Core.List.{reverse, reverse-reverse, reverse-cons}
use native.Mathlib.Nat.{pow-suc}
use iot_gathering.Common.{
  ℕ, zero, suc, ◌+◌, ◌-◌, ◌*◌, ◌/◌, ◌%◌, ◌^◌, ◌<◌, ◌≤◌, ℤ, pos, negsuc, pos_part, neg_part, false,
  none, List, [], ◌∷◌, ◌++◌, ◌≡◌, refl, ap, length, length-append, ◌==◌, if◌then◌else◌, string_eq,
  arith, ◌*ℤ◌,
}
use iot_gathering.Common.Json.{Json, int, float}
use iot_gathering.Common.Result.{ok}
use iot_gathering.Models.{TagSpec}
use iot_gathering.Modbus.Blocks.{register_count, value_count}
use iot_gathering.Modbus.Decode.{
  apply_word_order, registers_to_int_from, registers_to_int, signed, decode_single_register_value,
  decode_registers,
}

-- The `k` words of `n`, the most significant first.
unfoldable pub words : ℕ → ℕ → List ℕ
words zero n = []
words (suc k) n = words k (n / 2 ^ 16) ++ n % 2 ^ 16 ∷ []

pub length-words : (k n : ℕ) → length (words k n) ≡ k
unfolding words
length-words zero n = refl
length-words (suc k) n =
    omega
      (arith, length-append (words k (n / 2 ^ 16)) (n % 2 ^ 16 ∷ []), length-words k (n / 2 ^ 16))

registers_to_int_from-append :
    (raw : ℕ) (rs : List ℕ) (r : ℕ)
    → registers_to_int_from raw (rs ++ r ∷ []) ≡ registers_to_int_from raw rs * 2 ^ 16 + r % 2 ^ 16
unfolding registers_to_int_from
registers_to_int_from-append raw [] r = refl
registers_to_int_from-append raw (x ∷ rs) r =
    registers_to_int_from-append (raw * 2 ^ 16 + x % 2 ^ 16) rs r

registers_to_int-words : (k n : ℕ) → n < (2 ^ 16) ^ k → registers_to_int (words k n) ≡ n
unfolding registers_to_int words
registers_to_int-words zero n h = omega arith
registers_to_int-words (suc k) n h = omega (
  arith,
  registers_to_int_from-append 0 (words k (n / 2 ^ 16)) (n % 2 ^ 16),
  registers_to_int-words k (n / 2 ^ 16) (omega (arith, pow-suc (2 ^ 16) k)),
)

-- The order in which a device of this word order sends them.
unfoldable pub sent : TagSpec → List ℕ → List ℕ
sent tag rs = if tag.word_order == "little" then reverse rs else rs

-- The pattern of `z` among `2 ^ (bits + 1)`.
unfoldable pub pattern_of : ℕ → ℤ → ℕ
pattern_of bits (pos n) = n
pattern_of bits (negsuc n) = 2 ^ (bits + 1) - suc n

signed-pattern_of_31 :
    (z : ℤ) → pos_part z < 2 ^ 31 → neg_part z ≤ 2 ^ 31 → signed 31 (pattern_of 31 z) ≡ z
unfolding pattern_of
signed-pattern_of_31 (pos n) h k = ground arith
signed-pattern_of_31 (negsuc n) h k = ground arith

signed-pattern_of_15 :
    (z : ℤ) → pos_part z < 2 ^ 15 → neg_part z ≤ 2 ^ 15 → signed 15 (pattern_of 15 z) ≡ z
unfolding pattern_of
signed-pattern_of_15 (pos n) h k = ground arith
signed-pattern_of_15 (negsuc n) h k = ground arith

-- `Encodes tag k bits v`: a tag of this data type takes `k` words, and their pattern for `v` is `bits`.
pub data Encodes (tag : TagSpec) : ℕ → ℕ → Json → Type 0 where
  int16 :
      (z : ℤ)
      → tag.data_type ≡ "int16"
      → pos_part z < 2 ^ 15
      → neg_part z ≤ 2 ^ 15
      → Encodes tag 1 (pattern_of 15 z) (int z)
  uint16 : (n : ℕ) → tag.data_type ≡ "uint16" → n < 2 ^ 16 → Encodes tag 1 n (int (pos n))
  int32 :
      (z : ℤ)
      → tag.data_type ≡ "int32"
      → pos_part z < 2 ^ 31
      → neg_part z ≤ 2 ^ 31
      → Encodes tag 2 (pattern_of 31 z) (int z)
  uint32 : (n : ℕ) → tag.data_type ≡ "uint32" → n < 2 ^ 32 → Encodes tag 2 n (int (pos n))
  float64 : (f : ℕ) → tag.data_type ≡ "float64" → f < 2 ^ 64 → Encodes tag 4 f (float f)

length-reverse : (rs : List ℕ) → length (reverse rs) ≡ length rs
length-reverse [] = refl
length-reverse (x ∷ rs) =
    rw reverse-cons (omega (arith, length-append (reverse rs) (x ∷ []), length-reverse rs))

pub ordered-sent : (tag : TagSpec) (rs : List ℕ) → apply_word_order (sent tag rs) tag ≡ rs
unfolding apply_word_order sent
ordered-sent tag [] = ground arith
ordered-sent tag (x ∷ []) = ground arith
ordered-sent tag (x ∷ y ∷ rs) =
    ground (arith, length-reverse (x ∷ y ∷ rs), reverse-reverse (x ∷ y ∷ rs))

-- A register keeps its 16 bits.
one_word : (n : ℕ) → n < 2 ^ 16 → words 1 n ≡ n ∷ []
unfolding words
one_word n h = ap (λ m. m ∷ []) (omega arith)

pattern_of_15-lt : (z : ℤ) → pos_part z < 2 ^ 15 → neg_part z ≤ 2 ^ 15 → pattern_of 15 z < 2 ^ 16
unfolding pattern_of
pattern_of_15-lt (pos n) h k = omega arith
pattern_of_15-lt (negsuc n) h k = omega arith

pattern_of_31-lt : (z : ℤ) → pos_part z < 2 ^ 31 → neg_part z ≤ 2 ^ 31 → pattern_of 31 z < 2 ^ 32
unfolding pattern_of
pattern_of_31-lt (pos n) h k = omega arith
pattern_of_31-lt (negsuc n) h k = omega arith

-- One value.
decode_single-sent :
    (tag : TagSpec) (k bits : ℕ) (v : Json)
    → Encodes tag k bits v
    → decode_single_register_value (sent tag (words k bits)) tag ≡ ok v
unfolding decode_single_register_value
decode_single-sent tag k bits v (int16 z t h l) =
    simp (t, ordered-sent, one_word (pattern_of 15 z) (pattern_of_15-lt z h l))
      (ap (λ y. ok (int y)) (signed-pattern_of_15 z h l))
decode_single-sent tag k bits v (uint16 n t h) = simp (t, ordered-sent, one_word n h)
decode_single-sent tag k bits v (int32 z t h l) =
    simp (t, ordered-sent, registers_to_int-words 2 (pattern_of 31 z) (pattern_of_31-lt z h l))
      (ap (λ y. ok (int y)) (signed-pattern_of_31 z h l))
decode_single-sent tag k bits v (uint32 n t h) =
    simp (t, ordered-sent, registers_to_int-words 2 n h)
decode_single-sent tag k bits v (float64 n t h) =
    simp (t, ordered-sent, registers_to_int-words 4 n h) (ground arith)

-- A tag without a count takes as many registers as its value has words.
register_count-Encodes :
    (tag : TagSpec) (k bits : ℕ) (v : Json)
    → Encodes tag k bits v
    → tag.word_count ≡ none
    → (register_count tag ≡ pos k) × ((tag.data_type == "string") ≡ false)
unfolding register_count ◌*ℤ◌
register_count-Encodes tag k bits v (int16 z t h l) c = (simp (t, c), simp t)
register_count-Encodes tag k bits v (uint16 n t h) c = (simp (t, c), simp t)
register_count-Encodes tag k bits v (int32 z t h l) c = (simp (t, c), simp t)
register_count-Encodes tag k bits v (uint32 n t h) c = (simp (t, c), simp t)
register_count-Encodes tag k bits v (float64 n t h) c = (simp (t, c), simp t)

pub length-sent : (tag : TagSpec) (rs : List ℕ) → length (sent tag rs) ≡ length rs
unfolding sent
length-sent tag rs = ground (arith, length-reverse rs)

-- Reading back: for a tag of type int16, uint16, int32, uint32 or float64 without a count, and either
-- word order, the registers that hold the pattern of a value in the type's range, sent in that order,
-- decode to that value.
pub decode_registers-sent :
    (tag : TagSpec) (k bits : ℕ) (v : Json)
    → Encodes tag k bits v
    → tag.word_count ≡ none
    → decode_registers (sent tag (words k bits)) tag ≡ ok v
unfolding decode_registers value_count
decode_registers-sent tag k bits v e c =
    let (count, number) = register_count-Encodes tag k bits v e c in
    simp (count, number, c, length-sent, length-words, decode_single-sent tag k bits v e)
      (ground arith)

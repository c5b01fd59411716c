-- ===== src/Modbus/Reading.antt =====
-- drivers/modbus.py: `_read_tags_grouped` and what it calls for each block. The client is pymodbus':
-- an argument that answers the i-th request with a response or an exception; so is the clock.
use iot_gathering.Common.{
  ℕ, suc, String, ℤ, pos, ◌+ℤ◌, ◌-ℤ◌, ltb_ℤ, Bool, Option, none, some, List, [], ◌∷◌, ◌||◌, length,
  slice, ◌==◌, if◌then◌else◌, string_eq, int_eq,
}
use iot_gathering.Common.Text.{◌<>◌}
use iot_gathering.Common.Json.{Json, null, bool, list, Items, nil, cons, to_int}
use iot_gathering.Common.Dict.{Dict, get, put}
use iot_gathering.Common.Float.{Floats}
use iot_gathering.Common.Result.{
  Error, value_error, int_error, text, Result, ok, err, ◌>>=◌, found_or,
}
use iot_gathering.Models.{DeviceSpec, TagSpec, TagResult, good, bad}
use iot_gathering.Modbus.Blocks.{
  ReadBlock, register_count, value_count, plan_blocks, max_counts_from_connection,
}
use iot_gathering.Modbus.Decode.{decode_registers, apply_scale}

-- A pymodbus response: `isError()` with the text of it, and what it holds.
pub record Response : Type 0 where
  pub failure : Option String
  pub registers : List ℕ
  pub bits : List Bool

pub data Reply : Type 0 where
  response : Response → Reply
  raised : Error → Reply

abbrev pub Results : Type 0
Results = Dict String TagResult

-- `_bad`
abbrev pub bad_result : TagSpec → ℕ → String → TagResult
bad_result tag timestamp error = record {
  name = tag.name;
  address = tag.address;
  value = null;
  quality = bad;
  error = some error;
  timestamp = timestamp;
  node_id = none;
  tag_group = tag.tag_group;
}

abbrev pub good_result : TagSpec → ℕ → Json → TagResult
good_result tag timestamp value = record {
  name = tag.name;
  address = tag.address;
  value = value;
  quality = good;
  error = none;
  timestamp = timestamp;
  node_id = none;
  tag_group = tag.tag_group;
}

-- `try: … except Exception`: the result of a tag whose value is `value`.
abbrev pub tag_result : TagSpec → ℕ → Result Json → TagResult
tag_result tag timestamp (ok value) = good_result tag timestamp value
tag_result tag timestamp (err e) = bad_result tag timestamp (text e)

-- `results[tag.name] = result(tag)` for each tag.
unfoldable pub put_each : (TagSpec → TagResult) → Results → List TagSpec → Results
put_each result results [] = results
put_each result results (tag ∷ tags) = put_each result (put results tag.name (result tag)) tags

unfoldable pub register_value : Floats → List ℕ → ℤ → TagSpec → Result Json
register_value floats registers start tag = do
  let offset = tag.address -ℤ start
  value ← decode_registers (slice registers offset (offset +ℤ register_count tag)) tag
  ok (apply_scale floats tag.scale tag.offset value)

unfoldable pub decode_register_block : Floats → List ℕ → ReadBlock → ℕ → Results
unfolding put_each register_value
decode_register_block floats registers block timestamp =
    put_each (λ tag. tag_result tag timestamp (register_value floats registers block.start tag)) []
      block.tags

unfoldable pub bit_items : List Bool → Items
bit_items [] = nil
bit_items (b ∷ bs) = cons (bool b) (bit_items bs)

-- `values[0] if count == 1 else values`
abbrev pub bits_value : ℤ → List Bool → Json
bits_value count [] = list nil
bits_value count (b ∷ bs) = if int_eq.beq count (pos 1) then bool b else list (bit_items (b ∷ bs))

unfoldable pub bit_value : List Bool → ℤ → TagSpec → Result Json
bit_value bits start tag =
    let offset = tag.address -ℤ start in
    let count = value_count tag in
    let values = slice bits offset (offset +ℤ count) in
    if ltb_ℤ (pos (length values)) count
    then err (value_error ("not enough bits for " <> tag.name))
    else ok (bits_value count values)

unfoldable pub decode_bit_block : List Bool → ReadBlock → ℕ → Results
unfolding put_each bit_value
decode_bit_block bits block timestamp =
    put_each (λ tag. tag_result tag timestamp (bit_value bits block.start tag)) [] block.tags

abbrev pub all_bad : ReadBlock → ℕ → (TagSpec → String) → Results
all_bad block timestamp error = put_each (λ tag. bad_result tag timestamp (error tag)) [] block.tags

abbrev pub is_register_function : String → Bool
is_register_function f = f == "holding_register" || f == "input_register"

abbrev pub is_bit_function : String → Bool
is_bit_function f = f == "coil" || f == "discrete_input"

-- `_read_block`, from the client's reply to the request of the block.
unfoldable pub read_block : Floats → Reply → ReadBlock → ℕ → Results
unfolding decode_register_block decode_bit_block
read_block floats (raised e) block timestamp =
    if is_register_function block.function || is_bit_function block.function
    then all_bad block timestamp (λ tag. text e)
    else all_bad block timestamp (λ tag. "unsupported function " <> tag.function)
read_block floats (response r) block timestamp =
    if is_register_function block.function
    then elim r.failure [
      | some error ↦ all_bad block timestamp (λ tag. error)
      | none ↦ decode_register_block floats r.registers block timestamp
    ]
    else if is_bit_function block.function
    then elim r.failure [
      | some error ↦ all_bad block timestamp (λ tag. error)
      | none ↦ decode_bit_block r.bits block timestamp
    ]
    else all_bad block timestamp (λ tag. "unsupported function " <> tag.function)

-- `d.update(other)`
unfoldable pub update : Results → Results → Results
update d [] = d
update d ((k, r) ∷ other) = update (put d k r) other

module _ (floats : Floats) (client : ℕ → ReadBlock → Reply) (clock : ℕ → ℕ) where
  -- The loop over the blocks; `i` requests were made before.
  unfoldable pub read_blocks : ℕ → Results → List ReadBlock → Results
  unfolding update read_block
  read_blocks i results [] = results
  read_blocks i results (block ∷ blocks) =
      read_blocks (suc i) (update results (read_block floats (client i block) block (clock i)))
        blocks

  -- `results.get(tag.name) or _bad(tag, …)`
  abbrev pub result_of : Results → ℕ → TagSpec → TagResult
  result_of results timestamp tag = elim (get results tag.name) [
    | some result ↦ result
    | none ↦ bad_result tag timestamp "tag was not read"
  ]

  unfoldable pub results_of : ℕ → Results → List TagSpec → List TagResult
  results_of i results [] = []
  results_of i results (tag ∷ tags) =
      result_of results (clock i) tag ∷ results_of (suc i) results tags

-- `int(connection.get(key, default))`
abbrev pub int_setting : Dict String Json → String → ℤ → Result ℤ
int_setting connection key default = elim (get connection key) [
  | none ↦ ok default
  | some value ↦ found_or (to_int value) (int_error value)
]

unfoldable pub bad_results : (ℕ → ℕ) → List TagSpec → List TagResult
bad_results clock [] = []
bad_results clock (tag ∷ tags) =
    bad_result tag (clock 0) "Modbus client is not connected" ∷ bad_results clock tags

-- `_read_tags_grouped`. There is no client before `connect` and after `disconnect`.
unfoldable pub read_tags_grouped :
    Floats
    → (ℕ → ℕ)
    → Option (ℕ → ReadBlock → Reply)
    → DeviceSpec
    → List TagSpec
    → Result (List TagResult)
unfolding read_blocks results_of bad_results
read_tags_grouped floats clock none device tags = ok (bad_results clock tags)
read_tags_grouped floats clock (some client) device tags = do
  max_block_gap ← int_setting device.connection "max_block_gap" (pos 4)
  max_counts ← max_counts_from_connection device.connection
  default_unit_id ← int_setting device.connection "unit_id" (pos 1)
  blocks ← plan_blocks tags default_unit_id max_block_gap (some max_counts)
  ok (
      results_of floats client clock (length blocks) (read_blocks floats client clock 0 [] blocks)
        tags)

-- ===== src/Monitor/Results.antt =====
-- The results of tags from the captured pairs: `_tag_results_from_pairs` and `_tag_result_from_pairs`. The
-- later of two pairs of one slave, function and start counts.
use iot_gathering.Common.{
  ℕ, ◌+◌, String, ℤ, pos, ◌+ℤ◌, ◌-ℤ◌, leb_ℤ, ltb_ℤ, nat_beq, Bool, ◌&&◌, Option, none, some, List,
  [], ◌∷◌, length, slice, ◌==◌, if◌then◌else◌, string_eq, int_eq, nat_eq, pair_eq,
}
use iot_gathering.Common.Json.{Json}
use iot_gathering.Common.Dict.{Dict, put}
use iot_gathering.Common.Float.{Floats}
use iot_gathering.Common.Result.{Result, ok, key_error, ◌>>=◌, found_or}
use iot_gathering.Models.{DeviceSpec, TagSpec, TagResult}
use iot_gathering.Modbus.Blocks.{int_or, register_count}
use iot_gathering.Modbus.Decode.{decode_registers, apply_scale}
use iot_gathering.Modbus.Reading.{bad_result, tag_result, int_setting}
use iot_gathering.Monitor.Frame.{Frame}
use iot_gathering.Monitor.Search.{Pair}

-- `TAG_FUNCTIONS_BY_CODE.get(code)`
unfoldable pub tag_function : ℕ → Option String
tag_function code =
    if nat_beq code 1
    then some "coil"
    else if nat_beq code 2
    then some "discrete_input"
    else if nat_beq code 3
    then some "holding_register"
    else if nat_beq code 4
    then some "input_register"
    else none

abbrev pub LatestPairs : Type 0
LatestPairs = Dict (ℕ × (String × ℕ)) Pair

-- The first loop; a request without a start address raises a KeyError.
abbrev pub put_pair : LatestPairs → Pair → Option String → Result LatestPairs
put_pair latest pair none = ok latest
put_pair latest pair (some function) = do
  start ← found_or pair.request.start_address (key_error "start_address")
  ok (put latest (pair.request.slave_id, (function, start)) pair)

unfoldable pub latest_pairs : LatestPairs → List Pair → Result LatestPairs
unfolding tag_function
latest_pairs latest [] = ok latest
latest_pairs latest (pair ∷ pairs) = do
  next ← put_pair latest pair (tag_function pair.request.function)
  latest_pairs next pairs

-- `request.get("quantity", len(registers))`
abbrev pub quantity_of : Frame → List ℕ → ℕ
quantity_of request registers = elim request.quantity [ none ↦ length registers | some q ↦ q ]

abbrev pub within : ℤ → ℕ → ℕ → Bool
within address start quantity = leb_ℤ (pos start) address && ltb_ℤ address (pos (start + quantity))

unfoldable pub observed_value : Floats → TagSpec → ℕ → List ℕ → Result Json
observed_value floats tag start registers = do
  let offset = tag.address -ℤ pos start
  value ← decode_registers (slice registers offset (offset +ℤ register_count tag)) tag
  ok (apply_scale floats tag.scale tag.offset value)

-- One round of the loop of `_tag_result_from_pairs`: the result, or `none` for `continue`.
abbrev pub pair_result : Floats → TagSpec → ℕ → ℕ → Pair → Option (List ℕ) → Option TagResult
pair_result floats tag timestamp start pair none = none
pair_result floats tag timestamp start pair (some registers) =
    if within tag.address start (quantity_of pair.request registers)
    then some (tag_result tag timestamp (observed_value floats tag start registers))
    else none

abbrev pub or_result : Option TagResult → Option TagResult → Option TagResult
or_result none later = later
or_result (some r) later = some r

unfoldable pub tag_result_from_pairs : Floats → TagSpec → ℤ → ℕ → LatestPairs → Option TagResult
unfolding observed_value
tag_result_from_pairs floats tag unit_id timestamp [] = none
tag_result_from_pairs floats tag unit_id timestamp (((slave, (function, start)), pair) ∷ pairs) =
    let rest = tag_result_from_pairs floats tag unit_id timestamp pairs in
    if pos slave == unit_id && function == tag.function
    then or_result (pair_result floats tag timestamp start pair pair.response.registers) rest
    else rest

abbrev pub observed : TagSpec → ℕ → Option TagResult → TagResult
observed tag timestamp (some r) = r
observed tag timestamp none =
    bad_result tag timestamp "tag was not observed in captured Modbus RTU traffic"

unfoldable pub observed_results : Floats → ℤ → ℕ → LatestPairs → List TagSpec → List TagResult
unfolding tag_result_from_pairs
observed_results floats unit timestamp latest [] = []
observed_results floats unit timestamp latest (tag ∷ tags) =
    observed tag timestamp
      (tag_result_from_pairs floats tag (int_or tag.unit_id unit) timestamp latest)
    ∷ observed_results floats unit timestamp latest tags

-- `_tag_results_from_pairs`
unfoldable pub tag_results_from_pairs :
    Floats → DeviceSpec → List TagSpec → List Pair → ℕ → Result (List TagResult)
unfolding latest_pairs observed_results
tag_results_from_pairs floats device tags pairs timestamp = do
  latest ← latest_pairs [] pairs
  default_unit_id ← int_setting device.connection "unit_id" (pos 1)
  ok (observed_results floats default_unit_id timestamp latest tags)

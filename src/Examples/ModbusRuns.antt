-- ===== src/Examples/ModbusRuns.antt =====
-- A plan, a reading and a validation of tags, and the theorems about them.
use mathlib.Core.List.{Perm}
use iot_gathering.Common.{
  ◌↔◌, ◌≢◌, ℕ, String, ℤ, pos, negsuc, ◌+ℤ◌, ◌-ℤ◌, ◌*ℤ◌, max_ℤ, min_ℤ, none, some, List, [], ◌∷◌,
  map, ◌≡◌, refl, slice, length, arith, true, ◌<◌, ◌*◌, pos_part,
}
use iot_gathering.Common.Text.{strip}
use iot_gathering.Common.Json.{int, float, text}
use iot_gathering.Common.Dict.{get, put}
use iot_gathering.Common.Float.{Floats}
use iot_gathering.Common.Result.{value_error, ok, err, raise_first}
use iot_gathering.Models.{DeviceSpec, TagSpec, TagResult, good}
use iot_gathering.Models.Accepted.{IsCommon, Fits, validate_tag-accepted}
use iot_gathering.Models.Validation.{validate_tag, validate_modbus_tag, validate_common_tag_fields}
use iot_gathering.Modbus.Blocks.{
  ReadBlock, block, plan_blocks, plan_groups, join_tags, group_tags, sort_tags, insert_tag,
  item_count, register_count, value_count, words_per_value, default_max_counts,
  max_counts_from_connection, positive_int,
}
use iot_gathering.Modbus.Partition.{block_tags, plan_blocks-perm}
use iot_gathering.Modbus.Total.{IsKnown, plan_blocks-total}
use iot_gathering.Modbus.Decode.{
  decode_registers, decode_single_register_value, apply_word_order, registers_to_int, apply_scale,
}
use iot_gathering.Modbus.Numbers.{words, sent, pattern_of, int32, decode_registers-sent}
use iot_gathering.Modbus.Strings.{codes, packed, decode_registers-packed}
use iot_gathering.Modbus.Reading.{
  Reply, response, read_tags_grouped, read_blocks, read_block, decode_register_block, put_each,
  register_value, update, results_of,
}
use iot_gathering.Modbus.Named.{read_tags_grouped-names}
use iot_gathering.Modbus.Collision.{read_tags_grouped-by_name}

-- Three holding registers, two of them side by side and one far away.
abbrev holding : String → ℤ → String → TagSpec
holding name address data_type = record {
  name = name;
  address = address;
  function = "holding_register";
  data_type = data_type;
  tag_group = "";
  id = none;
  device_id = none;
  scale = 4607182418800017408;
  offset = 0;
  enabled = true;
  unit_id = none;
  word_count = none;
  byte_order = "big";
  word_order = "big";
  node_id = none;
}

abbrev level : TagSpec
level = holding "level" (pos 2) "uint16"

abbrev flow : TagSpec
flow = holding "flow" (pos 0) "int32"

abbrev alarm : TagSpec
alarm = holding "alarm" (pos 300) "uint16"

abbrev plan : List ReadBlock
plan =
    block "holding_register" (pos 1) (pos 4) (pos 125) (flow ∷ level ∷ []) (pos 0) (pos 3)
    ∷ block "holding_register" (pos 1) (pos 4) (pos 125) (alarm ∷ []) (pos 300) (pos 301)
    ∷ []

abbrev tags : List TagSpec
tags = level ∷ alarm ∷ flow ∷ []

tags_planned : plan_blocks tags (pos 1) (pos 4) none ≡ ok plan
unfolding plan_blocks plan_groups join_tags group_tags sort_tags insert_tag item_count
    register_count value_count words_per_value get put ◌+ℤ◌ ◌-ℤ◌ ◌*ℤ◌ max_ℤ
tags_planned = refl

plan_blocks-perm_example : Perm (block_tags plan) tags
plan_blocks-perm_example = plan_blocks-perm tags (pos 1) (pos 4) none tags_planned

decode_registers-sent_example :
    decode_registers (sent flow (words 2 (pattern_of 31 (negsuc 41)))) flow ≡ ok (int (negsuc 41))
decode_registers-sent_example =
    decode_registers-sent flow 2 (pattern_of 31 (negsuc 41)) (int (negsuc 41))
      (int32 (negsuc 41) refl (omega arith) (omega arith)) refl

-- Three characters in two registers.
abbrev label : TagSpec
label = record {
  name = "label";
  address = pos 10;
  function = "holding_register";
  data_type = "string";
  tag_group = "";
  id = none;
  device_id = none;
  scale = 4607182418800017408;
  offset = 0;
  enabled = true;
  unit_id = none;
  word_count = some (pos 2);
  byte_order = "little";
  word_order = "little";
  node_id = none;
}

two_registers : label.word_count ≡ some (pos (length (packed label.byte_order (codes "abc"))))
unfolding packed
two_registers = refl

some_register : 0 < length (packed label.byte_order (codes "abc"))
unfolding packed
some_register = omega arith

decode_registers-packed_example :
    decode_registers (sent label (packed "little" (codes "abc"))) label ≡ ok (text "abc")
decode_registers-packed_example =
    decode_registers-packed label "abc" refl
      ((omega arith, omega arith, (omega arith, omega arith, (omega arith, omega arith, tt))))
      some_register two_registers

-- A device that answers each request with the registers 1, 2, 3.
abbrev plc : DeviceSpec
plc = record {
  id = some (pos 7);
  name = "plc";
  driver_type = "modbus_tcp";
  enabled = true;
  poll_interval_ms = pos 1000;
  device_group = "";
  connection = [];
}

abbrev arithmetic : Floats
arithmetic = record { of_int = λ n. pos_part n; times = λ a b. a; plus = λ a b. a }

abbrev answers : ℕ → ReadBlock → Reply
answers i b = response (record { failure = none; registers = 1 ∷ 2 ∷ 3 ∷ []; bits = [] })

abbrev clock : ℕ → ℕ
clock i = 1000 * i

-- The level in another tag group.
abbrev level_two : TagSpec
level_two = holding "level" (pos 3) "uint16"

abbrev read : String → ℤ → ℕ → ℕ → TagResult
read name address value timestamp = record {
  name = name;
  address = address;
  value = float value;
  quality = good;
  error = none;
  timestamp = timestamp;
  node_id = none;
  tag_group = "";
}

plc_answered :
    read_tags_grouped arithmetic clock (some answers) plc (level ∷ alarm ∷ [])
    ≡ ok (read "level" (pos 2) 1 0 ∷ read "alarm" (pos 300) 1 1000 ∷ [])
unfolding read_tags_grouped read_blocks read_block decode_register_block put_each register_value
    update results_of decode_registers decode_single_register_value apply_word_order
    registers_to_int apply_scale slice plan_blocks plan_groups join_tags group_tags sort_tags
    insert_tag item_count register_count value_count words_per_value max_counts_from_connection
    positive_int get put ◌+ℤ◌ ◌-ℤ◌ ◌*ℤ◌ max_ℤ min_ℤ
plc_answered = refl

read_tags_grouped-names_example :
    map (λ r. r.name) (read "level" (pos 2) 1 0 ∷ read "alarm" (pos 300) 1 1000 ∷ [])
    ≡ map (λ t. t.name) (level ∷ alarm ∷ [])
read_tags_grouped-names_example =
    read_tags_grouped-names arithmetic clock (some answers) plc (level ∷ alarm ∷ []) plc_answered

-- Two tags of one name: both get what was read for the second.
plc_answered_twice :
    read_tags_grouped arithmetic clock (some answers) plc (level ∷ level_two ∷ [])
    ≡ ok (read "level" (pos 3) 2 0 ∷ read "level" (pos 3) 2 0 ∷ [])
unfolding read_tags_grouped read_blocks read_block decode_register_block put_each register_value
    update results_of decode_registers decode_single_register_value apply_word_order
    registers_to_int apply_scale slice plan_blocks plan_groups join_tags group_tags sort_tags
    insert_tag item_count register_count value_count words_per_value max_counts_from_connection
    positive_int get put ◌+ℤ◌ ◌-ℤ◌ ◌*ℤ◌ max_ℤ min_ℤ
plc_answered_twice = refl

read_tags_grouped-by_name_example :
    (result : String → TagResult) × ((read "level" (pos 3) 2 0 ∷ read "level" (pos 3) 2 0 ∷ [])
      ≡ map (λ t. result t.name) (level ∷ level_two ∷ []))
read_tags_grouped-by_name_example =
    read_tags_grouped-by_name arithmetic clock answers plc (level ∷ level_two ∷ [])
      plc_answered_twice

-- A tag of a Modbus device, and one whose unit is none.
validate_tag-accepted_example :
    (validate_tag "modbus_tcp" level ≡ ok tt)
    ↔ ((strip level.name ≢ "") × IsCommon level × Fits "modbus_tcp" level)
validate_tag-accepted_example = validate_tag-accepted "modbus_tcp" level

level_valid : validate_tag "modbus_tcp" level ≡ ok tt
unfolding validate_tag validate_modbus_tag validate_common_tag_fields raise_first strip
level_valid = refl

unit_refused :
    validate_tag "modbus_tcp" (record level { unit_id = some (pos 248) })
    ≡ err (value_error "tag unit_id must be between 1 and 247")
unfolding validate_tag validate_modbus_tag validate_common_tag_fields raise_first strip
unit_refused = refl

registers-IsKnown : IsKnown default_max_counts "holding_register"
unfolding get
registers-IsKnown = λ e. cc e

plan_blocks-total_example :
    (blocks : List ReadBlock) × (plan_blocks tags (pos 1) (pos 4) none ≡ ok blocks)
    × Perm (block_tags blocks) tags
plan_blocks-total_example =
    plan_blocks-total tags (pos 1) (pos 4) none
      (registers-IsKnown, (registers-IsKnown, (registers-IsKnown, tt)))

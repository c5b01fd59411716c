-- ===== src/Modbus/Blocks.antt =====
-- drivers/modbus.py, `_plan_blocks`: tags are grouped by function and unit, sorted by address, and
-- joined into read requests as long as the gap and the size of the request allow it.
use iot_gathering.Common.{
  String, ℤ, pos, ◌+ℤ◌, ◌-ℤ◌, ◌*ℤ◌, max_ℤ, min_ℤ, ltb_ℤ, leb_ℤ, Bool, ◌&&◌, ◌||◌, Option, none,
  some, List, [], ◌∷◌, ◌++◌, ◌==◌, if◌then◌else◌, string_eq, int_eq, pair_eq,
}
use iot_gathering.Common.Json.{Json, null, to_int}
use iot_gathering.Common.Dict.{Dict, get, put}
use iot_gathering.Common.Result.{
  value_error, key_error, int_error, Result, ok, err, ◌>>=◌, found_or,
}
use iot_gathering.Models.{TagSpec}

abbrev pub max_register_read_count : ℤ
max_register_read_count = pos 125

abbrev pub max_bit_read_count : ℤ
max_bit_read_count = pos 2000

-- `value or default` of an optional integer: 0 counts as missing.
abbrev pub int_or : Option ℤ → ℤ → ℤ
int_or none d = d
int_or (some n) d = if int_eq.beq n (pos 0) then d else n

pub record ReadBlock : Type 0 where
  pub function : String
  pub unit_id : ℤ
  pub start : ℤ
  pub count : ℤ
  pub tags : List TagSpec

unfoldable pub words_per_value : TagSpec → ℤ
words_per_value tag =
    if tag.data_type == "float64"
    then pos 4
    else if tag.data_type == "int32" || tag.data_type == "uint32" || tag.data_type == "float32"
    then pos 2
    else pos 1

unfoldable pub value_count : TagSpec → ℤ
value_count tag = int_or tag.word_count (pos 1)

unfoldable pub register_count : TagSpec → ℤ
unfolding words_per_value value_count ◌*ℤ◌
register_count tag =
    if tag.data_type == "string"
    then int_or tag.word_count (pos 1)
    else words_per_value tag *ℤ value_count tag

unfoldable pub item_count : TagSpec → ℤ
unfolding register_count
item_count tag =
    if tag.function == "coil" || tag.function == "discrete_input"
    then value_count tag
    else register_count tag

abbrev pub GroupKey : Type 0
GroupKey = String × ℤ

abbrev pub group_key : ℤ → TagSpec → GroupKey
group_key default_unit_id tag = (tag.function, int_or tag.unit_id default_unit_id)

abbrev pub or_nil : Option (List TagSpec) → List TagSpec
or_nil none = []
or_nil (some tags) = tags

-- `grouped[key].append(tag)`
abbrev pub append_tag : ℤ → Dict GroupKey (List TagSpec) → TagSpec → Dict GroupKey (List TagSpec)
append_tag unit grouped tag =
    let key = group_key unit tag in put grouped key (or_nil (get grouped key) ++ tag ∷ [])

-- The first loop.
unfoldable pub group_tags :
    ℤ → Dict GroupKey (List TagSpec) → List TagSpec → Dict GroupKey (List TagSpec)
group_tags default_unit_id grouped [] = grouped
group_tags default_unit_id grouped (tag ∷ tags) =
    group_tags default_unit_id (append_tag default_unit_id grouped tag) tags

-- `sorted(tags, key=lambda tag: tag.address)`, which is stable.
unfoldable pub insert_tag : TagSpec → List TagSpec → List TagSpec
insert_tag tag [] = tag ∷ []
insert_tag tag (t ∷ ts) =
    let rest = insert_tag tag ts in if leb_ℤ tag.address t.address then tag ∷ t ∷ ts else t ∷ rest

unfoldable pub sort_tags : List TagSpec → List TagSpec
unfolding insert_tag
sort_tags [] = []
sort_tags (tag ∷ tags) = insert_tag tag (sort_tags tags)

module _ (function : String) (unit_id max_block_gap max_count : ℤ) where
  abbrev pub block : List TagSpec → ℤ → ℤ → ReadBlock
  block current start stop = record {
    function = function;
    unit_id = unit_id;
    start = start;
    count = stop -ℤ start;
    tags = current;
  }

  -- The test of the loop: `tag` may join the block from `start` to `stop`.
  abbrev pub joins : ℤ → ℤ → TagSpec → Bool
  joins start stop tag =
      leb_ℤ tag.address (stop +ℤ max_block_gap)
      && leb_ℤ (max_ℤ stop (tag.address +ℤ item_count tag) -ℤ start) max_count

  -- The loop over the sorted tags of a group, from the open block `current`, with the last `append`.
  unfoldable pub join_tags : List TagSpec → ℤ → ℤ → List TagSpec → List ReadBlock
  join_tags [] start stop [] = []
  join_tags (c ∷ cs) start stop [] = block (c ∷ cs) start stop ∷ []
  join_tags [] start stop (tag ∷ tags) =
      join_tags (tag ∷ []) tag.address (tag.address +ℤ item_count tag) tags
  join_tags (c ∷ cs) start stop (tag ∷ tags) =
      let tag_end = tag.address +ℤ item_count tag in
      let joined = join_tags ((c ∷ cs) ++ tag ∷ []) start (max_ℤ stop tag_end) tags in
      let fresh = join_tags (tag ∷ []) tag.address tag_end tags in
      if joins start stop tag then joined else block (c ∷ cs) start stop ∷ fresh

-- The second loop: over the groups, `max_counts[function]` raising a KeyError.
unfoldable pub plan_groups :
    ℤ → Dict String ℤ → Dict GroupKey (List TagSpec) → Result (List ReadBlock)
unfolding join_tags
plan_groups gap max_counts [] = ok []
plan_groups gap max_counts (((function, unit_id), tags) ∷ groups) = do
  max_count ← found_or (get max_counts function) (key_error function)
  rest ← plan_groups gap max_counts groups
  ok (join_tags function unit_id gap max_count [] (pos 0) (pos 0) (sort_tags tags) ++ rest)

abbrev pub default_max_counts : Dict String ℤ
default_max_counts =
    ("holding_register", max_register_read_count)
    ∷ ("input_register", max_register_read_count)
    ∷ ("coil", max_bit_read_count)
    ∷ ("discrete_input", max_bit_read_count)
    ∷ []

-- `max_counts or {…}`
abbrev pub counts_or_default : Option (Dict String ℤ) → Dict String ℤ
counts_or_default none = default_max_counts
counts_or_default (some []) = default_max_counts
counts_or_default (some (c ∷ cs)) = c ∷ cs

unfoldable pub plan_blocks : List TagSpec → ℤ → ℤ → Option (Dict String ℤ) → Result (List ReadBlock)
plan_blocks tags default_unit_id max_block_gap max_counts =
    plan_groups max_block_gap (counts_or_default max_counts) (group_tags default_unit_id [] tags)

-- `connection.get(key)` is `None` where the key is missing.
unfoldable pub positive_int : Option Json → ℤ → Result ℤ
positive_int none default = ok default
positive_int (some null) default = ok default
positive_int (some value) default = elim (to_int value) [
  | none ↦ err (int_error value)
  | some parsed ↦
      if ltb_ℤ parsed (pos 1)
      then err (value_error "Modbus read limit must be at least 1")
      else ok parsed
]

unfoldable pub max_counts_from_connection : Dict String Json → Result (Dict String ℤ)
max_counts_from_connection connection = do
  registers ← positive_int (get connection "max_registers_per_read") max_register_read_count
  bits ← positive_int (get connection "max_bits_per_read") max_bit_read_count
  let register_limit = min_ℤ registers max_register_read_count
  let bit_limit = min_ℤ bits max_bit_read_count
  ok (
      ("holding_register", register_limit)
      ∷ ("input_register", register_limit)
      ∷ ("coil", bit_limit)
      ∷ ("discrete_input", bit_limit)
      ∷ [])

-- ===== src/Models/Accepted.antt =====
-- models.py: the tags that `validate_tag` accepts, described without its tests.
use mathlib.Core.Logic.{◌≢◌}
use iot_gathering.Common.{
  String, ℤ, pos, Bool, true, false, not, if◌then◌else◌, ◌&&◌, Option, none, some, List, [], ◌∷◌,
  ◌≡◌, refl, ◌==◌, ◌^◌, ℕ, arith, string_eq, ◌≤ℤ◌, ◌⊎◌, ◌↔◌, inl, inr, Bool-cases,
}
use iot_gathering.Common.Text.{is_empty, strip}
use iot_gathering.Common.Json.{float_is_zero}
use iot_gathering.Common.Result.{
  Error, AllFalse, ok, ◌>>◌, raise_first, raise_first-AllFalse, AllFalse-raise_first, >>-ok,
}
use iot_gathering.Models.Defs.{TagSpec}
use iot_gathering.Models.Validation.{
  is_blank, is_one_of, modbus_functions, data_types, orders, lacks_count, has_low_count,
  has_bad_unit, lacks_node, common_checks, validate_common_tag_fields, modbus_checks,
  validate_modbus_tag, validate_opcua_tag, validate_mqtt_tag, validate_tag,
}

abbrev pub IsOneOf : String → List String → Type 0
IsOneOf s [] = ⊥
IsOneOf s (t ∷ texts) = (s ≡ t) ⊎ IsOneOf s texts

-- A count, if any, is at least one.
abbrev pub IsCount : Option ℤ → Type 0
IsCount none = Unit
IsCount (some n) = pos 1 ≤ℤ n

-- A unit, if any, is one of the addresses of Modbus.
abbrev pub IsUnit : Option ℤ → Type 0
IsUnit none = Unit
IsUnit (some u) = (pos 1 ≤ℤ u) × (u ≤ℤ pos 247)

abbrev pub IsNode : Option String → Type 0
IsNode none = ⊥
IsNode (some s) = strip s ≢ ""

-- What every tag has: a zero is either pattern, +0.0 or -0.0.
pub record IsCommon (tag : TagSpec) : Type 0 where
  pub typed : IsOneOf tag.data_type (
      "auto" ∷ "bool" ∷ "int16" ∷ "uint16" ∷ "int32" ∷ "uint32" ∷ "float32" ∷ "float64" ∷ "string"
      ∷ [])
  pub scaled : (tag.scale ≢ 0) × (tag.scale ≢ 2 ^ 63)
  pub counted : IsCount tag.word_count
  pub sized : tag.data_type ≡ "string" → tag.word_count ≢ none
  pub byte_ordered : IsOneOf tag.byte_order ("big" ∷ "little" ∷ [])
  pub word_ordered : IsOneOf tag.word_order ("big" ∷ "little" ∷ [])

pub record IsRegister (tag : TagSpec) : Type 0 where
  pub addressed : pos 0 ≤ℤ tag.address
  pub known :
      IsOneOf tag.function ("holding_register" ∷ "input_register" ∷ "coil" ∷ "discrete_input" ∷ [])
  pub unit : IsUnit tag.unit_id

-- A tag of OPC UA or MQTT has the one function of its driver type, and a node or a JSON field.
abbrev pub IsField : String → TagSpec → Type 0
IsField function tag = (tag.function ≡ function) × IsNode tag.node_id

-- What a tag of some driver type has.
pub record IsWellFormed (tag : TagSpec) : Type 0 where
  pub named : strip tag.name ≢ ""
  pub common : IsCommon tag
  pub located : IsRegister tag ⊎ (IsField "opcua_node" tag ⊎ IsField "json_field" tag)

-- What a tag of this driver type has: all types but two are read as Modbus.
abbrev pub Fits : String → TagSpec → Type 0
Fits driver_type tag =
    ((driver_type ≡ "opcua") × IsField "opcua_node" tag)
    ⊎ ((driver_type ≡ "mqtt") × IsField "json_field" tag)
    ⊎ ((driver_type ≢ "opcua") × (driver_type ≢ "mqtt") × IsRegister tag)

is_one_of-IsOneOf :
    (s : String) (texts : List String) → (is_one_of s texts ≡ true) ↔ IsOneOf s texts
is_one_of-IsOneOf s [] = (λ h. absurd (cc h), λ h. absurd h)
is_one_of-IsOneOf s (t ∷ texts) = ground (arith, string_eq.beq_iff s t, is_one_of-IsOneOf s texts)

has_low_count-IsCount : (o : Option ℤ) → (has_low_count o ≡ false) ↔ IsCount o
has_low_count-IsCount none = (λ h. tt, λ h. refl)
has_low_count-IsCount (some n) = ground arith

has_bad_unit-IsUnit : (o : Option ℤ) → (has_bad_unit o ≡ false) ↔ IsUnit o
has_bad_unit-IsUnit none = (λ h. tt, λ h. refl)
has_bad_unit-IsUnit (some n) = ground arith

is_empty-nothing : (s : String) → (is_empty s ≡ false) ↔ (s ≢ "")
is_empty-nothing String.[] = (λ h. absurd (cc h), λ h. absurd (h refl))
is_empty-nothing (String.◌∷◌ c s) = (λ h k. cc k, λ h. refl)

is_blank-empty : (s : String) → (is_blank s ≡ false) ↔ (strip s ≢ "")
is_blank-empty s = is_empty-nothing (strip s)

lacks_node-IsNode : (o : Option String) → (lacks_node o ≡ false) ↔ IsNode o
unfolding strip
lacks_node-IsNode none = (λ h. absurd (cc h), λ h. absurd h)
lacks_node-IsNode (some String.[]) = (λ h. absurd (cc h), λ h. absurd (h refl))
lacks_node-IsNode (some (String.◌∷◌ c s)) = is_blank-empty (String.◌∷◌ c s)

float_is_zero-patterns : (f : ℕ) → (float_is_zero f ≡ false) ↔ ((f ≢ 0) × (f ≢ 2 ^ 63))
float_is_zero-patterns f = ground arith

lacks_count-none : (o : Option ℤ) → (lacks_count o ≡ false) ↔ (IsCount o × (o ≢ none))
lacks_count-none none = (λ h. absurd (cc h), λ h. absurd (h.1 refl))
lacks_count-none (some n) = (λ h. (ground arith, λ e. cc e), λ h. ground arith)

sized-IsCount :
    (t : String) (o : Option ℤ)
    → ((t == "string" && lacks_count o ≡ false) × (not (t == "string") && has_low_count o ≡ false))
      ↔ (IsCount o × (t ≡ "string" → o ≢ none))
sized-IsCount t o = elim (Bool-cases (t == "string")) [
  | inl e ↦ rw e (
    λ h. (((lacks_count-none o).0 h.0).0, λ k. ((lacks_count-none o).0 h.0).1),
    λ h. ((lacks_count-none o).1 (h.0, h.1 ((string_eq.beq_iff t "string").0 e)), refl),
  )
  | inr e ↦ rw e (
    λ h. ((has_low_count-IsCount o).0 h.1, λ k. absurd (cc ((string_eq.beq_iff t "string").1 k))),
    λ h. (refl, (has_low_count-IsCount o).1 h.0),
  )
]

passes : (b : Bool) → (not b ≡ false) ↔ (b ≡ true)
passes b = ground arith

one_passes :
    (s : String) (texts : List String) → (not (is_one_of s texts) ≡ false) ↔ IsOneOf s texts
one_passes s texts = (
  λ h. (is_one_of-IsOneOf s texts).0 ((passes (is_one_of s texts)).0 h),
  λ h. (passes (is_one_of s texts)).1 ((is_one_of-IsOneOf s texts).1 h),
)

same_passes : (s t : String) → (not (s == t) ≡ false) ↔ (s ≡ t)
same_passes s t = (
  λ h. (string_eq.beq_iff s t).0 ((passes (s == t)).0 h),
  λ h. (passes (s == t)).1 ((string_eq.beq_iff s t).1 h),
)

validate_common_tag_fields-IsCommon :
    (tag : TagSpec) → (validate_common_tag_fields tag ≡ ok tt) ↔ IsCommon tag
unfolding validate_common_tag_fields
validate_common_tag_fields-IsCommon tag = (
  λ h.
      let f = raise_first-AllFalse (common_checks tag) h in
      let sized = (sized-IsCount tag.data_type tag.word_count).0 (f.1.1.0, f.1.1.1.0) in
      record {
        typed = (one_passes tag.data_type data_types).0 f.0;
        scaled = (float_is_zero-patterns tag.scale).0 f.1.0;
        counted = sized.0;
        sized = sized.1;
        byte_ordered = (one_passes tag.byte_order orders).0 f.1.1.1.1.0;
        word_ordered = (one_passes tag.word_order orders).0 f.1.1.1.1.1.0;
      },
  λ h.
      let sized = (sized-IsCount tag.data_type tag.word_count).1 (h.counted, h.sized) in
      AllFalse-raise_first (common_checks tag) (
        (one_passes tag.data_type data_types).1 h.typed,
        (
          (float_is_zero-patterns tag.scale).1 h.scaled,
          (
            sized.0,
            (
              sized.1,
              (
                (one_passes tag.byte_order orders).1 h.byte_ordered,
                ((one_passes tag.word_order orders).1 h.word_ordered, tt),
              ),
            ),
          ),
        ),
      ),
)

-- A row of tests in front of the common ones.
tests-IsCommon :
    (tag : TagSpec) (l : List (Bool × Error))
    → ((raise_first l >> validate_common_tag_fields tag) ≡ ok tt) ↔ (AllFalse l × IsCommon tag)
tests-IsCommon tag l = (
  λ h.
      let (own, common) = >>-ok (raise_first l) (validate_common_tag_fields tag) h in
      (raise_first-AllFalse l own, (validate_common_tag_fields-IsCommon tag).0 common),
  λ h. rw (AllFalse-raise_first l h.0) ((validate_common_tag_fields-IsCommon tag).1 h.1),
)

-- Has a name, the common properties, and a place.
abbrev Has : TagSpec → Type 0 → Type 0
Has tag P = (strip tag.name ≢ "") × IsCommon tag × P

validate_modbus_tag-IsRegister :
    (tag : TagSpec) → (validate_modbus_tag tag ≡ ok tt) ↔ Has tag (IsRegister tag)
unfolding validate_modbus_tag
validate_modbus_tag-IsRegister tag = (
  λ h.
      let (f, common) = (tests-IsCommon tag (modbus_checks tag)).0 h in
      (
        (is_blank-empty tag.name).0 f.0,
        common,
        record {
          addressed = ground arith;
          known = (one_passes tag.function modbus_functions).0 f.1.1.0;
          unit = (has_bad_unit-IsUnit tag.unit_id).0 f.1.1.1.0;
        },
      ),
  λ (named, common, place). (tests-IsCommon tag (modbus_checks tag)).1 (
    (
      (is_blank-empty tag.name).1 named,
      (
        ground (arith, place.addressed),
        (
          (one_passes tag.function modbus_functions).1 place.known,
          ((has_bad_unit-IsUnit tag.unit_id).1 place.unit, tt),
        ),
      ),
    ),
    common,
  ),
)

-- The two validations that want a node.
node_tests-IsField :
    (tag : TagSpec) (function : String) (no_name no_function no_node : Error)
    → ((raise_first (
            (is_blank tag.name, no_name)
            ∷ (not (tag.function == function), no_function)
            ∷ (lacks_node tag.node_id, no_node)
            ∷ [])
          >> validate_common_tag_fields tag)
        ≡ ok tt)
      ↔ Has tag (IsField function tag)
node_tests-IsField tag function no_name no_function no_node = (
  λ h.
      let (f, common) = (tests-IsCommon tag _).0 h in
      (
        (is_blank-empty tag.name).0 f.0,
        common,
        ((same_passes tag.function function).0 f.1.0, (lacks_node-IsNode tag.node_id).0 f.1.1.0),
      ),
  λ (named, common, (same, node)). (tests-IsCommon tag _).1 (
    (
      (is_blank-empty tag.name).1 named,
      ((same_passes tag.function function).1 same, ((lacks_node-IsNode tag.node_id).1 node, tt)),
    ),
    common,
  ),
)

validate_opcua_tag-IsField :
    (tag : TagSpec) → (validate_opcua_tag tag ≡ ok tt) ↔ Has tag (IsField "opcua_node" tag)
unfolding validate_opcua_tag
validate_opcua_tag-IsField tag = node_tests-IsField tag "opcua_node" _ _ _

validate_mqtt_tag-IsField :
    (tag : TagSpec) → (validate_mqtt_tag tag ≡ ok tt) ↔ Has tag (IsField "json_field" tag)
unfolding validate_mqtt_tag
validate_mqtt_tag-IsField tag = node_tests-IsField tag "json_field" _ _ _

other_accepted :
    (driver_type : String) (tag : TagSpec)
    → driver_type ≢ "opcua"
    → ((if driver_type == "mqtt" then validate_mqtt_tag tag else validate_modbus_tag tag) ≡ ok tt)
      ↔ ((strip tag.name ≢ "") × IsCommon tag × Fits driver_type tag)
other_accepted driver_type tag no_opcua = elim (Bool-cases (driver_type == "mqtt")) [
  | inl e ↦
      let is_mqtt = (string_eq.beq_iff driver_type "mqtt").0 e in
      rw e (
        λ h.
            let (named, common, place) = (validate_mqtt_tag-IsField tag).0 h in
            (named, common, inr (inl (is_mqtt, place))),
        λ (named, common, fits). elim fits [
          | inl (o, place) ↦ absurd (no_opcua o)
          | inr (inl (m, place)) ↦ (validate_mqtt_tag-IsField tag).1 (named, common, place)
          | inr (inr (o, no_mqtt, place)) ↦ absurd (no_mqtt is_mqtt)
        ],
      )
  | inr m ↦ rw m (
    λ h.
        let (named, common, place) = (validate_modbus_tag-IsRegister tag).0 h in
        (named, common, inr (inr (no_opcua, (λ k. cc), place))),
    λ (named, common, fits). elim fits [
      | inl (o, place) ↦ absurd (no_opcua o)
      | inr (inl (is_mqtt, place)) ↦ cc
      | inr (inr (o, no_mqtt, place)) ↦
          (validate_modbus_tag-IsRegister tag).1 (named, common, place)
    ],
  )
]

-- `validate_tag` accepts exactly the tags that have a name, a known data type, a scale other than zero, a count of
-- at least one if any and one if the type is a string, orders that are big or little, and what the driver type
-- wants: for OPC UA and MQTT its one function and a node that is not blank; for all others one of the four Modbus
-- functions, an address of at least zero and a unit, if any, from 1 to 247.
pub validate_tag-accepted :
    (driver_type : String) (tag : TagSpec)
    → (validate_tag driver_type tag ≡ ok tt)
      ↔ ((strip tag.name ≢ "") × IsCommon tag × Fits driver_type tag)
unfolding validate_tag
validate_tag-accepted driver_type tag = elim (Bool-cases (driver_type == "opcua")) [
  | inl e ↦
      let is_opcua = (string_eq.beq_iff driver_type "opcua").0 e in
      rw e (
        λ h.
            let (named, common, place) = (validate_opcua_tag-IsField tag).0 h in
            (named, common, inl (is_opcua, place)),
        λ (named, common, fits). elim fits [
          | inl (o, place) ↦ (validate_opcua_tag-IsField tag).1 (named, common, place)
          | inr (inl (m, place)) ↦ cc
          | inr (inr (no_opcua, no_mqtt, place)) ↦ absurd (no_opcua is_opcua)
        ],
      )
  | inr n ↦
      let no_opcua : driver_type ≢ "opcua" = λ k. cc in
      rw n (other_accepted driver_type tag no_opcua)
]

pub validate_tag-IsWellFormed :
    (driver_type : String) (tag : TagSpec) → validate_tag driver_type tag ≡ ok tt → IsWellFormed tag
validate_tag-IsWellFormed driver_type tag h =
    let (named, common, fits) = (validate_tag-accepted driver_type tag).0 h in
    record {
      named = named;
      common = common;
      located = elim fits [
        | inl (is_opcua, place) ↦ inr (inl place)
        | inr (inl (is_mqtt, place)) ↦ inr (inr place)
        | inr (inr (no_opcua, no_mqtt, place)) ↦ inl place
      ];
    }

-- ===== src/Store/Tables.antt =====
-- `ConfigStore` over its tables: a table is the rows by id in the order of insertion, with the last id that
-- AUTOINCREMENT gave. SQLite runs a statement whole, with foreign keys on; the JSON of a row's
-- configuration is kept as the value that it is the text of.
use iot_gathering.Common.{
  ℕ, suc, String, ℤ, pos, ltb_ℤ, Bool, true, false, not, ◌&&◌, Option, none, some, List, [], ◌∷◌,
  ◌++◌, any, ◌==◌, if◌then◌else◌, string_eq, int_eq, option_eq,
}
use iot_gathering.Common.Text.{or_text, ◌<>◌}
use iot_gathering.Common.Dict.{Dict, get, remove}
use iot_gathering.Common.Result.{
  Error, value_error, runtime_error, Result, ok, err, ◌>>=◌, ◌>>◌, raise_first,
}
use iot_gathering.Models.{DeviceSpec, TagSpec, MqttConfig, SinkConfig, OutputRouteConfig}
use iot_gathering.Models.Validation.{is_blank, validate_tag}

pub record Store : Type 0 where
  pub devices : Dict ℤ DeviceSpec
  pub last_device : ℕ
  pub tags : Dict ℤ TagSpec
  pub last_tag : ℕ
  pub routes : Dict ℤ OutputRouteConfig
  pub last_route : ℕ
  pub mqtt_config : Option MqttConfig
  pub sink_configs : Dict String SinkConfig
  pub sink_selection : Option String

-- `initialize` on a new file
abbrev pub new_store : Store
new_store = record {
  devices = [];
  last_device = 0;
  tags = [];
  last_tag = 0;
  routes = [];
  last_route = 0;
  mqtt_config = none;
  sink_configs = [];
  sink_selection = none;
}

abbrev pub is_some {ℓ} : {A : Type ℓ} → Option A → Bool
is_some none = false
is_some (some a) = true

-- `UPDATE … WHERE id = ?`
unfoldable pub update_row {ℓ} : {A : Type ℓ} → Dict ℤ A → ℤ → A → Dict ℤ A
update_row [] id row = []
update_row ((j, r) ∷ rows) id row =
    let rest = update_row rows id row in if j == id then (j, row) ∷ rest else (j, r) ∷ rest

-- `_validate_device`
abbrev pub device_checks : DeviceSpec → List (Bool × Error)
device_checks device =
    (is_blank device.name, value_error "device name is required")
    ∷ (is_blank device.driver_type, value_error "device driver_type is required")
    ∷ (
      ltb_ℤ device.poll_interval_ms (pos 100),
      value_error "device poll_interval_ms must be at least 100",
    )
    ∷ []

abbrev pub with_device_id : DeviceSpec → ℤ → DeviceSpec
with_device_id device id = record device { id = some id }

abbrev pub stored_device : Store → DeviceSpec → Option ℤ → Store × ℤ
stored_device s device none = (
  record s {
    devices =
        s.devices
        ++ (pos (suc s.last_device), with_device_id device (pos (suc s.last_device))) ∷ [];
    last_device = suc s.last_device;
  },
  pos (suc s.last_device),
)
stored_device s device (some id) =
    (record s { devices = update_row s.devices id (with_device_id device id) }, id)

unfoldable pub save_device : Store → DeviceSpec → Result (Store × ℤ)
unfolding update_row
save_device s device = do raise_first (device_checks device); ok (stored_device s device device.id)

-- `DELETE FROM devices`, which deletes the tags and routes of the device.
unfoldable pub delete_where {ℓ} : {A : Type ℓ} → (A → Bool) → Dict ℤ A → Dict ℤ A
delete_where test [] = []
delete_where test ((j, r) ∷ rows) =
    let rest = delete_where test rows in if test r then rest else (j, r) ∷ rest

unfoldable pub delete_device : Store → ℤ → Store
unfolding delete_where
delete_device s id = record s {
  devices = remove s.devices id;
  tags = delete_where (λ t. t.device_id == some id) s.tags;
  routes = delete_where (λ r. r.device_id == some id) s.routes;
}

-- `_driver_type_for_device`, with the id of the device
abbrev pub driver_type_for_device : (ℤ → String) → Store → Option ℤ → Result (String × ℤ)
driver_type_for_device id_text s none = err (value_error "tag device_id is required")
driver_type_for_device id_text s (some id) = elim (get s.devices id) [
  | none ↦ err (value_error ("device not found: " <> id_text id))
  | some device ↦ ok (device.driver_type, id)
]

-- The tags that bear one name in one group of a device.
abbrev pub same_name : TagSpec → TagSpec → Bool
same_name a b = a.device_id == b.device_id && a.tag_group == b.tag_group && a.name == b.name

-- `? IS NULL OR id != ?`
abbrev pub is_other : Option ℤ → ℤ → Bool
is_other none id = true
is_other (some own) id = not (id == own)

-- The query of `_validate_unique_tag_name`.
abbrev pub has_conflict : Store → TagSpec → Bool
has_conflict s tag = any (λ p. same_name tag p.1 && is_other tag.id p.0) s.tags

abbrev pub unique_checks : Store → TagSpec → List (Bool × Error)
unique_checks s tag =
    (
      has_conflict s tag,
      value_error (
          "tag name already exists in group '"
          <> or_text tag.tag_group "default"
          <> "': "
          <> tag.name),
    )
    ∷ []

abbrev pub with_tag_id : TagSpec → ℤ → TagSpec
with_tag_id tag id = record tag { id = some id }

abbrev pub stored_tag : Store → TagSpec → Option ℤ → Store × ℤ
stored_tag s tag none = (
  record s {
    tags = s.tags ++ (pos (suc s.last_tag), with_tag_id tag (pos (suc s.last_tag))) ∷ [];
    last_tag = suc s.last_tag;
  },
  pos (suc s.last_tag),
)
stored_tag s tag (some id) = (record s { tags = update_row s.tags id (with_tag_id tag id) }, id)

-- `save_tag`; `id_text` is `str` of an id.
unfoldable pub save_tag : (ℤ → String) → Store → TagSpec → Result (Store × ℤ)
unfolding update_row
save_tag id_text s tag = do
  driver ← driver_type_for_device id_text s tag.device_id
  validate_tag driver.0 tag
  raise_first (unique_checks s tag)
  ok (stored_tag s tag tag.id)

unfoldable pub delete_tag : Store → ℤ → Store
delete_tag s id = record s { tags = remove s.tags id }

-- The foreign key of a route.
abbrev pub has_device : Store → Option ℤ → Bool
has_device s none = true
has_device s (some id) = is_some (get s.devices id)

abbrev pub with_route_id : OutputRouteConfig → ℤ → OutputRouteConfig
with_route_id route id = record route { id = some id }

abbrev pub stored_route : Store → OutputRouteConfig → Option ℤ → Store × ℤ
stored_route s route none = (
  record s {
    routes =
        s.routes ++ (pos (suc s.last_route), with_route_id route (pos (suc s.last_route))) ∷ [];
    last_route = suc s.last_route;
  },
  pos (suc s.last_route),
)
stored_route s route (some id) =
    (record s { routes = update_row s.routes id (with_route_id route id) }, id)

-- An update of no row does not meet the foreign key.
abbrev pub wants_device : Store → OutputRouteConfig → Bool
wants_device s route = elim route.id [ none ↦ true | some id ↦ is_some (get s.routes id) ]

unfoldable pub save_output_route : Store → OutputRouteConfig → Result (Store × ℤ)
unfolding update_row
save_output_route s route = do
  raise_first (
      (
        wants_device s route && not (has_device s route.device_id),
        runtime_error "FOREIGN KEY constraint failed",
      )
      ∷ [])
  ok (stored_route s route route.id)

unfoldable pub delete_output_route : Store → ℤ → Store
delete_output_route s id = record s { routes = remove s.routes id }

-- ===== src/Config/DeviceImports.antt =====
-- `ConfigService`: the imports of devices and tags. The rows in front of one that raises stay imported.
use iot_gathering.Common.{
  ℕ, ◌+◌, ℤ, pos, String, Bool, true, false, not, ◌&&◌, Option, none, some, List, [], ◌∷◌, ◌==◌,
  if◌then◌else◌, string_eq, int_eq, option_eq, pair_eq,
}
use iot_gathering.Common.Text.{is_empty, or_text, strip, text_or, ◌<>◌}
use iot_gathering.Common.Json.{Json, int}
use iot_gathering.Common.Dict.{Dict, get, put}
use iot_gathering.Common.Values.{Conversions, str, int_of}
use iot_gathering.Common.Result.{value_error, Result, ok, err}
use iot_gathering.Models.{DeviceSpec, TagSpec}
use iot_gathering.Store.Tables.{save_device, save_tag, with_device_id}
use iot_gathering.Store.Configs.{list_devices, list_tags}
use iot_gathering.Config.Service.{Service, ◌>>=◌, ◌>>◌, give, read, save}
use iot_gathering.Config.Payloads.{required}
use iot_gathering.Config.Devices.{get_device, id_or_zero}
use iot_gathering.Config.Routes.{csv_bool}
use iot_gathering.Config.Cells.{
  Row, cell, json_cell, stripped, cell_or, csv_connection, tag_from_csv_row,
}
use iot_gathering.Config.Imports.{
  device_import_key, DevicesByKey, devices_by_key, Counts, no_counts, rows_of,
}

-- `_existing_tag_id`
unfoldable pub existing_tag_id : List TagSpec → TagSpec → Option ℤ
existing_tag_id [] imported = none
existing_tag_id (t ∷ tags) imported =
    let rest = existing_tag_id tags imported in
    if t.tag_group == imported.tag_group && t.name == imported.name then t.id else rest

abbrev pub tag_of_device : ℤ → TagSpec → Option ℤ → TagSpec
tag_of_device device_id tag id = record tag { id = id; device_id = some device_id }

-- `_upsert_tag`
unfoldable pub upsert_tag : (ℤ → String) → ℤ → TagSpec → Service ℤ
unfolding existing_tag_id
upsert_tag id_text device_id tag = save (λ s.
    save_tag id_text s (tag_of_device device_id tag (existing_tag_id (list_tags s device_id) tag)))

-- `_validate_same_device_config`
abbrev pub is_same_device : Conversions → DeviceSpec → DeviceSpec → Bool
is_same_device c a b =
    a.driver_type == b.driver_type
    && (if a.enabled then b.enabled else not b.enabled)
    && a.poll_interval_ms == b.poll_interval_ms
    && c.equal a.connection b.connection

abbrev pub same_device_config : Conversions → DeviceSpec → DeviceSpec → Result (Unit {0})
same_device_config c existing imported =
    if is_same_device c existing imported
    then ok tt
    else err (
        value_error (
          "device '"
          <> imported.name
          <> "' in group '"
          <> or_text imported.device_group "default"
          <> "' already exists with different connection/settings"))

abbrev pub device_of_row : Conversions → Row → String → ℤ → Dict String Json → DeviceSpec
device_of_row c row driver_type interval connection = record {
  id = none;
  name = strip (text_or (cell row "device_name") (text_or (cell row "name") ""));
  driver_type = driver_type;
  enabled = csv_bool c (json_cell row "enabled") true;
  poll_interval_ms = interval;
  device_group = stripped row "device_group" "";
  connection = connection;
}

-- The driver of a device that `get_device` gives.
abbrev pub driver_of : Conversions → Dict String Json → Result String
driver_of c device = elim (required device "driver_type") [ err e ↦ err e | ok v ↦ ok (str c v) ]

module _ (c : Conversions) (id_text : ℤ → String) where
  -- The device of a row, with whether it is new and the devices by key after it.
  abbrev pub known_device :
      DevicesByKey → DeviceSpec → Option DeviceSpec → Service (DeviceSpec × Bool × DevicesByKey)
  known_device devices device none = do
    id ← save (λ s. save_device s device)
    give (
        ok (
          with_device_id device id,
          true,
          put devices (device_import_key device) (with_device_id device id),
        ))
  known_device devices device (some existing) = do
    give (same_device_config c existing device)
    give (ok (existing, false, devices))

  abbrev pub import_row_tag : Row → DeviceSpec → Service Bool
  import_row_tag row existing =
      if is_empty (stripped row "tag_name" "") then give (ok false) else (do
        tag ← give (tag_from_csv_row c row existing.driver_type "tag_name")
        upsert_tag id_text (id_or_zero existing.id) tag
        give (ok true))

  abbrev pub one_if : Bool → ℕ
  one_if b = if b then 1 else 0

  abbrev pub read_device : Row → String → Result DeviceSpec
  read_device row driver_type =
      elim (int_of (cell_or (cell row "poll_interval_ms") (int (pos 1000)))) [
        | err e ↦ err e
        | ok interval ↦ elim (csv_connection c driver_type row) [
          | err e ↦ err e
          | ok connection ↦ ok (device_of_row c row driver_type interval connection)
        ]
      ]

  -- A row of `import_devices_csv`.
  unfoldable pub import_device_row : Row → DevicesByKey → Service (DevicesByKey × Bool × Bool)
  import_device_row row devices = do
    device ← give (read_device row (stripped row "driver_type" "modbus_tcp"))
    known ← known_device devices device (get devices (device_import_key device))
    with_tag ← import_row_tag row known.0
    give (ok (known.2, known.1, with_tag))

  unfoldable pub import_device_rows : DevicesByKey → Counts → List Row → Service Counts
  import_device_rows devices counts [] = give (ok counts)
  import_device_rows devices counts (row ∷ rows) = do
    after ← import_device_row row devices
    import_device_rows after.0
        (record counts {
          devices = counts.devices + one_if after.1;
          tags = counts.tags + one_if after.2;
        })
        rows

  unfoldable pub import_devices_csv : Option (List Row) → Service Counts
  import_devices_csv table = do
    devices ← read (λ s. devices_by_key [] (list_devices s))
    rows ← give (rows_of table)
    import_device_rows devices no_counts rows

  unfoldable pub import_tag_rows : ℤ → String → ℕ → List Row → Service ℕ
  import_tag_rows device_id driver_type imported [] = give (ok imported)
  import_tag_rows device_id driver_type imported (row ∷ rows) = do
    tag ← give (tag_from_csv_row c row driver_type "name")
    upsert_tag id_text device_id tag
    import_tag_rows device_id driver_type (imported + 1) rows

  unfoldable pub import_tags_csv : ℤ → Option (List Row) → Service Counts
  import_tags_csv device_id table = do
    device ← get_device c id_text device_id
    rows ← give (rows_of table)
    driver_type ← give (driver_of c device)
    imported ← import_tag_rows device_id driver_type 0 rows
    give (ok (record no_counts { tags = imported }))

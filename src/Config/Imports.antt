-- ===== src/Config/Imports.antt =====
-- `ConfigService`: the imports of plugins and routes. A table is the rows below the header, none where there is no header.
-- The rows in front of one that raises stay imported.
use iot_gathering.Common.{
  ℕ, ◌+◌, ℤ, String, true, false, not, ◌&&◌, Option, none, some, List, [], ◌∷◌, ◌++◌, keep, ◌==◌,
  if◌then◌else◌, string_eq, int_eq, option_eq, pair_eq,
}
use iot_gathering.Common.Text.{is_empty, or_text, lower, ◌<>◌}
use iot_gathering.Common.Json.{Json}
use iot_gathering.Common.Dict.{Dict, get, put}
use iot_gathering.Common.Values.{Conversions}
use iot_gathering.Common.Result.{value_error, Result, ok, err}
use iot_gathering.Models.{DeviceSpec, SinkConfig, OutputRouteConfig}
use iot_gathering.Store.Tables.{Store, save_output_route as store_route}
use iot_gathering.Store.Configs.{
  list_devices, list_output_routes as stored_routes, save_sink_config as store_sink,
}
use iot_gathering.Config.Service.{Service, ◌>>=◌, ◌>>◌, give, read, save, change}
use iot_gathering.Config.Routes.{csv_bool, route_config}
use iot_gathering.Config.Cells.{Row, json_cell, stripped, json_row, csv_plugin_config}

-- `_device_import_key`
abbrev pub device_import_key : DeviceSpec → String × String
device_import_key d = (d.device_group, d.name)

abbrev pub DevicesByKey : Type 0
DevicesByKey = Dict (String × String) DeviceSpec

unfoldable pub devices_by_key : DevicesByKey → List DeviceSpec → DevicesByKey
unfolding put
devices_by_key found [] = found
devices_by_key found (d ∷ devices) = devices_by_key (put found (device_import_key d) d) devices

-- `_csv_route_device_id`
abbrev pub found_device_id : String → String → Option DeviceSpec → Result (Option ℤ)
found_device_id group name (some d) = ok d.id
found_device_id group name none = err (
    value_error
      ("route device '" <> name <> "' in group '" <> or_text group "default" <> "' does not exist"))

abbrev pub csv_route_device_id : Row → DevicesByKey → Result (Option ℤ)
csv_route_device_id row devices =
    let name = stripped row "device_name" "" in
    let group = stripped row "device_group" "" in
    if stripped row "route_kind" "" == "system_heartbeat"
    then ok none
    else if is_empty name
    then ok none
    else found_device_id group name (get devices (group, name))

-- `_existing_route_id`
abbrev pub existing_route_id :
    List OutputRouteConfig → Option ℤ → (tag_group sink_type : String) → Option ℤ
existing_route_id [] device_id tag_group sink_type = none
existing_route_id (r ∷ routes) device_id tag_group sink_type =
    let rest = existing_route_id routes device_id tag_group sink_type in
    if r.device_id == device_id && r.tag_group == tag_group && r.sink_type == sink_type
    then r.id
    else rest

-- `existing_routes` after a row: the route that was saved moves to the end.
abbrev pub routes_after : Store → List OutputRouteConfig → ℤ → List OutputRouteConfig
routes_after s routes id =
    keep (λ r. not (r.id == some id)) routes ++ keep (λ r. r.id == some id) (stored_routes s)

-- What an import counts.
pub record Counts : Type 0 where
  pub devices : ℕ
  pub tags : ℕ
  pub plugins : ℕ
  pub routes : ℕ

abbrev pub no_counts : Counts
no_counts = record { devices = 0; tags = 0; plugins = 0; routes = 0 }

abbrev pub rows_of : Option (List Row) → Result (List Row)
rows_of none = err (value_error "CSV header is required")
rows_of (some rows) = ok rows

module _ (c : Conversions) (id_text : ℤ → String) where
  -- `_import_plugin_route_row`
  unfoldable pub import_plugin_route_row : Row → DevicesByKey → List OutputRouteConfig → Service ℤ
  import_plugin_route_row row devices routes = do
    device_id ← give (csv_route_device_id row devices)
    config ← give (route_config c [] (json_row row))
    save (λ s. store_route s (record {
      id =
          existing_route_id routes device_id (stripped row "tag_group" "")
            (stripped row "sink_type" "mqtt");
      device_id = device_id;
      tag_group = stripped row "tag_group" "";
      sink_type = stripped row "sink_type" "mqtt";
      enabled = csv_bool c (json_cell row "enabled") true;
      config = config;
    }))

  unfoldable pub import_route_rows :
      DevicesByKey → List OutputRouteConfig → ℕ → List Row → Service ℕ
  import_route_rows devices routes imported [] = give (ok imported)
  import_route_rows devices routes imported (row ∷ rows) = do
    id ← import_plugin_route_row row devices routes
    after ← read (λ s. routes_after s routes id)
    import_route_rows devices after (imported + 1) rows

  unfoldable pub import_plugin_routes_csv : Option (List Row) → Service Counts
  import_plugin_routes_csv table = do
    rows ← give (rows_of table)
    devices ← read (λ s. devices_by_key [] (list_devices s))
    routes ← read stored_routes
    imported ← import_route_rows devices routes 0 rows
    give (ok (record no_counts { routes = imported }))

  abbrev pub plugin_of_row : Row → Dict String Json → SinkConfig
  plugin_of_row row config = record {
    sink_type = stripped row "sink_type" "mqtt";
    enabled = csv_bool c (json_cell row "enabled") true;
    config = config;
  }

  abbrev pub selected_after : Row → SinkConfig → Option SinkConfig → Option SinkConfig
  selected_after row config selected =
      if csv_bool c (json_cell row "selected") false then some config else selected

  -- A row of a plugin, which becomes the selected one for now; it gives the one to select at the end.
  abbrev pub import_plugin_row : Row → Option SinkConfig → Service (Option SinkConfig)
  import_plugin_row row selected = do
    config ← give (csv_plugin_config c (stripped row "sink_type" "mqtt") row)
    change (λ s. store_sink s (plugin_of_row row config))
    give (ok (selected_after row (plugin_of_row row config) selected))

  unfoldable pub import_plugin_rows :
      DevicesByKey
      → List OutputRouteConfig
      → Option SinkConfig
      → Counts
      → List Row
      → Service (Counts × Option SinkConfig)
  import_plugin_rows devices routes selected counts [] = give (ok (counts, selected))
  import_plugin_rows devices routes selected counts (row ∷ rows) =
      if lower (stripped row "record_type" "plugin") == "route"
      then (do
        id ← import_plugin_route_row row devices routes
        after ← read (λ s. routes_after s routes id)
        import_plugin_rows devices after selected (record counts { routes = counts.routes + 1 })
            rows)
      else (do
        later ← import_plugin_row row selected
        import_plugin_rows devices routes later (record counts { plugins = counts.plugins + 1 })
            rows)

  abbrev pub select_last : Option SinkConfig → Service (Unit {0})
  select_last none = give (ok tt)
  select_last (some config) = change (λ s. store_sink s config)

  unfoldable pub import_plugins_csv : Option (List Row) → Service Counts
  import_plugins_csv table = do
    rows ← give (rows_of table)
    devices ← read (λ s. devices_by_key [] (list_devices s))
    routes ← read stored_routes
    counts ← import_plugin_rows devices routes none no_counts rows
    select_last counts.1
    give (ok counts.0)

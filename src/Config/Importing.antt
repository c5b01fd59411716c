-- ===== src/Config/Importing.antt =====
-- The imports of `ConfigService` and the refresh of topics, as operations of `ConfigStore`.
use iot_gathering.Common.{
  ℤ, ℕ, ◌+◌, String, Bool, true, false, Option, none, some, List, [], ◌∷◌, ◌++◌, if◌then◌else◌,
  string_eq,
}
use iot_gathering.Common.Values.{Conversions}
use iot_gathering.Models.{DeviceSpec, TagSpec, SinkConfig, OutputRouteConfig}
use iot_gathering.Store.Consistent.{saves_sink}
use iot_gathering.Config.Service.{Service}
use iot_gathering.Config.Resolving.{
  Resolver, Resolved, find_route, resolve_output_route_topic, refresh_route, refresh_routes,
  refresh_dynamic_output_route_topics,
}
use iot_gathering.Config.Cells.{Row}
use iot_gathering.Config.Imports.{
  DevicesByKey, Counts, import_plugin_route_row, import_route_rows, import_plugin_routes_csv,
  import_plugin_row, import_plugin_rows, select_last, import_plugins_csv,
}
use iot_gathering.Config.DeviceImports.{
  upsert_tag, known_device, import_row_tag, import_device_row, import_device_rows,
  import_devices_csv, import_tag_rows, import_tags_csv,
}
use iot_gathering.Config.Refining.{list_output_routes-Keeps, get_device-Keeps}
use iot_gathering.Config.Keeping.{
  Keeps, >>=-Keeps, >>-Keeps, give-Keeps, same-Keeps, read-Keeps, change-Keeps, save_device-Keeps,
  save_tag-Keeps, save_output_route-Keeps,
}

-- A test, in the two branches.
if-Keeps {ℓ} :
    {A : Type ℓ} (id_text : ℤ → String) (b : Bool) (m k : Service A)
    → Keeps id_text m
    → Keeps id_text k
    → Keeps id_text (if b then m else k)
if-Keeps id_text true m k h g = h
if-Keeps id_text false m k h g = g

module _ (c : Conversions) (id_text : ℤ → String) where
  module _ (resolver : Resolver) (now : String) where
    find_route-Keeps : (id : ℤ) → Keeps id_text (find_route c id_text resolver now id)
    find_route-Keeps id = same-Keeps id_text _

    pub resolve-Keeps :
        (id : ℤ) → Keeps id_text (resolve_output_route_topic c id_text resolver now id)
    unfolding resolve_output_route_topic
    resolve-Keeps id = >>=-Keeps id_text (find_route-Keeps id) (λ route.
        >>=-Keeps id_text (give-Keeps id_text _) (λ config.
          >>=-Keeps id_text (give-Keeps id_text _) (λ mac.
            >>=-Keeps id_text (read-Keeps id_text _) (λ answer.
              >>-Keeps id_text (save_output_route-Keeps id_text _) (
                >>=-Keeps id_text (list_output_routes-Keeps c id_text) (λ rows.
                  >>=-Keeps id_text (give-Keeps id_text _) (λ row. give-Keeps id_text _)))))))

    refresh_route-Keeps :
        (route : OutputRouteConfig) → Keeps id_text (refresh_route c id_text resolver now route)
    refresh_route-Keeps route = >>=-Keeps id_text (give-Keeps id_text _) (λ config.
        if-Keeps id_text _ _ _ (>>=-Keeps id_text (resolve-Keeps _) (λ r. give-Keeps id_text _))
          (give-Keeps id_text _))

    refresh_routes-Keeps :
        (routes : List OutputRouteConfig) (results : List Resolved)
        → Keeps id_text (refresh_routes c id_text resolver now routes results)
    unfolding refresh_routes
    refresh_routes-Keeps [] results = give-Keeps id_text _
    refresh_routes-Keeps (route ∷ routes) results =
        >>=-Keeps id_text (refresh_route-Keeps route)
          (λ result. refresh_routes-Keeps routes (results ++ result))

    pub refresh-Keeps : Keeps id_text (refresh_dynamic_output_route_topics c id_text resolver now)
    unfolding refresh_dynamic_output_route_topics
    refresh-Keeps =
        >>=-Keeps id_text (read-Keeps id_text _) (λ routes. refresh_routes-Keeps routes [])

  import_route-Keeps :
      (row : Row) (devices : DevicesByKey) (routes : List OutputRouteConfig)
      → Keeps id_text (import_plugin_route_row c id_text row devices routes)
  unfolding import_plugin_route_row
  import_route-Keeps row devices routes = >>=-Keeps id_text (give-Keeps id_text _) (λ device_id.
      >>=-Keeps id_text (give-Keeps id_text _) (λ config. save_output_route-Keeps id_text _))

  import_routes-Keeps :
      (devices : DevicesByKey) (routes : List OutputRouteConfig) (n : ℕ) (rows : List Row)
      → Keeps id_text (import_route_rows c id_text devices routes n rows)
  unfolding import_route_rows
  import_routes-Keeps devices routes n [] = give-Keeps id_text _
  import_routes-Keeps devices routes n (row ∷ rows) =
      >>=-Keeps id_text (import_route-Keeps row devices routes) (λ id.
        >>=-Keeps id_text (read-Keeps id_text _)
          (λ later. import_routes-Keeps devices later (n + 1) rows))

  pub import_plugin_routes-Keeps :
      (table : Option (List Row)) → Keeps id_text (import_plugin_routes_csv c id_text table)
  unfolding import_plugin_routes_csv
  import_plugin_routes-Keeps table = >>=-Keeps id_text (give-Keeps id_text _) (λ rows.
      >>=-Keeps id_text (read-Keeps id_text _) (λ devices.
        >>=-Keeps id_text (read-Keeps id_text _) (λ routes.
          >>=-Keeps id_text (import_routes-Keeps devices routes 0 rows)
            (λ n. give-Keeps id_text _))))

  import_plugin-Keeps :
      (row : Row) (selected : Option SinkConfig)
      → Keeps id_text (import_plugin_row c id_text row selected)
  import_plugin-Keeps row selected = >>=-Keeps id_text (give-Keeps id_text _) (λ config.
      >>-Keeps id_text (change-Keeps id_text _ (λ s. saves_sink _)) (give-Keeps id_text _))

  import_rows-Keeps :
      (devices : DevicesByKey) (routes : List OutputRouteConfig) (selected : Option SinkConfig)
      (counts : Counts) (rows : List Row)
      → Keeps id_text (import_plugin_rows c id_text devices routes selected counts rows)
  unfolding import_plugin_rows
  import_rows-Keeps devices routes selected counts [] = give-Keeps id_text _
  import_rows-Keeps devices routes selected counts (row ∷ rows) =
      if-Keeps id_text _ _ _
        (>>=-Keeps id_text (import_route-Keeps row devices routes) (λ id.
          >>=-Keeps id_text (read-Keeps id_text _) (λ later.
            import_rows-Keeps devices later selected (record counts { routes = counts.routes + 1 })
              rows)))
        (>>=-Keeps id_text (import_plugin-Keeps row selected) (λ later.
          import_rows-Keeps devices routes later (record counts { plugins = counts.plugins + 1 })
            rows))

  select_last-Keeps : (o : Option SinkConfig) → Keeps id_text (select_last c id_text o)
  select_last-Keeps none = give-Keeps id_text _
  select_last-Keeps (some config) = change-Keeps id_text _ (λ s. saves_sink _)

  pub import_plugins-Keeps :
      (table : Option (List Row)) → Keeps id_text (import_plugins_csv c id_text table)
  unfolding import_plugins_csv
  import_plugins-Keeps table = >>=-Keeps id_text (give-Keeps id_text _) (λ rows.
      >>=-Keeps id_text (read-Keeps id_text _) (λ devices.
        >>=-Keeps id_text (read-Keeps id_text _) (λ routes.
          >>=-Keeps id_text (import_rows-Keeps devices routes none _ rows)
            (λ counts. >>-Keeps id_text (select_last-Keeps counts.1) (give-Keeps id_text _)))))

  upsert_tag-Keeps : (id : ℤ) (tag : TagSpec) → Keeps id_text (upsert_tag id_text id tag)
  unfolding upsert_tag
  upsert_tag-Keeps id tag = save_tag-Keeps id_text _

  known_device-Keeps :
      (devices : DevicesByKey) (device : DeviceSpec) (o : Option DeviceSpec)
      → Keeps id_text (known_device c id_text devices device o)
  known_device-Keeps devices device none =
      >>=-Keeps id_text (save_device-Keeps id_text device) (λ id. give-Keeps id_text _)
  known_device-Keeps devices device (some existing) =
      >>-Keeps id_text (give-Keeps id_text _) (give-Keeps id_text _)

  row_tag-Keeps :
      (row : Row) (existing : DeviceSpec) → Keeps id_text (import_row_tag c id_text row existing)
  row_tag-Keeps row existing = if-Keeps id_text _ _ _ (give-Keeps id_text _) (
      >>=-Keeps id_text (give-Keeps id_text _)
        (λ tag. >>-Keeps id_text (upsert_tag-Keeps _ tag) (give-Keeps id_text _)))

  device_row-Keeps :
      (row : Row) (devices : DevicesByKey) → Keeps id_text (import_device_row c id_text row devices)
  unfolding import_device_row
  device_row-Keeps row devices = >>=-Keeps id_text (give-Keeps id_text _) (λ device.
      >>=-Keeps id_text (known_device-Keeps devices device _)
        (λ known. >>=-Keeps id_text (row_tag-Keeps row known.0) (λ b. give-Keeps id_text _)))

  device_rows-Keeps :
      (devices : DevicesByKey) (counts : Counts) (rows : List Row)
      → Keeps id_text (import_device_rows c id_text devices counts rows)
  unfolding import_device_rows
  device_rows-Keeps devices counts [] = give-Keeps id_text _
  device_rows-Keeps devices counts (row ∷ rows) =
      >>=-Keeps id_text (device_row-Keeps row devices) (λ later. device_rows-Keeps later.0 _ rows)

  pub import_devices-Keeps :
      (table : Option (List Row)) → Keeps id_text (import_devices_csv c id_text table)
  unfolding import_devices_csv
  import_devices-Keeps table = >>=-Keeps id_text (read-Keeps id_text _) (λ devices.
      >>=-Keeps id_text (give-Keeps id_text _) (λ rows. device_rows-Keeps devices _ rows))

  tag_rows-Keeps :
      (id : ℤ) (driver_type : String) (n : ℕ) (rows : List Row)
      → Keeps id_text (import_tag_rows c id_text id driver_type n rows)
  unfolding import_tag_rows
  tag_rows-Keeps id driver_type n [] = give-Keeps id_text _
  tag_rows-Keeps id driver_type n (row ∷ rows) = >>=-Keeps id_text (give-Keeps id_text _) (λ tag.
      >>-Keeps id_text (upsert_tag-Keeps id tag) (tag_rows-Keeps id driver_type (n + 1) rows))

  pub import_tags-Keeps :
      (id : ℤ) (table : Option (List Row)) → Keeps id_text (import_tags_csv c id_text id table)
  unfolding import_tags_csv
  import_tags-Keeps id table = >>=-Keeps id_text (get_device-Keeps c id_text id) (λ device.
      >>=-Keeps id_text (give-Keeps id_text _) (λ rows.
        >>=-Keeps id_text (give-Keeps id_text _) (λ driver_type.
          >>=-Keeps id_text (tag_rows-Keeps id driver_type 0 rows) (λ n. give-Keeps id_text _))))

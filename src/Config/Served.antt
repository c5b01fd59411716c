-- ===== src/Config/Served.antt =====
-- The stores that `ConfigService` makes, as stores that `ConfigStore` makes.
use iot_gathering.Common.{ℤ, String, Option, List}
use iot_gathering.Common.Json.{Json}
use iot_gathering.Common.Dict.{Dict}
use iot_gathering.Common.Values.{Conversions}
use iot_gathering.Store.Tables.{Store, new_store}
use iot_gathering.Store.Reach.{Reachable-IsConsistent}
use iot_gathering.Store.Consistent.{
  IsConsistent, Reachable, new as new_reached, after as after_step,
}
use iot_gathering.Config.Devices.{
  create_device, update_device, delete_device_by_id, create_tag, update_tag, delete_tag_by_id,
}
use iot_gathering.Config.Plugins.{save_sink_config}
use iot_gathering.Config.RouteService.{save_output_route, delete_output_route}
use iot_gathering.Config.Resolving.{
  Resolver, resolve_output_route_topic, refresh_dynamic_output_route_topics,
}
use iot_gathering.Config.Cells.{Row}
use iot_gathering.Config.Imports.{import_plugin_routes_csv, import_plugins_csv}
use iot_gathering.Config.DeviceImports.{import_devices_csv, import_tags_csv}
use iot_gathering.Config.Keeping.{Changes, same, then_step}
use iot_gathering.Config.Refining.{
  create_device-Keeps, update_device-Keeps, delete_device-Keeps, create_tag-Keeps, update_tag-Keeps,
  delete_tag-Keeps, save_sink_config-Keeps, save_route-Keeps, delete_route-Keeps,
}
use iot_gathering.Config.Importing.{
  resolve-Keeps, refresh-Keeps, import_plugin_routes-Keeps, import_plugins-Keeps,
  import_devices-Keeps, import_tags-Keeps,
}

-- An operation of the service that changes the store, whether it returns or raises on the way.
pub data Serves (c : Conversions) (id_text : ℤ → String) (s : Store) : Store → Type 0 where
  creates_device :
      (payload : Dict String Json) → Serves c id_text s (create_device c id_text payload s).0
  updates_device :
      (id : ℤ) (payload : Dict String Json)
      → Serves c id_text s (update_device c id_text id payload s).0
  deletes_device : (id : ℤ) → Serves c id_text s (delete_device_by_id c id_text id s).0
  creates_tag :
      (id : ℤ) (payload : Dict String Json)
      → Serves c id_text s (create_tag c id_text id payload s).0
  updates_tag :
      (id : ℤ) (payload : Dict String Json)
      → Serves c id_text s (update_tag c id_text id payload s).0
  deletes_tag : (id : ℤ) → Serves c id_text s (delete_tag_by_id c id_text id s).0
  saves_sink_config :
      (payload : Dict String Json) → Serves c id_text s (save_sink_config c payload s).0
  saves_output_route :
      (payload : Dict String Json) → Serves c id_text s (save_output_route c id_text payload s).0
  deletes_output_route : (id : ℤ) → Serves c id_text s (delete_output_route c id_text id s).0
  resolves_topic :
      (resolver : Resolver) (now : String) (id : ℤ)
      → Serves c id_text s (resolve_output_route_topic c id_text resolver now id s).0
  refreshes_topics :
      (resolver : Resolver) (now : String)
      → Serves c id_text s (refresh_dynamic_output_route_topics c id_text resolver now s).0
  imports_plugins :
      (table : Option (List Row)) → Serves c id_text s (import_plugins_csv c id_text table s).0
  imports_routes :
      (table : Option (List Row))
      → Serves c id_text s (import_plugin_routes_csv c id_text table s).0
  imports_devices :
      (table : Option (List Row)) → Serves c id_text s (import_devices_csv c id_text table s).0
  imports_tags :
      (id : ℤ) (table : Option (List Row))
      → Serves c id_text s (import_tags_csv c id_text id table s).0

Serves-Changes :
    (c : Conversions) (id_text : ℤ → String) (s t : Store)
    → Serves c id_text s t
    → Changes id_text s t
Serves-Changes c id_text s t (creates_device payload) =
    (create_device-Keeps c id_text payload).changes s
Serves-Changes c id_text s t (updates_device id payload) =
    (update_device-Keeps c id_text id payload).changes s
Serves-Changes c id_text s t (deletes_device id) = (delete_device-Keeps c id_text id).changes s
Serves-Changes c id_text s t (creates_tag id payload) =
    (create_tag-Keeps c id_text id payload).changes s
Serves-Changes c id_text s t (updates_tag id payload) =
    (update_tag-Keeps c id_text id payload).changes s
Serves-Changes c id_text s t (deletes_tag id) = (delete_tag-Keeps c id_text id).changes s
Serves-Changes c id_text s t (saves_sink_config payload) =
    (save_sink_config-Keeps c id_text payload).changes s
Serves-Changes c id_text s t (saves_output_route payload) =
    (save_route-Keeps c id_text payload).changes s
Serves-Changes c id_text s t (deletes_output_route id) = (delete_route-Keeps c id_text id).changes s
Serves-Changes c id_text s t (resolves_topic resolver now id) =
    (resolve-Keeps c id_text resolver now id).changes s
Serves-Changes c id_text s t (refreshes_topics resolver now) =
    (refresh-Keeps c id_text resolver now).changes s
Serves-Changes c id_text s t (imports_plugins table) =
    (import_plugins-Keeps c id_text table).changes s
Serves-Changes c id_text s t (imports_routes table) =
    (import_plugin_routes-Keeps c id_text table).changes s
Serves-Changes c id_text s t (imports_devices table) =
    (import_devices-Keeps c id_text table).changes s
Serves-Changes c id_text s t (imports_tags id table) =
    (import_tags-Keeps c id_text id table).changes s

-- The stores that the service makes of a new one.
pub data Served (c : Conversions) (id_text : ℤ → String) : Store → Type 0 where
  new : Served c id_text new_store
  after : {s t : Store} → Served c id_text s → Serves c id_text s t → Served c id_text t

Changes-Reachable :
    (id_text : ℤ → String) {s t : Store}
    → Changes id_text s t
    → Reachable id_text s
    → Reachable id_text t
Changes-Reachable id_text same r = r
Changes-Reachable id_text (then_step h step) r = after_step (Changes-Reachable id_text h r) step

Served-reached :
    (c : Conversions) (id_text : ℤ → String) (s : Store) → Served c id_text s → Reachable id_text s
Served-reached c id_text s new = new_reached
Served-reached c id_text s (after {s = before} h step) =
    Changes-Reachable id_text (Serves-Changes c id_text before s step)
      (Served-reached c id_text before h)

-- Every store that operations of the service make of a new one is one that operations of the store make, and
-- hence consistent, whatever they are called with, whatever a resolver answers, and also where an operation
-- raises on the way, as an import does that stops at a bad row.
pub Served-Reachable :
    (c : Conversions) (id_text : ℤ → String) (s : Store)
    → Served c id_text s
    → Reachable id_text s × IsConsistent s
Served-Reachable c id_text s h =
    let r = Served-reached c id_text s h in (r, Reachable-IsConsistent id_text s r)

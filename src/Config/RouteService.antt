-- ===== src/Config/RouteService.antt =====
-- `ConfigService`: the operations on output routes. The resolver of topics asks the broker, an argument; `now` is
-- the text of the time.
use iot_gathering.Common.{
  ℤ, String, Bool, true, false, ◌||◌, Option, none, some, List, [], ◌∷◌, ◌==◌, if◌then◌else◌,
  string_eq, int_eq, option_eq,
}
use iot_gathering.Common.Text.{strip}
use iot_gathering.Common.Json.{Json, bool, int, text, truthy}
use iot_gathering.Common.Dict.{Dict, get, put}
use iot_gathering.Common.Values.{Conversions, str, int_of, value_or_null, value_or, is_unset}
use iot_gathering.Common.Result.{runtime_error, Result, ok, err, found_or}
use iot_gathering.Models.{DeviceSpec, OutputRouteConfig}
use iot_gathering.Store.Tables.{
  save_output_route as store_route, delete_output_route as remove_route, is_some,
}
use iot_gathering.Store.Configs.{list_devices, list_output_routes as stored_routes}
use iot_gathering.Config.Service.{Service, ◌>>=◌, ◌>>◌, give, save, change}
use iot_gathering.Config.Payloads.{dict_of}
use iot_gathering.Config.Devices.{get_device}
use iot_gathering.Config.Routes.{route_config, route_to_dict}

-- `value == text`
abbrev pub is_text : String → Json → Bool
is_text s (text t) = t == s
is_text s v = false

-- `{device.id: device for device in devices}.get(id)`
abbrev pub device_of : List DeviceSpec → Option ℤ → Option DeviceSpec
device_of [] id = none
device_of (d ∷ devices) id = elim (device_of devices id) [
  | some later ↦ some later
  | none ↦ if d.id == id then some d else none
]

abbrev pub device_name_of : Option DeviceSpec → String
device_name_of none = "All devices"
device_name_of (some d) = d.name

abbrev pub is_heartbeat : Dict String Json → Bool
is_heartbeat config = is_text "system_heartbeat" (value_or_null (get config "route_kind"))

abbrev pub named_row :
    List DeviceSpec → OutputRouteConfig → Dict String Json → Dict String Json → Dict String Json
named_row devices route config row = put row "device_name" (
    text (
      if is_heartbeat config
      then "System Heartbeat"
      else device_name_of (device_of devices route.device_id)))

abbrev pub with_row :
    Result (Dict String Json)
    → Result (Dict String Json)
    → (Dict String Json → Dict String Json → Dict String Json)
    → Result (List (Dict String Json))
    → Result (List (Dict String Json))
with_row (err e) row f rows = err e
with_row (ok config) (err e) f rows = err e
with_row (ok config) (ok row) f (err e) = err e
with_row (ok config) (ok row) f (ok rows) = ok (f config row ∷ rows)

-- The loop of `list_output_routes`; the configuration is the one that the row shows.
unfoldable pub route_rows :
    Conversions → List DeviceSpec → List OutputRouteConfig → Result (List (Dict String Json))
unfolding route_config route_to_dict
route_rows c devices [] = ok []
route_rows c devices (route ∷ routes) =
    with_row (route_config c route.config []) (route_to_dict c route) (named_row devices route)
      (route_rows c devices routes)

-- `row["id"] == id`
abbrev pub has_row_id : ℤ → Option Json → Bool
has_row_id id (some (int n)) = n == id
has_row_id id o = false

abbrev pub row_with_id : List (Dict String Json) → ℤ → Option (Dict String Json)
row_with_id [] id = none
row_with_id (row ∷ rows) id =
    let rest = row_with_id rows id in if has_row_id id (get row "id") then some row else rest

-- `next(route for route in self.list_output_routes() if route["id"] == id)`
abbrev pub next_row : List (Dict String Json) → ℤ → Result (Dict String Json)
next_row rows id = found_or (row_with_id rows id) (runtime_error "StopIteration")

-- `None if value in (None, "", "all", "system_heartbeat") else int(value)`
abbrev pub is_any_device : Json → Bool
is_any_device v = is_unset v || is_text "all" v || is_text "system_heartbeat" v

abbrev pub device_id_of : Json → Result (Option ℤ)
device_id_of v =
    if is_any_device v then ok none else elim (int_of v) [ err e ↦ err e | ok n ↦ ok (some n) ]

abbrev pub route_id_of : Json → Result (Option ℤ)
route_id_of v =
    if is_unset v then ok none else elim (int_of v) [ err e ↦ err e | ok n ↦ ok (some n) ]

-- `config["route_kind"] = …; config.setdefault("sensor_code", "SYSTEM")`
abbrev pub heartbeat_config : Dict String Json → Dict String Json
heartbeat_config config =
    let kind = put config "route_kind" (text "system_heartbeat") in
    if is_some (get kind "sensor_code") then kind else put kind "sensor_code" (text "SYSTEM")

module _ (c : Conversions) (id_text : ℤ → String) where
  unfoldable pub list_output_routes : Service (List (Dict String Json))
  list_output_routes s = (s, route_rows c (list_devices s) (stored_routes s))

  abbrev pub check_device : Option ℤ → Service (Unit {0})
  check_device none = give (ok tt)
  check_device (some id) = do get_device c id_text id; give (ok tt)

  -- The row that `save_output_route` stores.
  abbrev pub route_of :
      (payload config : Dict String Json) → Bool → (id device_id : Option ℤ) → OutputRouteConfig
  route_of payload config heartbeat id device_id = record {
    id = id;
    device_id = device_id;
    tag_group =
        if heartbeat then "" else strip (str c (value_or (get payload "tag_group") (text "")));
    sink_type = "mqtt";
    enabled = truthy (value_or (get payload "enabled") (bool true));
    config = if heartbeat then heartbeat_config config else config;
  }

  unfoldable pub save_output_route : Dict String Json → Service (Dict String Json)
  save_output_route payload = do
    given ← give (dict_of (value_or_null (get payload "config")))
    config ← give (route_config c given payload)
    device_id ← give (device_id_of (value_or_null (get payload "device_id")))
    check_device device_id
    id ← give (route_id_of (value_or_null (get payload "id")))
    saved_id ← save (λ s. store_route s (
        route_of payload config
          (is_heartbeat config
            || is_text "system_heartbeat" (value_or_null (get payload "device_id")))
          id device_id))
    rows ← list_output_routes
    give (next_row rows saved_id)

  unfoldable pub delete_output_route : ℤ → Service (Unit {0})
  delete_output_route id = change (λ s. remove_route s id)

-- ===== src/Config/Devices.antt =====
-- `ConfigService`: the operations on devices and tags. `id_text` is `str` of an id.
use iot_gathering.Common.{
  String, ℤ, pos, Option, none, some, List, [], ◌∷◌, ◌++◌, map, ◌==◌, if◌then◌else◌, string_eq,
  int_eq, option_eq,
}
use iot_gathering.Common.Text.{◌<>◌}
use iot_gathering.Common.Json.{Json, text}
use iot_gathering.Common.Dict.{Dict, get, put}
use iot_gathering.Common.Values.{Conversions, int_of, value_or_null, or_value, optional_int}
use iot_gathering.Common.Result.{key_error, found_or}
use iot_gathering.Models.{DeviceSpec, TagSpec}
use iot_gathering.Store.Tables.{Store, save_device, delete_device, save_tag, delete_tag}
use iot_gathering.Store.Configs.{list_devices as stored_devices, list_tags as stored_tags}
use iot_gathering.Config.Service.{Service, ◌>>=◌, ◌>>◌, give, read, save, change}
use iot_gathering.Config.Payloads.{
  device_from_payload, tag_from_payload, device_to_dict, tag_to_dict, required,
}

-- `device.id or 0`
abbrev pub id_or_zero : Option ℤ → ℤ
id_or_zero none = pos 0
id_or_zero (some id) = id

abbrev pub find_device : List DeviceSpec → ℤ → Option (Dict String Json)
find_device [] id = none
find_device (d ∷ devices) id =
    let rest = find_device devices id in if d.id == some id then some (device_to_dict d) else rest

abbrev pub find_in_tags : List TagSpec → ℤ → Option (Dict String Json)
find_in_tags [] id = none
find_in_tags (t ∷ tags) id =
    let rest = find_in_tags tags id in if t.id == some id then some (tag_to_dict t) else rest

abbrev pub or_else {ℓ} : {A : Type ℓ} → Option A → Option A → Option A
or_else none o = o
or_else (some a) o = some a

abbrev pub find_tag : Store → List DeviceSpec → ℤ → Option (Dict String Json)
find_tag s [] id = none
find_tag s (d ∷ devices) id =
    or_else (find_in_tags (stored_tags s (id_or_zero d.id)) id) (find_tag s devices id)

-- The rows of `list_all_tags`.
abbrev pub tag_row : DeviceSpec → TagSpec → Dict String Json
tag_row d t =
    put (put (put (tag_to_dict t) "device_group" (text d.device_group)) "device_name" (text d.name))
      "source_device_id" (optional_int d.id)

abbrev pub all_tag_rows : Store → List DeviceSpec → List (Dict String Json)
all_tag_rows s [] = []
all_tag_rows s (d ∷ devices) =
    map (tag_row d) (stored_tags s (id_or_zero d.id)) ++ all_tag_rows s devices

module _ (c : Conversions) (id_text : ℤ → String) where
  unfoldable pub list_devices : Service (List (Dict String Json))
  list_devices = read (λ s. map device_to_dict (stored_devices s))

  unfoldable pub get_device : ℤ → Service (Dict String Json)
  get_device id s = (
    s,
    found_or (find_device (stored_devices s) id) (key_error ("device not found: " <> id_text id)),
  )

  unfoldable pub create_device : Dict String Json → Service (Dict String Json)
  create_device payload = do
    device ← give (device_from_payload c none payload)
    id ← save (λ s. save_device s device)
    get_device id

  unfoldable pub update_device : ℤ → Dict String Json → Service (Dict String Json)
  update_device id payload = do
    get_device id
    device ← give (device_from_payload c (some id) payload)
    save (λ s. save_device s device)
    get_device id

  unfoldable pub delete_device_by_id : ℤ → Service (Unit {0})
  delete_device_by_id id = do get_device id; change (λ s. delete_device s id)

  unfoldable pub list_tags : ℤ → Service (List (Dict String Json))
  list_tags id = do get_device id; read (λ s. map tag_to_dict (stored_tags s id))

  unfoldable pub list_all_tags : Service (List (Dict String Json))
  list_all_tags = read (λ s. all_tag_rows s (stored_devices s))

  unfoldable pub get_tag : ℤ → Service (Dict String Json)
  get_tag id s =
      (s, found_or (find_tag s (stored_devices s) id) (key_error ("tag not found: " <> id_text id)))

  unfoldable pub create_tag : ℤ → Dict String Json → Service (Dict String Json)
  create_tag device_id payload = do
    get_device device_id
    tag ← give (tag_from_payload c none device_id payload)
    id ← save (λ s. save_tag id_text s tag)
    get_tag id

  unfoldable pub update_tag : ℤ → Dict String Json → Service (Dict String Json)
  update_tag id payload = do
    existing ← get_tag id
    owner ← give (required existing "device_id")
    device_id ← give (int_of (or_value (value_or_null (get payload "device_id")) owner))
    tag ← give (tag_from_payload c (some id) device_id payload)
    save (λ s. save_tag id_text s tag)
    get_tag id

  unfoldable pub delete_tag_by_id : ℤ → Service (Unit {0})
  delete_tag_by_id id = do get_tag id; change (λ s. delete_tag s id)

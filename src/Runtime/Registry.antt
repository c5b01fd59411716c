-- ===== src/Runtime/Registry.antt =====
-- registry.py: items under names, whose case and surrounding white space do not count.
use iot_gathering.Common.{String, List, if◌then◌else◌, string_eq}
use iot_gathering.Common.Text.{is_empty, strip, lower, ◌<>◌}
use iot_gathering.Common.Dict.{Dict, keys, get, put}
use iot_gathering.Common.Result.{value_error, key_error, Result, ok, err, found_or}
use iot_gathering.Store.Configs.{text_leb, order_rows}

-- `_normalize`
unfoldable pub normalize : String → String
normalize key = lower (strip key)

abbrev pub Registry {ℓ} : Type ℓ → Type ℓ
Registry T = Dict String T

module _ {ℓ} {T : Type ℓ} where
  unfoldable pub register : Registry T → String → T → Result (Registry T)
  unfolding normalize
  register items key item =
      if is_empty (normalize key)
      then err (value_error "registry key is required")
      else ok (put items (normalize key) item)

  unfoldable pub get_item : Registry T → String → Result T
  unfolding normalize
  get_item items key =
      found_or (get items (normalize key)) (key_error ("unknown registry key: " <> key))

  -- `sorted(self._items)`
  unfoldable pub registry_keys : Registry T → List String
  registry_keys items = order_rows text_leb (keys items)

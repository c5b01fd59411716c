-- ===== src/Config/Refining.antt =====
-- Each operation of `ConfigService` does to the store what operations of `ConfigStore` do.
use iot_gathering.Common.{ℤ, String, Option, none, some, string_eq}
use iot_gathering.Common.Json.{Json}
use iot_gathering.Common.Dict.{Dict}
use iot_gathering.Common.Values.{Conversions}
use iot_gathering.Store.Consistent.{deletes_device, deletes_tag, deletes_route, saves_sink}
use iot_gathering.Config.Devices.{
  get_device, create_device, update_device, delete_device_by_id, get_tag, create_tag, update_tag,
  delete_tag_by_id,
}
use iot_gathering.Config.Plugins.{get_sink_config, save_sink_config}
use iot_gathering.Config.RouteService.{
  check_device, list_output_routes, save_output_route, delete_output_route,
}
use iot_gathering.Config.Keeping.{
  Keeps, >>=-Keeps, >>-Keeps, give-Keeps, same-Keeps, read-Keeps, change-Keeps, save_device-Keeps,
  save_tag-Keeps, save_output_route-Keeps,
}

module _ (c : Conversions) (id_text : ℤ → String) where
  pub get_device-Keeps : (id : ℤ) → Keeps id_text (get_device c id_text id)
  unfolding get_device
  get_device-Keeps id = same-Keeps id_text _

  get_tag-Keeps : (id : ℤ) → Keeps id_text (get_tag c id_text id)
  unfolding get_tag
  get_tag-Keeps id = same-Keeps id_text _

  pub create_device-Keeps :
      (payload : Dict String Json) → Keeps id_text (create_device c id_text payload)
  unfolding create_device
  create_device-Keeps payload =
      >>=-Keeps id_text (give-Keeps id_text _)
        (λ device. >>=-Keeps id_text (save_device-Keeps id_text device) (λ id. get_device-Keeps id))

  pub update_device-Keeps :
      (id : ℤ) (payload : Dict String Json) → Keeps id_text (update_device c id_text id payload)
  unfolding update_device
  update_device-Keeps id payload = >>-Keeps id_text (get_device-Keeps id) (
      >>=-Keeps id_text (give-Keeps id_text _)
        (λ device. >>-Keeps id_text (save_device-Keeps id_text device) (get_device-Keeps id)))

  pub delete_device-Keeps : (id : ℤ) → Keeps id_text (delete_device_by_id c id_text id)
  unfolding delete_device_by_id
  delete_device-Keeps id =
      >>-Keeps id_text (get_device-Keeps id) (change-Keeps id_text _ (λ s. deletes_device id))

  pub create_tag-Keeps :
      (id : ℤ) (payload : Dict String Json) → Keeps id_text (create_tag c id_text id payload)
  unfolding create_tag
  create_tag-Keeps id payload = >>-Keeps id_text (get_device-Keeps id) (
      >>=-Keeps id_text (give-Keeps id_text _)
        (λ tag. >>=-Keeps id_text (save_tag-Keeps id_text (λ s. tag)) (λ i. get_tag-Keeps i)))

  pub update_tag-Keeps :
      (id : ℤ) (payload : Dict String Json) → Keeps id_text (update_tag c id_text id payload)
  unfolding update_tag
  update_tag-Keeps id payload = >>=-Keeps id_text (get_tag-Keeps id) (λ existing.
      >>=-Keeps id_text (give-Keeps id_text _) (λ owner.
        >>=-Keeps id_text (give-Keeps id_text _) (λ device_id.
          >>=-Keeps id_text (give-Keeps id_text _)
            (λ tag. >>-Keeps id_text (save_tag-Keeps id_text (λ s. tag)) (get_tag-Keeps id)))))

  pub delete_tag-Keeps : (id : ℤ) → Keeps id_text (delete_tag_by_id c id_text id)
  unfolding delete_tag_by_id
  delete_tag-Keeps id =
      >>-Keeps id_text (get_tag-Keeps id) (change-Keeps id_text _ (λ s. deletes_tag id))

  pub save_sink_config-Keeps :
      (payload : Dict String Json) → Keeps id_text (save_sink_config c payload)
  unfolding save_sink_config get_sink_config
  save_sink_config-Keeps payload = >>=-Keeps id_text (give-Keeps id_text _) (λ sink_type.
      >>=-Keeps id_text (give-Keeps id_text _) (λ config.
        >>-Keeps id_text (change-Keeps id_text _ (λ s. saves_sink _)) (read-Keeps id_text _)))

  pub list_output_routes-Keeps : Keeps id_text (list_output_routes c id_text)
  unfolding list_output_routes
  list_output_routes-Keeps = same-Keeps id_text _

  check_device-Keeps : (o : Option ℤ) → Keeps id_text (check_device c id_text o)
  check_device-Keeps none = give-Keeps id_text _
  check_device-Keeps (some id) = >>-Keeps id_text (get_device-Keeps id) (give-Keeps id_text _)

  pub save_route-Keeps :
      (payload : Dict String Json) → Keeps id_text (save_output_route c id_text payload)
  unfolding save_output_route
  save_route-Keeps payload = >>=-Keeps id_text (give-Keeps id_text _) (λ given.
      >>=-Keeps id_text (give-Keeps id_text _) (λ config.
        >>=-Keeps id_text (give-Keeps id_text _) (λ device_id.
          >>-Keeps id_text (check_device-Keeps device_id) (
            >>=-Keeps id_text (give-Keeps id_text _) (λ id.
              >>=-Keeps id_text (save_output_route-Keeps id_text _) (λ saved.
                >>=-Keeps id_text list_output_routes-Keeps (λ rows. give-Keeps id_text _)))))))

  pub delete_route-Keeps : (id : ℤ) → Keeps id_text (delete_output_route c id_text id)
  unfolding delete_output_route
  delete_route-Keeps id = change-Keeps id_text _ (λ s. deletes_route id)

-- ===== src/Store/Reach.antt =====
-- Every store that operations make is consistent.
use iot_gathering.Common.{String, ℤ, ◌≡◌, arith, All-mono, int_eq, true}
use iot_gathering.Common.Dict.{remove, remove-Entries}
use iot_gathering.Store.Tables.{Store, has_device, delete_tag, delete_output_route}
use iot_gathering.Store.Configs.{save_mqtt_config, save_sink_config}
use iot_gathering.Store.Unique.{remove-Unique}
use iot_gathering.Store.Consistent.{
  IsTagRow, IsConsistent, Step, saves_device, deletes_device, saves_tag, deletes_tag, saves_route,
  deletes_route, saves_mqtt, saves_sink, Reachable, new, after, moved, has_later,
  save_device-IsConsistent, delete_device-IsConsistent,
}
use iot_gathering.Store.Saving.{save_tag-IsConsistent, save_output_route-IsConsistent}

Step-IsConsistent :
    (id_text : ℤ → String) (s t : Store) → Step id_text s t → IsConsistent s → IsConsistent t
unfolding delete_tag delete_output_route save_mqtt_config save_sink_config
Step-IsConsistent id_text s t (saves_device device r h) c = save_device-IsConsistent s device r h c
Step-IsConsistent id_text s t (deletes_device id) c = delete_device-IsConsistent s id c
Step-IsConsistent id_text s t (saves_tag tag r h) c = save_tag-IsConsistent id_text s tag r h c
Step-IsConsistent id_text s t (deletes_tag id) c = record {
  unique = remove-Unique s.tags id c.unique;
  tags =
      All-mono _ _ (remove s.tags id)
        (λ p r. moved s (delete_tag s id) p.0 p.1 (omega arith) r.owned r)
        (remove-Entries (IsTagRow s) s.tags id c.tags);
  routes =
      All-mono _ _ s.routes (λ p h. has_later s (delete_tag s id) p.1.device_id (λ d g. g) h)
        c.routes;
}
Step-IsConsistent id_text s t (saves_route route r h) c =
    save_output_route-IsConsistent s route r h c
Step-IsConsistent id_text s t (deletes_route id) c = record {
  unique = c.unique;
  tags =
      All-mono _ _ s.tags
        (λ p r. moved s (delete_output_route s id) p.0 p.1 (omega arith) r.owned r) c.tags;
  routes =
      All-mono _ _ (remove s.routes id)
        (λ p h. has_later s (delete_output_route s id) p.1.device_id (λ d g. g) h)
        (remove-Entries (λ i r. has_device s r.device_id ≡ true) s.routes id c.routes);
}
Step-IsConsistent id_text s t (saves_mqtt config) c = record {
  unique = c.unique;
  tags =
      All-mono _ _ s.tags
        (λ p r. moved s (save_mqtt_config s config) p.0 p.1 (omega arith) r.owned r) c.tags;
  routes =
      All-mono _ _ s.routes
        (λ p h. has_later s (save_mqtt_config s config) p.1.device_id (λ d g. g) h) c.routes;
}
Step-IsConsistent id_text s t (saves_sink config) c = record {
  unique = c.unique;
  tags =
      All-mono _ _ s.tags
        (λ p r. moved s (save_sink_config s config) p.0 p.1 (omega arith) r.owned r) c.tags;
  routes =
      All-mono _ _ s.routes
        (λ p h. has_later s (save_sink_config s config) p.1.device_id (λ d g. g) h) c.routes;
}

-- In every store that operations make of a new one, no two tags of a device have one name in one tag group,
-- every tag is well formed and has a device that is there, and every route of a device has it.
pub Reachable-IsConsistent :
    (id_text : ℤ → String) (s : Store) → Reachable id_text s → IsConsistent s
Reachable-IsConsistent id_text s new = record { unique = tt; tags = tt; routes = tt }
Reachable-IsConsistent id_text s (after {s = before} r step) =
    Step-IsConsistent id_text before s step (Reachable-IsConsistent id_text before r)

-- ===== src/Store/Consistent.antt =====
-- What every operation of the store keeps.
use mathlib.Core.Path.{subst}
use iot_gathering.Common.{
  ℕ, suc, ◌≤◌, String, ℤ, pos, Bool, true, false, Option, none, some, ◌≡◌, ◌∙◌, inl, inr, arith,
  All-mono, ◌==◌, string_eq, int_eq, option_eq,
}
use iot_gathering.Common.Dict.{Dict, get, Entries}
use iot_gathering.Common.Result.{ok, >>-ok, raise_first, ok_injective}
use iot_gathering.Models.{DeviceSpec, TagSpec, MqttConfig, SinkConfig, OutputRouteConfig}
use iot_gathering.Models.Accepted.{IsRegister, IsWellFormed}
use iot_gathering.Store.Tables.{
  Store, new_store, is_some, device_checks, with_device_id, stored_device, save_device,
  delete_where, delete_device, with_tag_id, save_tag, delete_tag, has_device, save_output_route,
  delete_output_route,
}
use iot_gathering.Store.Configs.{save_mqtt_config, save_sink_config}
use iot_gathering.Store.Unique.{
  delete_where-Entries, Unique, delete_where-Unique, is_some-update_row, is_some-append,
  is_some-remove,
}

-- A tag belongs to a device that is there.
abbrev pub is_owned : Store → Option ℤ → Bool
is_owned s none = false
is_owned s (some id) = is_some (get s.devices id)

-- A row of the tags: it carries its id, was numbered, is well formed, and has its device.
pub record IsTagRow (s : Store) (id : ℤ) (tag : TagSpec) : Type 0 where
  pub number : ℕ
  pub numbered : id ≡ pos number
  pub given : number ≤ s.last_tag
  pub named : tag.id ≡ some id
  pub well_formed : IsWellFormed tag
  pub owned : is_owned s tag.device_id ≡ true

-- No two tags of a device have one name in one group; every tag is well formed and has its device; every
-- route of a device has it.
pub record IsConsistent (s : Store) : Type 0 where
  pub unique : Unique s.tags
  pub tags : Entries (IsTagRow s) s.tags
  pub routes : Entries (λ id r. has_device s r.device_id ≡ true) s.routes

-- One operation of the store, of those that change it.
pub data Step (id_text : ℤ → String) (s : Store) : Store → Type 0 where
  saves_device :
      (device : DeviceSpec) (t : Store × ℤ) → save_device s device ≡ ok t → Step id_text s t.0
  deletes_device : (id : ℤ) → Step id_text s (delete_device s id)
  saves_tag : (tag : TagSpec) (t : Store × ℤ) → save_tag id_text s tag ≡ ok t → Step id_text s t.0
  deletes_tag : (id : ℤ) → Step id_text s (delete_tag s id)
  saves_route :
      (route : OutputRouteConfig) (t : Store × ℤ)
      → save_output_route s route ≡ ok t
      → Step id_text s t.0
  deletes_route : (id : ℤ) → Step id_text s (delete_output_route s id)
  saves_mqtt : (config : MqttConfig) → Step id_text s (save_mqtt_config s config)
  saves_sink : (config : SinkConfig) → Step id_text s (save_sink_config s config)

-- The stores that operations make of a new one.
pub data Reachable (id_text : ℤ → String) : Store → Type 0 where
  new : Reachable id_text new_store
  after : {s t : Store} → Reachable id_text s → Step id_text s t → Reachable id_text t

with_tag_id-IsRegister : (tag : TagSpec) (id : ℤ) → IsRegister tag → IsRegister (with_tag_id tag id)
with_tag_id-IsRegister tag id r = record { addressed = r.addressed; known = r.known; unit = r.unit }

pub with_tag_id-IsWellFormed :
    (tag : TagSpec) (id : ℤ) → IsWellFormed tag → IsWellFormed (with_tag_id tag id)
with_tag_id-IsWellFormed tag id w = record {
  named = w.named;
  common = record {
    typed = w.common.typed;
    scaled = w.common.scaled;
    counted = w.common.counted;
    sized = w.common.sized;
    byte_ordered = w.common.byte_ordered;
    word_ordered = w.common.word_ordered;
  };
  located = elim w.located [
    | inl r ↦ inl (with_tag_id-IsRegister tag id r)
    | inr field ↦ inr field
  ];
}

-- A row of tags in a store with as many devices and numbers.
pub moved :
    (s t : Store) (id : ℤ) (tag : TagSpec)
    → s.last_tag ≤ t.last_tag
    → is_owned t tag.device_id ≡ true
    → IsTagRow s id tag
    → IsTagRow t id tag
moved s t id tag l o r = record {
  number = r.number;
  numbered = r.numbered;
  given = omega (arith, l, r.given);
  named = r.named;
  well_formed = r.well_formed;
  owned = o;
}

-- Every device of `s` is one of `t`.
abbrev pub Grows : Store → Store → Type 0
Grows s t = (d : ℤ) → is_some (get s.devices d) ≡ true → is_some (get t.devices d) ≡ true

pub owned_later :
    (s t : Store) (o : Option ℤ) → Grows s t → is_owned s o ≡ true → is_owned t o ≡ true
owned_later s t none g h = h
owned_later s t (some d) g h = g d h

pub has_later :
    (s t : Store) (o : Option ℤ) → Grows s t → has_device s o ≡ true → has_device t o ≡ true
has_later s t none g h = h
has_later s t (some d) g h = g d h

tags_later :
    (s t : Store) (rows : Dict ℤ TagSpec)
    → Grows s t
    → s.last_tag ≤ t.last_tag
    → Entries (IsTagRow s) rows
    → Entries (IsTagRow t) rows
tags_later s t rows g l h =
    All-mono _ _ rows (λ p r. moved s t p.0 p.1 l (owned_later s t p.1.device_id g r.owned) r) h

stored_device-Grows :
    (s : Store) (device : DeviceSpec) (o : Option ℤ) → Grows s (stored_device s device o).0
stored_device-Grows s device none d h = is_some-append s.devices (pos (suc s.last_device)) _ d h
stored_device-Grows s device (some id) d h =
    is_some-update_row s.devices id (with_device_id device id) d ∙ h

with_devices-IsConsistent :
    (s : Store) (device : DeviceSpec) (o : Option ℤ)
    → IsConsistent s
    → IsConsistent (stored_device s device o).0
with_devices-IsConsistent s device none c =
    let t = (stored_device s device none).0 in
    let g = stored_device-Grows s device none in
    record {
      unique = c.unique;
      tags = tags_later s t s.tags g (omega arith) c.tags;
      routes = All-mono _ _ s.routes (λ p h. has_later s t p.1.device_id g h) c.routes;
    }
with_devices-IsConsistent s device (some id) c =
    let t = (stored_device s device (some id)).0 in
    let g = stored_device-Grows s device (some id) in
    record {
      unique = c.unique;
      tags = tags_later s t s.tags g (omega arith) c.tags;
      routes = All-mono _ _ s.routes (λ p h. has_later s t p.1.device_id g h) c.routes;
    }

pub save_device-IsConsistent :
    (s : Store) (device : DeviceSpec) (t : Store × ℤ)
    → save_device s device ≡ ok t
    → IsConsistent s
    → IsConsistent t.0
unfolding save_device
save_device-IsConsistent s device t h c =
    let (_, e) = >>-ok (raise_first (device_checks device)) _ h in
    subst (λ r. IsConsistent r.0) (ok_injective e) (with_devices-IsConsistent s device device.id c)

-- A device that is not deleted stays.
owned_still :
    (s : Store) (id : ℤ) (o : Option ℤ)
    → (o == some id) ≡ false
    → is_owned s o ≡ true
    → is_owned (delete_device s id) o ≡ true
unfolding delete_device
owned_still s id none n h = h
owned_still s id (some d) n h =
    is_some-remove s.devices id d h (ground (arith, int_eq.beq_iff d id, int_eq.beq_iff id d))

has_still :
    (s : Store) (id : ℤ) (o : Option ℤ)
    → (o == some id) ≡ false
    → has_device s o ≡ true
    → has_device (delete_device s id) o ≡ true
unfolding delete_device
has_still s id none n h = h
has_still s id (some d) n h =
    is_some-remove s.devices id d h (ground (arith, int_eq.beq_iff d id, int_eq.beq_iff id d))

pub delete_device-IsConsistent :
    (s : Store) (id : ℤ) → IsConsistent s → IsConsistent (delete_device s id)
unfolding delete_device
delete_device-IsConsistent s id c = record {
  unique = delete_where-Unique (λ t. t.device_id == some id) s.tags c.unique;
  tags =
      All-mono _ _ (delete_where (λ t. t.device_id == some id) s.tags)
        (λ p q.
          moved s (delete_device s id) p.0 p.1 (omega arith)
            (owned_still s id p.1.device_id q.1 q.0.owned) q.0)
        (delete_where-Entries (IsTagRow s) (λ t. t.device_id == some id) s.tags c.tags);
  routes =
      All-mono _ _ (delete_where (λ r. r.device_id == some id) s.routes)
        (λ p q. has_still s id p.1.device_id q.1 q.0)
        (delete_where-Entries (λ i r. has_device s r.device_id ≡ true) (λ r. r.device_id == some id)
          s.routes c.routes);
}

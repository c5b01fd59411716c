-- ===== src/Config/Normal.antt =====
-- The normalised configurations against a description of them.
use mathlib.Core.List.{append_assoc, append-nil}
use iot_gathering.Common.{
  String, Option, Option-cases, none, some, List, [], ◌∷◌, ◌++◌, map, ◌≡◌, ◌∙◌, refl, sym, ap, inl,
  inr, arith, string_eq, beq_self,
}
use iot_gathering.Common.Json.{Json}
use iot_gathering.Common.Dict.{Dict, get, put, Distinct, middle-fresh, Entries, get-Entries}
use iot_gathering.Config.Tables.{connection_tables, plugin_tables}
use iot_gathering.Config.Schema.{
  defaults, overlay_field, overlay, connection_defaults, plugin_defaults,
  connection_fields_for_driver, plugin_fields, default_connection_for_driver, default_plugin_config,
  normalize_connection_for_driver, normalize_plugin_config,
}

-- One entry for each field, in their order: the value that is there, else the default.
abbrev pub chosen : Option Json → Json → Json
chosen none default = default
chosen (some v) default = v

abbrev pub completed : Dict String Json → List (String × Json) → Dict String Json
completed existing fields = map (λ f. (f.0, chosen (get existing f.0) f.1)) fields

put-fresh :
    (d : Dict String Json) (k : String) (v : Json) → get d k ≡ none → put d k v ≡ d ++ (k, v) ∷ []
unfolding get put
put-fresh [] k v h = refl
put-fresh ((j, w) ∷ d) k v h = ground (arith, put-fresh d k v)

put-middle :
    (d rest : Dict String Json) (k : String) (w v : Json)
    → get d k ≡ none
    → put (d ++ (k, w) ∷ rest) k v ≡ d ++ (k, v) ∷ rest
unfolding get put
put-middle [] rest k w v h = rw (beq_self string_eq k) refl
put-middle ((j, u) ∷ d) rest k w v h = ground (arith, put-middle d rest k w v)

get-middle :
    (d rest : Dict String Json) (k : String) (v : Json)
    → get d k ≡ none
    → get (d ++ (k, v) ∷ rest) k ≡ some v
unfolding get
get-middle [] rest k v h = rw (beq_self string_eq k) refl
get-middle ((j, u) ∷ d) rest k v h = ground (arith, get-middle d rest k v)

get-revalued :
    (d rest : Dict String Json) (k i : String) (w v : Json)
    → get (d ++ (k, w) ∷ rest) i ≡ none
    → get (d ++ (k, v) ∷ rest) i ≡ none
unfolding get
get-revalued [] rest k i w v h = ground arith
get-revalued ((j, u) ∷ d) rest k i w v h = ground (arith, get-revalued d rest k i w v)

revalued-Distinct :
    (d rest : Dict String Json) (k : String) (w v : Json)
    → Distinct (d ++ (k, w) ∷ rest)
    → Distinct (d ++ (k, v) ∷ rest)
revalued-Distinct [] rest k w v h = h
revalued-Distinct ((j, u) ∷ d) rest k w v h =
    (get-revalued d rest k j w v h.0, revalued-Distinct d rest k w v h.1)

defaults-append :
    (d fields : Dict String Json) → Distinct (d ++ fields) → defaults d fields ≡ d ++ fields
unfolding defaults
defaults-append d [] h = sym (append-nil d)
defaults-append d ((k, v) ∷ fields) h =
    rw (put-fresh d k v (middle-fresh d k v fields h))
      (defaults-append (d ++ (k, v) ∷ []) fields (rw append_assoc h) ∙ append_assoc d _ fields)

overlay_field-middle :
    (d rest : Dict String Json) (k : String) (v : Json) (o : Option Json)
    → get d k ≡ none
    → overlay_field (d ++ (k, v) ∷ rest) k o ≡ d ++ (k, chosen o v) ∷ rest
overlay_field-middle d rest k v none h = refl
overlay_field-middle d rest k v (some w) h = put-middle d rest k v w h

overlay-completed :
    (existing d fields : Dict String Json)
    → Distinct (d ++ fields)
    → overlay existing (d ++ fields) fields ≡ d ++ completed existing fields
unfolding overlay
overlay-completed existing d [] h = refl
overlay-completed existing d ((k, v) ∷ fields) h =
    let w = chosen (get existing k) v in
    let next =
      overlay-completed existing (d ++ (k, w) ∷ []) fields
        (rw append_assoc (revalued-Distinct d fields k v w h)) in
    rw (overlay_field-middle d fields k v (get existing k) (middle-fresh d k v fields h))
      (rw (append_assoc, append_assoc) at next)

complete-again :
    (d fields : Dict String Json) (existing : Dict String Json)
    → Distinct (d ++ fields)
    → completed (d ++ completed existing fields) fields ≡ completed existing fields
complete-again d [] existing h = refl
complete-again d ((k, v) ∷ fields) existing h =
    let w = chosen (get existing k) v in
    let next =
      complete-again (d ++ (k, w) ∷ []) fields existing
        (rw append_assoc (revalued-Distinct d fields k v w h)) in
    rw (get-middle d (completed existing fields) k w (middle-fresh d k v fields h))
      (ap (λ l. (k, w) ∷ l) (rw append_assoc at next))

overlay-defaults :
    (existing fields : Dict String Json)
    → Distinct fields
    → overlay existing (defaults [] fields) fields ≡ completed existing fields
overlay-defaults existing fields h =
    rw (defaults-append [] fields h) (overlay-completed existing [] fields h)

overlay-again :
    (existing fields : Dict String Json)
    → Distinct fields
    → overlay (overlay existing (defaults [] fields) fields) (defaults [] fields) fields
      ≡ overlay existing (defaults [] fields) fields
overlay-again existing fields h =
    rw (overlay-defaults existing fields h)
      (overlay-defaults (completed existing fields) fields h ∙ complete-again [] fields existing h)

-- No table of fields has a key twice.
connection_tables-Distinct :
    Entries (λ t fields. Distinct (connection_defaults fields)) connection_tables
unfolding get
connection_tables-Distinct = (
  (refl, (refl, (refl, (refl, (refl, tt))))),
  (
    (refl, (refl, (refl, (refl, (refl, (refl, (refl, (refl, (refl, tt))))))))),
    (
      (refl, (refl, (refl, (refl, (refl, (refl, (refl, tt))))))),
      (
        (refl, (refl, (refl, tt))),
        ((refl, (refl, (refl, (refl, (refl, (refl, (refl, (refl, (refl, (refl, tt)))))))))), tt),
      ),
    ),
  ),
)

plugin_tables-Distinct : Entries (λ t fields. Distinct (plugin_defaults fields)) plugin_tables
unfolding get
plugin_tables-Distinct = (
  (refl, (refl, (refl, (refl, (refl, (refl, (refl, (refl, (refl, (refl, (refl, tt))))))))))),
  ((refl, (refl, (refl, (refl, (refl, (refl, (refl, tt))))))), tt),
)

fields-Distinct :
    (driver_type : String)
    → Distinct (connection_defaults (connection_fields_for_driver driver_type))
unfolding connection_fields_for_driver
fields-Distinct driver_type = elim (Option-cases (get connection_tables driver_type)) [
  | inl e ↦ rw e tt
  | inr (fields, e) ↦ rw e (
      get-Entries (λ t l. Distinct (connection_defaults l)) connection_tables driver_type fields
        connection_tables-Distinct e)
]

plugins-Distinct : (plugin_type : String) → Distinct (plugin_defaults (plugin_fields plugin_type))
unfolding plugin_fields
plugins-Distinct plugin_type = elim (Option-cases (get plugin_tables plugin_type)) [
  | inl e ↦ rw e tt
  | inr (fields, e) ↦ rw e (
      get-Entries (λ t l. Distinct (plugin_defaults l)) plugin_tables plugin_type fields
        plugin_tables-Distinct e)
]

-- Whatever a connection holds, normalising it gives exactly one entry for each field of the driver type, in
-- the order of the table: the value that the connection has under the field's key, else the field's
-- default. Normalising twice is normalising once. The same holds of the configurations of the plugins.
pub normalize-completed :
    (driver_type plugin_type : String) (existing : Dict String Json)
    → (normalize_connection_for_driver driver_type existing
        ≡ completed existing (connection_defaults (connection_fields_for_driver driver_type)))
      × (normalize_connection_for_driver driver_type
            (normalize_connection_for_driver driver_type existing)
          ≡ normalize_connection_for_driver driver_type existing)
      × (normalize_plugin_config plugin_type existing
          ≡ completed existing (plugin_defaults (plugin_fields plugin_type)))
      × (normalize_plugin_config plugin_type (normalize_plugin_config plugin_type existing)
          ≡ normalize_plugin_config plugin_type existing)
unfolding normalize_connection_for_driver default_connection_for_driver normalize_plugin_config
    default_plugin_config
normalize-completed driver_type plugin_type existing =
    let c = connection_defaults (connection_fields_for_driver driver_type) in
    let p = plugin_defaults (plugin_fields plugin_type) in
    let once = overlay-defaults existing c (fields-Distinct driver_type) in
    let plugin_once = overlay-defaults existing p (plugins-Distinct plugin_type) in
    (
      once,
      overlay-again existing c (fields-Distinct driver_type),
      plugin_once,
      overlay-again existing p (plugins-Distinct plugin_type),
    )

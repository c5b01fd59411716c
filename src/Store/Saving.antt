-- ===== src/Store/Saving.antt =====
-- `save_tag` and `save_output_route` keep the store consistent.
use mathlib.Core.Path.{subst}
use iot_gathering.Common.{
  suc, String, ℤ, pos, Bool, true, false, Bool-cases, not, ◌&&◌, Option, Option-cases, none, some,
  [], ◌∷◌, ◌≡◌, refl, sym, ap, inl, inr, arith, All-append, All-mono, ◌==◌, string_eq, int_eq,
  option_eq,
}
use iot_gathering.Common.Dict.{Dict, get, Entries}
use iot_gathering.Common.Result.{
  runtime_error, ok, >>-ok, raise_first, raise_first-AllFalse, >>=-ok, ok_injective,
}
use iot_gathering.Models.{TagSpec, OutputRouteConfig}
use iot_gathering.Models.Validation.{validate_tag}
use iot_gathering.Models.Accepted.{IsWellFormed, validate_tag-IsWellFormed}
use iot_gathering.Store.Tables.{
  Store, is_some, update_row, driver_type_for_device, same_name, is_other, unique_checks,
  with_tag_id, stored_tag, save_tag, has_device, with_route_id, stored_route, wants_device,
  save_output_route,
}
use iot_gathering.Store.Unique.{
  update_row-Entries, IsFree, tests_false, All-both, append-Unique, update_row-Unique,
}
use iot_gathering.Store.Consistent.{
  is_owned, IsTagRow, IsConsistent, with_tag_id-IsWellFormed, moved, has_later,
}

-- What `save_tag` has checked.
pub record IsSaved (id_text : ℤ → String) (s : Store) (tag : TagSpec) (t : Store × ℤ) : Type 0 where
  pub well_formed : IsWellFormed tag
  pub owned : is_owned s tag.device_id ≡ true
  pub free : IsFree tag tag.id s.tags
  pub stored : stored_tag s tag tag.id ≡ t

driver-owned :
    (id_text : ℤ → String) (s : Store) (o : Option ℤ) (r : String × ℤ)
    → driver_type_for_device id_text s o ≡ ok r
    → is_owned s o ≡ true
driver-owned id_text s none r h = absurd (cc h)
driver-owned id_text s (some d) r h = elim (Option-cases (get s.devices d)) [
  | inl n ↦ absurd (cc (rw (n, driver_type_for_device) at h))
  | inr (device, e) ↦ rw e refl
]

pub save_tag-IsSaved :
    (id_text : ℤ → String) (s : Store) (tag : TagSpec) (t : Store × ℤ)
    → save_tag id_text s tag ≡ ok t
    → IsSaved id_text s tag t
unfolding save_tag
save_tag-IsSaved id_text s tag t h =
    let (driver, found, h1) = >>=-ok (driver_type_for_device id_text s tag.device_id) _ h in
    let (valid, h2) = >>-ok (validate_tag driver.0 tag) _ h1 in
    let (free, h3) = >>-ok (raise_first (unique_checks s tag)) _ h2 in
    record {
      well_formed = validate_tag-IsWellFormed driver.0 tag valid;
      owned = driver-owned id_text s tag.device_id driver found;
      free =
          tests_false (λ p. same_name tag p.1 && is_other tag.id p.0) s.tags
            (raise_first-AllFalse (unique_checks s tag) free).0;
      stored = ok_injective h3;
    }

pub free_of_none :
    (tag r : TagSpec) (j : ℤ)
    → (same_name tag r && is_other none j) ≡ false
    → same_name tag r ≡ false
free_of_none tag r j h = ground arith

pub fresh_id :
    (s : Store) (id : ℤ) (tag : TagSpec) → IsTagRow s id tag → (pos (suc s.last_tag) == id) ≡ false
fresh_id s id tag r = rw r.numbered (ground (arith, r.given))

-- The row that is updated keeps its number.
update_tag-Entries :
    (s : Store) (tag : TagSpec) (id : ℤ)
    → IsWellFormed tag
    → is_owned s tag.device_id ≡ true
    → (rows : Dict ℤ TagSpec) → Entries (IsTagRow s) rows
    → Entries (IsTagRow s) (update_row rows id (with_tag_id tag id))
unfolding update_row
update_tag-Entries s tag id w d [] h = tt
update_tag-Entries s tag id w d ((j, r) ∷ rows) h = elim (Bool-cases (j == id)) [
  | inl same ↦ rw same (
    record {
      number = h.0.number;
      numbered = h.0.numbered;
      given = h.0.given;
      named = ap some (sym ((int_eq.beq_iff j id).0 same));
      well_formed = with_tag_id-IsWellFormed tag id w;
      owned = d;
    },
    update_tag-Entries s tag id w d rows h.1,
  )
  | inr other ↦ rw other (h.0, update_tag-Entries s tag id w d rows h.1)
]

with_tags-IsConsistent :
    (id_text : ℤ → String) (s : Store) (tag : TagSpec) (o : Option ℤ)
    → IsWellFormed tag
    → is_owned s tag.device_id ≡ true
    → IsFree tag o s.tags
    → IsConsistent s
    → IsConsistent (stored_tag s tag o).0
with_tags-IsConsistent id_text s tag none w d f c =
    let id = pos (suc s.last_tag) in
    let t = (stored_tag s tag none).0 in
    record {
      unique =
          append-Unique s.tags id (with_tag_id tag id) c.unique (
            All-both s.tags (λ p q r. (free_of_none tag p.1 p.0 q, fresh_id s p.0 p.1 r)) f c.tags);
      tags =
          All-append _ s.tags ((id, with_tag_id tag id) ∷ [])
            (All-mono _ _ s.tags (λ p r. moved s t p.0 p.1 (omega arith) r.owned r) c.tags)
            (
              record {
                number = suc s.last_tag;
                numbered = refl;
                given = omega arith;
                named = refl;
                well_formed = with_tag_id-IsWellFormed tag id w;
                owned = d;
              },
              tt,
            );
      routes = c.routes;
    }
with_tags-IsConsistent id_text s tag (some id) w d f c = record {
  unique = update_row-Unique s.tags id (with_tag_id tag id) c.unique f;
  tags =
      All-mono _ _ (update_row s.tags id (with_tag_id tag id))
        (λ p r. moved s (stored_tag s tag (some id)).0 p.0 p.1 (omega arith) r.owned r)
        (update_tag-Entries s tag id w d s.tags c.tags);
  routes = c.routes;
}

pub save_tag-IsConsistent :
    (id_text : ℤ → String) (s : Store) (tag : TagSpec) (t : Store × ℤ)
    → save_tag id_text s tag ≡ ok t
    → IsConsistent s
    → IsConsistent t.0
save_tag-IsConsistent id_text s tag t h c =
    let v = save_tag-IsSaved id_text s tag t h in
    subst (λ r. IsConsistent r.0) v.stored
      (with_tags-IsConsistent id_text s tag tag.id v.well_formed v.owned v.free c)

not_missing : (b : Bool) → not b ≡ false → b ≡ true
not_missing true h = refl
not_missing false h = cc

update_row-gone {ℓ} :
    {A : Type ℓ} (rows : Dict ℤ A) (id : ℤ) (row : A)
    → is_some (get rows id) ≡ false
    → update_row rows id row ≡ rows
unfolding update_row get
update_row-gone [] id row h = refl
update_row-gone ((j, r) ∷ rows) id row h = ground (arith, update_row-gone rows id row)

update_route-Entries :
    (s : Store) (route : OutputRouteConfig) (id : ℤ) (rows : Dict ℤ OutputRouteConfig)
    → (is_some (get rows id) && not (has_device s route.device_id)) ≡ false
    → Entries (λ i r. has_device s r.device_id ≡ true) rows
    → Entries (λ i r. has_device s r.device_id ≡ true) (update_row rows id (with_route_id route id))
update_route-Entries s route id rows h k = elim (Bool-cases (is_some (get rows id))) [
  | inl there ↦
      update_row-Entries (λ i r. has_device s r.device_id ≡ true) rows id (with_route_id route id)
        (not_missing _ (rw there at h)) k
  | inr gone ↦ rw (update_row-gone rows id (with_route_id route id) gone) k
]

with_routes-IsConsistent :
    (s : Store) (route : OutputRouteConfig) (o : Option ℤ)
    → (elim o [ none ↦ true | some id ↦ is_some (get s.routes id) ]
        && not (has_device s route.device_id))
      ≡ false
    → IsConsistent s
    → IsConsistent (stored_route s route o).0
with_routes-IsConsistent s route none h c = record {
  unique = c.unique;
  tags =
      All-mono _ _ s.tags
        (λ p r. moved s (stored_route s route none).0 p.0 p.1 (omega arith) r.owned r) c.tags;
  routes =
      All-append _ s.routes _
        (All-mono _ _ s.routes
          (λ p r. has_later s (stored_route s route none).0 p.1.device_id (λ e g. g) r) c.routes)
        (has_later s (stored_route s route none).0 route.device_id (λ e g. g) (ground arith), tt);
}
with_routes-IsConsistent s route (some id) h c = record {
  unique = c.unique;
  tags =
      All-mono _ _ s.tags
        (λ p r. moved s (stored_route s route (some id)).0 p.0 p.1 (omega arith) r.owned r) c.tags;
  routes =
      All-mono _ _ (update_row s.routes id (with_route_id route id))
        (λ p r. has_later s (stored_route s route (some id)).0 p.1.device_id (λ e g. g) r)
        (update_route-Entries s route id s.routes h c.routes);
}

pub save_output_route-IsConsistent :
    (s : Store) (route : OutputRouteConfig) (t : Store × ℤ)
    → save_output_route s route ≡ ok t
    → IsConsistent s
    → IsConsistent t.0
unfolding save_output_route
save_output_route-IsConsistent s route t h c =
    let checks =
      (
        wants_device s route && not (has_device s route.device_id),
        runtime_error "FOREIGN KEY constraint failed",
      )
      ∷ [] in
    let (valid, e) = >>-ok (raise_first checks) _ h in
    subst (λ r. IsConsistent r.0) (ok_injective e)
      (with_routes-IsConsistent s route route.id (raise_first-AllFalse checks valid).0 c)

-- ===== src/Config/Again.antt =====
-- `_upsert_tag` finds what it saved, and saves it again without a change.
use mathlib.Core.Path.{subst}
use iot_gathering.Common.{
  ℤ, pos, suc, String, Bool, true, false, Bool-cases, ◌&&◌, Option, none, some, List, [], ◌∷◌, ◌++◌,
  ◌≡◌, ◌∙◌, refl, sym, ap, inl, inr, ◌⊎◌, arith, any, All, All-mono, ◌==◌, string_eq, int_eq,
  option_eq,
}
use iot_gathering.Common.Dict.{Dict, values}
use iot_gathering.Common.Result.{Result, ok, err, >>=-ok, >>-ok, AllFalse-raise_first}
use iot_gathering.Models.{TagSpec}
use iot_gathering.Models.Validation.{
  validate_tag, validate_modbus_tag, validate_opcua_tag, validate_mqtt_tag,
  validate_common_tag_fields,
}
use iot_gathering.Store.Tables.{
  Store, same_name, is_other, with_tag_id, stored_tag, driver_type_for_device, has_conflict,
  unique_checks, save_tag,
}
use iot_gathering.Store.Configs.{list_tags}
use iot_gathering.Store.Ordered.{
  order_rows-any, order_rows-All, keep-any, keep-All, values-any, values-All,
}
use iot_gathering.Store.Consistent.{IsTagRow, IsConsistent}
use iot_gathering.Store.Saving.{save_tag-IsSaved, fresh_id}
use iot_gathering.Config.Service.{saved, save}
use iot_gathering.Config.DeviceImports.{existing_tag_id, tag_of_device, upsert_tag}
use iot_gathering.Config.Upserting.{
  is_named, existing_tag_id-some, existing_tag_id-any, IsRow, stored_tag-IsRow, same_name_self,
  update_row-any, update_row-again, update_row-append,
}

any-from {ℓ κ} :
    {A : Type ℓ} (R : A → Type κ) (p q : A → Bool) (l : List A)
    → All R l
    → ((a : A) → R a → p a ≡ true → q a ≡ true)
    → any p l ≡ true
    → any q l ≡ true
any-from R p q [] h f k = absurd (cc k)
any-from R p q (a ∷ l) h f k = elim (Bool-cases (p a)) [
  | inl e ↦ rw (f a h.0 e) refl
  | inr e ↦ ground (arith, any-from R p q l h.1 f (rw e at k))
]

units {ℓ} : {A : Type ℓ} (l : List A) → All (λ a. Unit {0}) l
units [] = tt
units (a ∷ l) = (tt, units l)

any-last {ℓ} :
    {A : Type ℓ} (p : A → Bool) (l : List A) (a : A) → p a ≡ true → any p (l ++ a ∷ []) ≡ true
any-last p [] a h = rw h refl
any-last p (b ∷ l) a h = ground (arith, any-last p l a h)

save_tag-ok :
    (id_text : ℤ → String) (u : Store) (w : TagSpec) (driver : String × ℤ)
    → driver_type_for_device id_text u w.device_id ≡ ok driver
    → validate_tag driver.0 w ≡ ok tt
    → has_conflict u w ≡ false
    → save_tag id_text u w ≡ ok (stored_tag u w w.id)
unfolding save_tag
save_tag-ok id_text u w driver found valid free =
    let unique = AllFalse-raise_first (unique_checks u w) (free, tt) in
    rw (found, valid, unique) refl

module _ (device_id : ℤ) (tag : TagSpec) where
  -- The tag as it is saved.
  abbrev owned : Option ℤ → TagSpec
  owned id = tag_of_device device_id tag id

  named-device :
      (o : Option ℤ) (t : TagSpec)
      → same_name (owned o) t ≡ ((t.device_id == some device_id) && is_named tag t)
  named-device o t = ground (
    arith,
    (option_eq {A = ℤ}).beq_iff (some device_id) t.device_id,
    (option_eq {A = ℤ}).beq_iff t.device_id (some device_id),
    string_eq.beq_iff tag.tag_group t.tag_group,
    string_eq.beq_iff t.tag_group tag.tag_group,
    string_eq.beq_iff tag.name t.name,
    string_eq.beq_iff t.name tag.name,
  )

  list_tags-found :
      (t : Store) (o : Option ℤ) (id : ℤ)
      → All (IsRow (owned o) id) t.tags
      → any (λ p. same_name (owned o) p.1) t.tags ≡ true
      → existing_tag_id (list_tags t device_id) tag ≡ some id
  unfolding list_tags
  list_tags-found t o id h k =
      existing_tag_id-some tag id _
        (order_rows-All _ _ _ (
          All-mono _ _ _ (λ u q. listed u q.0 q.1)
            (keep-All (λ u. u.device_id == some device_id)
              (λ u. (same_name (owned o) u ≡ false) ⊎ (u.id ≡ some id)) (values t.tags)
              (values-All _ t.tags (All-mono _ _ t.tags (λ p q. row p q) h)))))
        (order_rows-any _ (is_named tag) _
          ∙ keep-any _ (is_named tag) (values t.tags)
          ∙ values-any _ t.tags
          ∙ any-from (λ p. Unit {0}) (λ p. same_name (owned o) p.1) _ t.tags (units t.tags)
              (λ p u e. sym (named-device o p.1) ∙ e) k)
    where
      row :
          (p : ℤ × TagSpec)
          → IsRow (owned o) id p
          → (same_name (owned o) p.1 ≡ false) ⊎ (p.1.id ≡ some id)
      row p (inl e) = inl e
      row p (inr q) = inr q.1

      listed :
          (u : TagSpec)
          → (same_name (owned o) u ≡ false) ⊎ (u.id ≡ some id)
          → (u.device_id == some device_id) ≡ true
          → (is_named tag u ≡ false) ⊎ (u.id ≡ some id)
      listed u (inl e) there = inl (ground (arith, named-device o u))
      listed u (inr q) there = inr q

  -- An id that is found is one of a row.
  row-there :
      (id_text : ℤ → String) (s : Store) (id : ℤ)
      → IsConsistent s
      → existing_tag_id (list_tags s device_id) tag ≡ some id
      → any (λ p. p.0 == id) s.tags ≡ true
  unfolding list_tags
  row-there id_text s id c h =
      any-from (λ p. IsTagRow s p.0 p.1)
        (λ p. (p.1.device_id == some device_id) && (is_named tag p.1 && p.1.id == some id)) _ s.tags
        c.tags (λ p r e. id_of p r e)
        (sym (
            order_rows-any _ (λ u. is_named tag u && u.id == some id) _
            ∙ keep-any _ (λ u. is_named tag u && u.id == some id) (values s.tags)
            ∙ values-any _ s.tags)
          ∙ existing_tag_id-any tag id _ h)
    where
      id_of :
          (p : ℤ × TagSpec)
          → IsTagRow s p.0 p.1
          → ((p.1.device_id == some device_id) && (is_named tag p.1 && p.1.id == some id)) ≡ true
          → (p.0 == id) ≡ true
      id_of (j, t) r e =
          ground (arith, r.named, (option_eq {A = ℤ}).beq_iff t.id (some id), int_eq.beq_iff j id)

  saved-there :
      (id_text : ℤ → String) (s : Store) (o : Option ℤ)
      → IsConsistent s
      → existing_tag_id (list_tags s device_id) tag ≡ o
      → any (λ p. same_name (owned o) p.1) (stored_tag s (owned o) o).0.tags ≡ true
  saved-there id_text s none c h =
      any-last _ s.tags (pos (suc s.last_tag), with_tag_id (owned none) (pos (suc s.last_tag)))
        (same_name_self (owned none) (pos (suc s.last_tag)))
  saved-there id_text s (some id) c h =
      update_row-any (owned (some id)) id s.tags (row-there id_text s id c h)

  -- The same row again.
  stored-again :
      (s : Store) (o : Option ℤ)
      → IsConsistent s
      → let t = stored_tag s (owned o) o in stored_tag t.0 (owned (some t.1)) (some t.1) ≡ t
  stored-again s none c =
      ap (λ rows. (record (stored_tag s (owned none) none).0 { tags = rows }, pos (suc s.last_tag)))
        (update_row-append s.tags (pos (suc s.last_tag))
          (with_tag_id (owned none) (pos (suc s.last_tag)))
          (All-mono _ _ s.tags (λ p r. fresh_id s p.0 p.1 r) c.tags))
  stored-again s (some id) c =
      ap (λ rows. (record s { tags = rows }, id))
        (update_row-again s.tags id (with_tag_id (owned (some id)) id))

  -- The checks, in the store that has the row.
  no_conflict :
      (s : Store) (o : Option ℤ) (rows : Dict ℤ TagSpec) (id : ℤ)
      → All (IsRow (owned o) id) rows
      → any (λ p. same_name (owned (some id)) p.1 && is_other (some id) p.0) rows ≡ false
  no_conflict s o [] id h = refl
  no_conflict s o (p ∷ rows) id (inl e, h) = rw e (no_conflict s o rows id h)
  no_conflict s o (p ∷ rows) id (inr (e, f), h) =
      ground (arith, e, int_eq.beq_iff p.0 id, no_conflict s o rows id h)

  same_driver :
      (id_text : ℤ → String) (s : Store) (w : TagSpec) (o d : Option ℤ)
      → driver_type_for_device id_text (stored_tag s w o).0 d ≡ driver_type_for_device id_text s d
  same_driver id_text s w none none = refl
  same_driver id_text s w none (some d) = refl
  same_driver id_text s w (some id) none = refl
  same_driver id_text s w (some id) (some d) = refl

  same_validity :
      (driver : String) (o : Option ℤ) (id : ℤ)
      → validate_tag driver (owned (some id)) ≡ validate_tag driver (owned o)
  unfolding validate_tag validate_modbus_tag validate_opcua_tag validate_mqtt_tag
      validate_common_tag_fields
  same_validity driver o id = refl

  save_tag-again :
      (id_text : ℤ → String) (s : Store) (o : Option ℤ) (t : Store × ℤ)
      → IsConsistent s
      → save_tag id_text s (owned o) ≡ ok t
      → save_tag id_text t.0 (owned (some t.1)) ≡ ok t
  unfolding save_tag
  save_tag-again id_text s o t c h =
      let v = save_tag-IsSaved id_text s (owned o) t h in
      let (driver, found, h1) = >>=-ok (driver_type_for_device id_text s (some device_id)) _ h in
      let (valid, h2) = >>-ok (validate_tag driver.0 (owned o)) _ h1 in
      subst (λ r. save_tag id_text r.0 (owned (some r.1)) ≡ ok r) v.stored
        (save_tag-ok id_text (stored_tag s (owned o) o).0
            (owned (some (stored_tag s (owned o) o).1)) driver
            (same_driver id_text s (owned o) o (some device_id) ∙ found)
            (same_validity driver.0 o (stored_tag s (owned o) o).1 ∙ valid)
            (no_conflict s o _ _ (stored_tag-IsRow s (owned o) o v.free))
          ∙ ap ok (stored-again s o c))

saved-ok {ℓ} :
    {A : Type ℓ} (s t : Store) (a : A) (r : Result (Store × A))
    → saved s r ≡ (t, ok a)
    → r ≡ ok (t, a)
saved-ok s t a (err e) h = cc
saved-ok s t a (ok (u, b)) h = cc

-- Importing a tag is idempotent: in a consistent store, a tag that was imported into a device is found under its
-- name and group there, and importing it again succeeds, gives the same id and leaves the store as it is.
pub upsert_tag-again :
    (id_text : ℤ → String) (s t : Store) (device_id id : ℤ) (tag : TagSpec)
    → IsConsistent s
    → upsert_tag id_text device_id tag s ≡ (t, ok id)
    → (existing_tag_id (list_tags t device_id) tag ≡ some id)
      × (upsert_tag id_text device_id tag t ≡ (t, ok id))
unfolding upsert_tag save
upsert_tag-again id_text s t device_id id tag c h =
    let o = existing_tag_id (list_tags s device_id) tag in
    let first = saved-ok s t id _ h in
    let v = save_tag-IsSaved id_text s (owned device_id tag o) (t, id) first in
    let there =
      list_tags-found device_id tag (stored_tag s (owned device_id tag o) o).0 o _
        (stored_tag-IsRow s (owned device_id tag o) o v.free)
        (saved-there device_id tag id_text s o c refl) in
    let found : existing_tag_id (list_tags t device_id) tag ≡ some id =
      subst (λ r. existing_tag_id (list_tags r.0 device_id) tag ≡ some r.1) v.stored there in
    let again = save_tag-again device_id tag id_text s o (t, id) c first in
    (found, rw (found, again) refl)

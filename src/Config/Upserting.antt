-- ===== src/Config/Upserting.antt =====
-- Importing a tag twice.
use iot_gathering.Common.{
  ℤ, Bool, true, false, Bool-cases, ◌&&◌, Option, none, some, List, [], ◌∷◌, ◌++◌, ◌≡◌, refl, inl,
  inr, ◌⊎◌, arith, any, All, All-append, All-mono, ◌==◌, string_eq, int_eq, option_eq, beq_self,
}
use iot_gathering.Common.Dict.{Dict}
use iot_gathering.Models.{TagSpec}
use iot_gathering.Store.Tables.{Store, update_row, same_name, with_tag_id, stored_tag}
use iot_gathering.Store.Unique.{IsFree}
use iot_gathering.Store.Saving.{free_of_none}
use iot_gathering.Config.DeviceImports.{existing_tag_id}

-- The test of `_existing_tag_id`.
abbrev pub is_named : TagSpec → TagSpec → Bool
is_named tag t = t.tag_group == tag.tag_group && t.name == tag.name

-- Where each tag of the name has one id, and one is there, that id is found.
pub existing_tag_id-some :
    (tag : TagSpec) (id : ℤ) (l : List TagSpec)
    → All (λ t. (is_named tag t ≡ false) ⊎ (t.id ≡ some id)) l
    → any (is_named tag) l ≡ true
    → existing_tag_id l tag ≡ some id
unfolding existing_tag_id
existing_tag_id-some tag id [] h k = absurd (cc k)
existing_tag_id-some tag id (t ∷ l) h k = elim (Bool-cases (is_named tag t)) [
  | inl e ↦ rw e (elim h.0 [ inl f ↦ absurd (cc (f, e)) | inr q ↦ q ])
  | inr e ↦ rw e (existing_tag_id-some tag id l h.1 (rw e at k))
]

-- An id that is found is that of a tag of the name.
pub existing_tag_id-any :
    (tag : TagSpec) (id : ℤ) (l : List TagSpec)
    → existing_tag_id l tag ≡ some id
    → any (λ t. is_named tag t && t.id == some id) l ≡ true
unfolding existing_tag_id
existing_tag_id-any tag id [] h = absurd (cc h)
existing_tag_id-any tag id (t ∷ l) h =
    ground (arith, (option_eq {A = ℤ}).beq_iff t.id (some id), existing_tag_id-any tag id l)

-- A row of the tag that is saved, or one of another name.
abbrev pub IsRow : TagSpec → ℤ → ℤ × TagSpec → Type 0
IsRow tag id p = (same_name tag p.1 ≡ false) ⊎ ((p.0 ≡ id) × (p.1.id ≡ some id))

update_row-IsRow :
    (tag : TagSpec) (id : ℤ) (rows : Dict ℤ TagSpec)
    → IsFree tag (some id) rows
    → All (IsRow tag id) (update_row rows id (with_tag_id tag id))
unfolding update_row
update_row-IsRow tag id [] h = tt
update_row-IsRow tag id ((j, r) ∷ rows) h = elim (Bool-cases (j == id)) [
  | inl e ↦ rw e (inr ((int_eq.beq_iff j id).0 e, refl), update_row-IsRow tag id rows h.1)
  | inr e ↦ rw e (inl (ground arith), update_row-IsRow tag id rows h.1)
]

pub stored_tag-IsRow :
    (s : Store) (tag : TagSpec) (o : Option ℤ)
    → IsFree tag o s.tags
    → All (IsRow tag (stored_tag s tag o).1) (stored_tag s tag o).0.tags
stored_tag-IsRow s tag none h =
    All-append _ s.tags _ (All-mono _ _ s.tags (λ p f. inl (free_of_none tag p.1 p.0 f)) h)
      (inr (refl, refl), tt)
stored_tag-IsRow s tag (some id) h = update_row-IsRow tag id s.tags h

pub same_name_self : (tag : TagSpec) (id : ℤ) → same_name tag (with_tag_id tag id) ≡ true
same_name_self tag id =
    rw
      (
        beq_self (option_eq {A = ℤ}) tag.device_id,
        beq_self string_eq tag.tag_group,
        beq_self string_eq tag.name,
      )
      refl

-- Whether the tag is there once it is saved.
pub update_row-any :
    (tag : TagSpec) (id : ℤ) (rows : Dict ℤ TagSpec)
    → any (λ p. p.0 == id) rows ≡ true
    → any (λ p. same_name tag p.1) (update_row rows id (with_tag_id tag id)) ≡ true
unfolding update_row
update_row-any tag id [] h = cc
update_row-any tag id ((j, r) ∷ rows) h =
    ground (arith, same_name_self tag id, update_row-any tag id rows)

-- The row that is saved, twice.
pub update_row-again :
    (rows : Dict ℤ TagSpec) (id : ℤ) (row : TagSpec)
    → update_row (update_row rows id row) id row ≡ update_row rows id row
unfolding update_row
update_row-again [] id row = refl
update_row-again ((j, r) ∷ rows) id row = ground (arith, update_row-again rows id row)

pub update_row-append :
    (rows : Dict ℤ TagSpec) (id : ℤ) (row : TagSpec)
    → All (λ p. (id == p.0) ≡ false) rows
    → update_row (rows ++ (id, row) ∷ []) id row ≡ rows ++ (id, row) ∷ []
unfolding update_row
update_row-append [] id row h = rw (beq_self int_eq id) refl
update_row-append ((j, r) ∷ rows) id row h =
    ground (arith, h.0, int_eq.beq_iff j id, int_eq.beq_iff id j, update_row-append rows id row h.1)

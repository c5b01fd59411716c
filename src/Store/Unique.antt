-- ===== src/Store/Unique.antt =====
-- Rows under their ids: the laws of the statements that change a table.
use mathlib.Core.Path.{subst}
use iot_gathering.Common.{
  ℤ, Bool, true, false, Bool-cases, ◌&&◌, Option, some, List, [], ◌∷◌, ◌++◌, ◌≡◌, refl, sym, inl,
  inr, arith, any, All, All-append, All-mono, ◌==◌, string_eq, int_eq, option_eq,
}
use iot_gathering.Common.Dict.{Dict, get, remove, get-remove, Entries, remove-Entries}
use iot_gathering.Models.{TagSpec}
use iot_gathering.Store.Tables.{is_some, update_row, delete_where, same_name, is_other}

module _ {ℓ κ} {A : Type ℓ} (P : ℤ → A → Type κ) where
  pub update_row-Entries :
      (rows : Dict ℤ A) (id : ℤ) (row : A)
      → P id row
      → Entries P rows
      → Entries P (update_row rows id row)
  unfolding update_row
  update_row-Entries [] id row p h = tt
  update_row-Entries ((j, r) ∷ rows) id row p h = elim (Bool-cases (j == id)) [
    | inl same ↦ rw same (
      subst (λ i. P i row) (sym ((int_eq.beq_iff j id).0 same)) p,
      update_row-Entries rows id row p h.1,
    )
    | inr other ↦ rw other (h.0, update_row-Entries rows id row p h.1)
  ]

  pub delete_where-Entries :
      (test : A → Bool) (rows : Dict ℤ A)
      → Entries P rows
      → Entries (λ id a. P id a × (test a ≡ false)) (delete_where test rows)
  unfolding delete_where
  delete_where-Entries test [] h = tt
  delete_where-Entries test ((j, r) ∷ rows) h = elim (Bool-cases (test r)) [
    | inl hit ↦ rw hit (delete_where-Entries test rows h.1)
    | inr miss ↦ rw miss ((h.0, miss), delete_where-Entries test rows h.1)
  ]

-- No two rows bear one name in one group of a device.
abbrev pub Unique : Dict ℤ TagSpec → Type 0
Unique [] = Unit
Unique ((id, tag) ∷ rows) =
    All (λ p. (same_name tag p.1 ≡ false) × ((p.0 == id) ≡ false)) rows × Unique rows

-- The name of `tag` is free in the rows but for the row of its own id.
abbrev pub IsFree : TagSpec → Option ℤ → Dict ℤ TagSpec → Type 0
IsFree tag id rows = All (λ p. (same_name tag p.1 && is_other id p.0) ≡ false) rows

pub tests_false {ℓ} :
    {A : Type ℓ} (p : A → Bool) (xs : List A) → any p xs ≡ false → All (λ x. p x ≡ false) xs
tests_false p [] h = tt
tests_false p (x ∷ xs) h = (ground arith, tests_false p xs (ground arith))

same_name-sym : (a b : TagSpec) → same_name a b ≡ false → same_name b a ≡ false
same_name-sym a b h = ground (
  arith,
  (option_eq {A = ℤ}).beq_iff a.device_id b.device_id,
  (option_eq {A = ℤ}).beq_iff b.device_id a.device_id,
  string_eq.beq_iff a.tag_group b.tag_group,
  string_eq.beq_iff b.tag_group a.tag_group,
  string_eq.beq_iff a.name b.name,
  string_eq.beq_iff b.name a.name,
)

pub All-both :
    {P Q R : ℤ × TagSpec → Type 0} (rows : Dict ℤ TagSpec)
    → ((p : ℤ × TagSpec) → P p → Q p → R p)
    → All P rows
    → All Q rows
    → All R rows
All-both [] f p q = tt
All-both (x ∷ rows) f p q = (f x p.0 q.0, All-both rows f p.1 q.1)

int_beq_sym : (a b : ℤ) → (a == b) ≡ false → (b == a) ≡ false
int_beq_sym a b h = ground (arith, int_eq.beq_iff a b, int_eq.beq_iff b a)

update_row-absent :
    (rows : Dict ℤ TagSpec) (id : ℤ) (row : TagSpec)
    → All (λ p. (p.0 == id) ≡ false) rows
    → update_row rows id row ≡ rows
unfolding update_row
update_row-absent [] id row h = refl
update_row-absent ((j, r) ∷ rows) id row h = rw (h.0, update_row-absent rows id row h.1) refl

pub append-Unique :
    (rows : Dict ℤ TagSpec) (id : ℤ) (tag : TagSpec)
    → Unique rows
    → All (λ p. (same_name tag p.1 ≡ false) × ((id == p.0) ≡ false)) rows
    → Unique (rows ++ (id, tag) ∷ [])
append-Unique [] id tag u f = (tt, tt)
append-Unique ((j, r) ∷ rows) id tag u f = (
  All-append _ rows ((id, tag) ∷ []) u.0 ((same_name-sym tag r f.0.0, f.0.1), tt),
  append-Unique rows id tag u.1 f.1,
)

-- An update of a row whose new name is free.
free_name :
    (tag r : TagSpec) (id j : ℤ)
    → (same_name tag r && is_other (some id) j) ≡ false
    → (j == id) ≡ false
    → same_name tag r ≡ false
free_name tag r id j f n = ground (arith, int_eq.beq_iff j id, int_eq.beq_iff id j)

pub update_row-Unique :
    (rows : Dict ℤ TagSpec) (id : ℤ) (tag : TagSpec)
    → Unique rows
    → IsFree tag (some id) rows
    → Unique (update_row rows id tag)
unfolding update_row
update_row-Unique [] id tag u f = tt
update_row-Unique ((j, r) ∷ rows) id tag u f = elim (Bool-cases (j == id)) [
  | inl same ↦
      let e = (int_eq.beq_iff j id).0 same in
      let absent : All (λ p. (p.0 == id) ≡ false) rows =
        rw e at (All-mono _ _ rows (λ p q. q.1) u.0) in
      rw (same, update_row-absent rows id tag absent)
        (All-both rows (λ p q g. (free_name tag p.1 id p.0 g (rw e at q.1), q.1)) u.0 f.1, u.1)
  | inr other ↦ rw other (
    update_row-Entries (λ i t. (same_name r t ≡ false) × ((i == j) ≡ false)) rows id tag
        (same_name-sym tag r (free_name tag r id j f.0 other), int_beq_sym j id other) u.0,
    update_row-Unique rows id tag u.1 f.1,
  )
]

pub remove-Unique : (rows : Dict ℤ TagSpec) (id : ℤ) → Unique rows → Unique (remove rows id)
unfolding remove
remove-Unique [] id u = tt
remove-Unique ((j, r) ∷ rows) id u = elim (Bool-cases (j == id)) [
  | inl same ↦ rw same (remove-Unique rows id u.1)
  | inr other ↦ rw other (
    remove-Entries (λ i t. (same_name r t ≡ false) × ((i == j) ≡ false)) rows id u.0,
    remove-Unique rows id u.1,
  )
]

pub delete_where-Unique :
    (test : TagSpec → Bool) (rows : Dict ℤ TagSpec) → Unique rows → Unique (delete_where test rows)
unfolding delete_where
delete_where-Unique test [] u = tt
delete_where-Unique test ((j, r) ∷ rows) u = elim (Bool-cases (test r)) [
  | inl hit ↦ rw hit (delete_where-Unique test rows u.1)
  | inr miss ↦ rw miss (
    All-mono _ _ (delete_where test rows) (λ p q. q.0)
        (delete_where-Entries (λ i t. (same_name r t ≡ false) × ((i == j) ≡ false)) test rows u.0),
    delete_where-Unique test rows u.1,
  )
]

-- Whether an id is there.
pub is_some-update_row {ℓ} :
    {A : Type ℓ} (rows : Dict ℤ A) (id : ℤ) (row : A) (d : ℤ)
    → is_some (get (update_row rows id row) d) ≡ is_some (get rows d)
unfolding update_row get
is_some-update_row [] id row d = refl
is_some-update_row ((j, r) ∷ rows) id row d = ground (arith, is_some-update_row rows id row d)

pub is_some-append {ℓ} :
    {A : Type ℓ} (rows : Dict ℤ A) (id : ℤ) (row : A) (d : ℤ)
    → is_some (get rows d) ≡ true
    → is_some (get (rows ++ (id, row) ∷ []) d) ≡ true
unfolding get
is_some-append [] id row d h = absurd (cc h)
is_some-append ((j, r) ∷ rows) id row d h = ground (arith, is_some-append rows id row d)

pub is_some-remove {ℓ} :
    {A : Type ℓ} (rows : Dict ℤ A) (id d : ℤ)
    → is_some (get rows d) ≡ true
    → (id == d) ≡ false
    → is_some (get (remove rows id) d) ≡ true
is_some-remove rows id d h n = rw (get-remove rows id d, n) h

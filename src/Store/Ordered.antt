-- ===== src/Store/Ordered.antt =====
-- What ordering and selecting rows keeps.
use iot_gathering.Common.{
  ℤ, Bool, true, Bool-cases, ◌&&◌, ◌||◌, List, [], ◌∷◌, ◌≡◌, refl, inl, inr, arith, any, keep, All,
  int_eq, option_eq,
}
use iot_gathering.Common.Dict.{Dict, values}
use iot_gathering.Store.Configs.{insert_row, order_rows}

module _ {ℓ} {A : Type ℓ} (before : A → A → Bool) where
  insert_row-any :
      (p : A → Bool) (a : A) (l : List A) → any p (insert_row before a l) ≡ (p a || any p l)
  unfolding insert_row
  insert_row-any p a [] = refl
  insert_row-any p a (b ∷ l) = ground (arith, insert_row-any p a l)

  pub order_rows-any : (p : A → Bool) (l : List A) → any p (order_rows before l) ≡ any p l
  unfolding order_rows
  order_rows-any p [] = refl
  order_rows-any p (a ∷ l) = rw (insert_row-any p a (order_rows before l), order_rows-any p l) refl

  insert_row-All {κ} :
      (P : A → Type κ) (a : A) (l : List A) → P a → All P l → All P (insert_row before a l)
  unfolding insert_row
  insert_row-All P a [] h k = (h, tt)
  insert_row-All P a (b ∷ l) h k = elim (Bool-cases (before a b)) [
    | inl e ↦ rw e (h, k)
    | inr e ↦ rw e (k.0, insert_row-All P a l h k.1)
  ]

  pub order_rows-All {κ} : (P : A → Type κ) (l : List A) → All P l → All P (order_rows before l)
  unfolding order_rows
  order_rows-All P [] h = tt
  order_rows-All P (a ∷ l) h = insert_row-All P a (order_rows before l) h.0 (order_rows-All P l h.1)

module _ {ℓ} {A : Type ℓ} (test : A → Bool) where
  pub keep-any : (p : A → Bool) (l : List A) → any p (keep test l) ≡ any (λ a. test a && p a) l
  keep-any p [] = refl
  keep-any p (a ∷ l) = ground (arith, keep-any p l)

  pub keep-All {κ} :
      (P : A → Type κ) (l : List A) → All P l → All (λ a. P a × (test a ≡ true)) (keep test l)
  keep-All P [] h = tt
  keep-All P (a ∷ l) h = elim (Bool-cases (test a)) [
    | inl e ↦ rw e ((h.0, e), keep-All P l h.1)
    | inr e ↦ rw e (keep-All P l h.1)
  ]

pub values-any {ℓ} :
    {A : Type ℓ} (p : A → Bool) (rows : Dict ℤ A) → any p (values rows) ≡ any (λ r. p r.1) rows
values-any p [] = refl
values-any p (r ∷ rows) = rw (values-any p rows) refl

pub values-All {ℓ κ} :
    {A : Type ℓ} (P : A → Type κ) (rows : Dict ℤ A) → All (λ r. P r.1) rows → All P (values rows)
values-All P [] h = tt
values-All P (r ∷ rows) h = (h.0, values-All P rows h.1)

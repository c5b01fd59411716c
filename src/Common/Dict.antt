-- ===== src/Common/Dict.antt =====
-- Python's `dict` and `OrderedDict` as association lists in insertion order: an assignment to a key
-- that is there keeps its place.
use iot_gathering.Common.Tests.{if◌then◌else◌, Bool-cases}
use iot_gathering.Common.Lists.{All, All-append, length}
use iot_gathering.Common.Equality.{Eq, ◌==◌}
use Prim.Native.Nat.{◌≤◌}
use mathlib.Core.Path.{◌≡◌, refl, sym, subst, subst₂}
use mathlib.Core.Logic.{◌≢◌, inl, inr}
use mathlib.Core.Option.{Option, none, some}
use mathlib.Core.List.{List, [], ◌∷◌, ◌++◌, map}
use native.Mathlib.Omega.{arith}

abbrev pub Dict {ℓ κ} : Type ℓ → Type κ → Type (ℓ ⊔ κ)
Dict K V = List (K × V)

module _ {ℓ κ} {K : Type ℓ} {V : Type κ} where
  abbrev pub keys : Dict K V → List K
  keys d = map (λ p. p.0) d

  abbrev pub values : Dict K V → List V
  values d = map (λ p. p.1) d

module _ {ℓ κ} {K : Type ℓ} {V : Type κ} ⦃e : Eq K⦄ where
  -- `d.get(k)`
  unfoldable pub get : Dict K V → K → Option V
  get [] k = none
  get ((j, v) ∷ d) k = if j == k then some v else get d k

  -- `d[k] = v`
  unfoldable pub put : Dict K V → K → V → Dict K V
  put [] k v = (k, v) ∷ []
  put ((j, w) ∷ d) k v = if j == k then (j, v) ∷ d else (j, w) ∷ put d k v

  -- `del d[k]`, where `k` may be missing
  unfoldable pub remove : Dict K V → K → Dict K V
  remove [] k = []
  remove ((j, w) ∷ d) k = let rest = remove d k in if j == k then rest else (j, w) ∷ rest

  pub get-put :
      (d : Dict K V) (k j : K) (v : V) → get (put d k v) j ≡ (if k == j then some v else get d j)
  unfolding get put
  get-put [] k j v = refl
  get-put ((i, w) ∷ d) k j v =
      ground (arith, e.beq_iff k j, e.beq_iff i k, e.beq_iff i j, get-put d k j v)

  pub get-remove :
      (d : Dict K V) (k j : K) → get (remove d k) j ≡ (if k == j then none else get d j)
  unfolding get remove
  get-remove [] k j = ground arith
  get-remove ((i, w) ∷ d) k j =
      ground (arith, e.beq_iff k j, e.beq_iff i k, e.beq_iff i j, get-remove d k j)

  -- `d.pop(k, None); d[k] = v`: the key moves to the end.
  unfoldable pub put_last : Dict K V → K → V → Dict K V
  unfolding remove
  put_last d k v = remove d k ++ (k, v) ∷ []

  get-append_one :
      (d : Dict K V) (k j : K) (v : V)
      → get (d ++ (k, v) ∷ []) j
        ≡ elim (get d j) [ some w ↦ some w | none ↦ if k == j then some v else none ]
  unfolding get
  get-append_one [] k j v = refl
  get-append_one ((i, w) ∷ d) k j v = ground (arith, get-append_one d k j v)

  pub get-put_last :
      (d : Dict K V) (k j : K) (v : V)
      → get (put_last d k v) j ≡ (if k == j then some v else get d j)
  unfolding put_last
  get-put_last d k j v = ground (arith, get-append_one (remove d k) k j v, get-remove d k j)

  -- No key stands twice.
  abbrev pub Distinct : Dict K V → Type κ
  Distinct [] = Unit
  Distinct ((k, v) ∷ d) = (get d k ≡ none) × Distinct d

  pub put-Distinct : (d : Dict K V) (k : K) (v : V) → Distinct d → Distinct (put d k v)
  unfolding put get
  put-Distinct [] k v h = (refl, tt)
  put-Distinct ((i, w) ∷ d) k v h =
      ground (arith, e.beq_iff k i, e.beq_iff i k, put-Distinct d k v, get-put d k i v)

  pub remove-Distinct : (d : Dict K V) (k : K) → Distinct d → Distinct (remove d k)
  unfolding remove get
  remove-Distinct [] k h = tt
  remove-Distinct ((i, w) ∷ d) k h = ground (arith, remove-Distinct d k, get-remove d k i)

  append_one-Distinct :
      (d : Dict K V) (k : K) (v : V) → get d k ≡ none → Distinct d → Distinct (d ++ (k, v) ∷ [])
  unfolding get
  append_one-Distinct [] k v n h = (refl, tt)
  append_one-Distinct ((i, w) ∷ d) k v n h =
      ground
        (arith, e.beq_iff i k, e.beq_iff k i, get-append_one d k i v, append_one-Distinct d k v)

  pub put_last-Distinct : (d : Dict K V) (k : K) (v : V) → Distinct d → Distinct (put_last d k v)
  unfolding put_last
  put_last-Distinct d k v h =
      append_one-Distinct (remove d k) k v (ground (arith, e.beq_iff k k, get-remove d k k))
        (remove-Distinct d k h)

  -- A key that is not there is not removed.
  pub remove-fresh : (d : Dict K V) (k : K) → get d k ≡ none → remove d k ≡ d
  unfolding remove get
  remove-fresh [] k h = refl
  remove-fresh ((i, w) ∷ d) k h = ground (arith, remove-fresh d k)

  get-middle : (d : Dict K V) (k : K) (v : V) (c : Dict K V) → get (d ++ (k, v) ∷ c) k ≢ none
  unfolding get
  get-middle [] k v c = ground (arith, e.beq_iff k k)
  get-middle ((i, w) ∷ d) k v c = ground (arith, get-middle d k v c)

  -- Where no key stands twice, a key stands in one part only.
  pub middle-fresh :
      (d : Dict K V) (k : K) (v : V) (c : Dict K V) → Distinct (d ++ (k, v) ∷ c) → get d k ≡ none
  unfolding get
  middle-fresh [] k v c h = refl
  middle-fresh ((i, w) ∷ d) k v c h =
      ground (arith, e.beq_iff i k, get-middle d k v c, middle-fresh d k v c)

  pub length-remove : (d : Dict K V) (k : K) → length (remove d k) ≤ length d
  unfolding remove
  length-remove [] k = omega arith
  length-remove ((i, w) ∷ d) k = ground (arith, length-remove d k)

pub some_eq {ℓ} : {V : Type ℓ} → {a b : V} → some a ≡ some b → a ≡ b
some_eq h = cc

-- A predicate of the entries.
module _ {ℓ κ μ} {K : Type ℓ} {V : Type κ} ⦃e : Eq K⦄ (P : K → V → Type μ) where
  abbrev pub Entries : Dict K V → Type μ
  Entries d = All (λ p. P p.0 p.1) d

  pub put-Entries : (d : Dict K V) (k : K) (v : V) → P k v → Entries d → Entries (put d k v)
  unfolding put
  put-Entries [] k v p h = (p, tt)
  put-Entries ((j, w) ∷ d) k v p h = elim (Bool-cases (j == k)) [
    | inl same ↦ rw same (subst (λ i. P i v) (sym ((e.beq_iff j k).0 same)) p, h.1)
    | inr other ↦ rw other (h.0, put-Entries d k v p h.1)
  ]

  pub remove-Entries : (d : Dict K V) (k : K) → Entries d → Entries (remove d k)
  unfolding remove
  remove-Entries [] k h = tt
  remove-Entries ((j, w) ∷ d) k h = elim (Bool-cases (j == k)) [
    | inl same ↦ rw same (remove-Entries d k h.1)
    | inr other ↦ rw other (h.0, remove-Entries d k h.1)
  ]

  pub put_last-Entries :
      (d : Dict K V) (k : K) (v : V) → P k v → Entries d → Entries (put_last d k v)
  unfolding put_last
  put_last-Entries d k v p h =
      All-append _ (remove d k) ((k, v) ∷ []) (remove-Entries d k h) (p, tt)

  pub get-Entries : (d : Dict K V) (k : K) (v : V) → Entries d → get d k ≡ some v → P k v
  unfolding get
  get-Entries [] k v h g = absurd (cc g)
  get-Entries ((j, w) ∷ d) k v h g = elim (Bool-cases (j == k)) [
    | inl same ↦ subst₂ P ((e.beq_iff j k).0 same) (some_eq (rw same at g)) h.0
    | inr other ↦ get-Entries d k v h.1 (rw other at g)
  ]

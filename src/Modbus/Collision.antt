-- ===== src/Modbus/Collision.antt =====
-- `results_by_name` holds one result for a name, so tags of one name share it.
use mathlib.Core.List.Perm
use mathlib.Core.List.{Perm, Mem, mem-cons, mem-cons_self, mem-cons_of_mem, not-mem-nil}
use mathlib.Core.HLevel.{¬_prop}
use mathlib.Core.Logic.Or
use iot_gathering.Common.{
  ℕ, suc, String, pos, Option-cases, none, some, List, [], ◌∷◌, map, length, ◌≡◌, refl, ap, ◌∙◌,
  inl, inr, string_eq, All,
}
use iot_gathering.Common.Json.{null}
use iot_gathering.Common.Dict.{get}
use iot_gathering.Common.Float.{Floats}
use iot_gathering.Common.Result.{ok}
use iot_gathering.Models.{DeviceSpec, TagSpec, TagResult, bad}
use iot_gathering.Modbus.Blocks.{ReadBlock}
use iot_gathering.Modbus.Partition.{plan_blocks-perm}
use iot_gathering.Modbus.Reading.{
  Reply, Results, result_of, results_of, read_blocks, read_tags_grouped,
}
use iot_gathering.Modbus.Named.{Has, read_blocks-Has, read_stages}

All-of_mem {ℓ κ} :
    {A : Type ℓ} (P : A → Type κ) (xs : List A) → ((x : A) → Mem x xs → P x) → All P xs
All-of_mem P [] h = tt
All-of_mem P (x ∷ xs) h = (h x mem-cons_self, All-of_mem P xs (λ y m. h y (mem-cons_of_mem x m)))

mem_of_All {ℓ κ} :
    {A : Type ℓ} (P : A → Type κ) (xs : List A) (x : A)
    → ((y : A) → IsProp (P y))
    → All P xs
    → Mem x xs
    → P x
mem_of_All P [] x p h m = absurd (not-mem-nil m)
mem_of_All P (y ∷ xs) x p h m =
    Or.elim (p x) (mem-cons.0 m) (λ e. rw e h.0) (λ n. mem_of_All P xs x p h.1 n)

All-perm {ℓ κ} :
    {A : Type ℓ} (P : A → Type κ) {xs ys : List A}
    → ((y : A) → IsProp (P y))
    → Perm xs ys
    → All P xs
    → All P ys
All-perm P {xs} {ys} p r h = All-of_mem P ys (λ y m. mem_of_All P xs y p h ((Perm.mem_iff r).1 m))

-- The entry of a name, where there is one.
entry : Results → String → TagResult
entry d n = elim (get d n) [
  | some r ↦ r
  | none ↦ record {
    name = n;
    address = pos 0;
    value = null;
    quality = bad;
    error = none;
    timestamp = 0;
    node_id = none;
    tag_group = "";
  }
]

module _ (floats : Floats) (client : ℕ → ReadBlock → Reply) (clock : ℕ → ℕ) where
  results_of-entry :
      (i : ℕ) (d : Results) (tags : List TagSpec)
      → All (λ t. Has d t.name) tags
      → results_of floats client clock i d tags ≡ map (λ t. entry d t.name) tags
  unfolding results_of entry
  results_of-entry i d [] h = refl
  results_of-entry i d (t ∷ ts) h = elim (Option-cases (get d t.name)) [
    | inl e ↦ absurd (h.0 e)
    | inr (r, e) ↦ rw (e, result_of, entry) (ap (λ rs. r ∷ rs) (results_of-entry (suc i) d ts h.1))
  ]

-- In a read that returns with a client, the result of a tag, its address and tag group included,
-- depends on the tag's name alone: two tags of one name, as the store allows in two groups, get
-- the same result.
pub read_tags_grouped-by_name :
    (floats : Floats) (clock : ℕ → ℕ) (client : ℕ → ReadBlock → Reply) (device : DeviceSpec)
    (tags : List TagSpec) {results : List TagResult}
    → read_tags_grouped floats clock (some client) device tags ≡ ok results
    → (result : String → TagResult) × (results ≡ map (λ t. result t.name) tags)
read_tags_grouped-by_name floats clock client device tags h =
    let (unit, gap, counts, blocks, planned, e) = read_stages floats clock client device tags h in
    let d = read_blocks floats client clock 0 [] blocks in
    (
      entry d,
      e
          ∙ results_of-entry floats client clock (length blocks) d tags (
              All-perm (λ t. Has d t.name) (λ t. ¬_prop)
                (plan_blocks-perm tags unit gap (some counts) planned)
                (read_blocks-Has floats client clock 0 [] blocks)),
    )

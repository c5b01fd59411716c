-- ===== src/Modbus/Total.antt =====
-- `_plan_blocks` returns a plan where every tag has a function with a limit.
use mathlib.Core.List.{Perm}
use iot_gathering.Common.{
  String, ℤ, pos, Option, Option-cases, none, List, [], ◌∷◌, ◌++◌, ◌≡◌, ◌≢◌, refl, inl, inr, All,
  string_eq, int_eq, pair_eq,
}
use iot_gathering.Common.Dict.{Dict, get, Entries, put-Entries}
use iot_gathering.Common.Result.{ok}
use iot_gathering.Models.{TagSpec}
use iot_gathering.Modbus.Blocks.{
  ReadBlock, GroupKey, group_key, group_tags, append_tag, join_tags, sort_tags, plan_groups,
  plan_blocks, counts_or_default,
}
use iot_gathering.Modbus.Partition.{block_tags, plan_blocks-perm}

-- The function has a limit.
abbrev pub IsKnown : Dict String ℤ → String → Type 0
IsKnown counts function = get counts function ≢ none

group_tags-IsKnown :
    (counts : Dict String ℤ) (unit : ℤ) (groups : Dict GroupKey (List TagSpec))
    (tags : List TagSpec)
    → Entries (λ k v. IsKnown counts k.0) groups
    → All (λ t. IsKnown counts t.function) tags
    → Entries (λ k v. IsKnown counts k.0) (group_tags unit groups tags)
unfolding group_tags
group_tags-IsKnown counts unit groups [] h k = h
group_tags-IsKnown counts unit groups (tag ∷ tags) h k =
    group_tags-IsKnown counts unit (append_tag unit groups tag) tags
      (put-Entries (λ i v. IsKnown counts i.0) groups (group_key unit tag) _ k.0 h) k.1

plan_groups-ok :
    (gap : ℤ) (counts : Dict String ℤ) (groups : Dict GroupKey (List TagSpec))
    → Entries (λ k v. IsKnown counts k.0) groups
    → (blocks : List ReadBlock) × (plan_groups gap counts groups ≡ ok blocks)
unfolding plan_groups
plan_groups-ok gap counts [] h = ([], refl)
plan_groups-ok gap counts (((function, unit_id), tags) ∷ groups) h =
    let (rest, e) = plan_groups-ok gap counts groups h.1 in
    elim (Option-cases (get counts function)) [
      | inl missing ↦ absurd (h.0 missing)
      | inr (max_count, found) ↦ (
        join_tags function unit_id gap max_count [] (pos 0) (pos 0) (sort_tags tags) ++ rest,
        rw (found, e) refl,
      )
    ]

-- Where the function of every tag has a limit, a plan is made, and it holds the given tags, each as often as it
-- was given.
pub plan_blocks-total :
    (tags : List TagSpec) (default_unit_id max_block_gap : ℤ) (max_counts : Option (Dict String ℤ))
    → All (λ t. IsKnown (counts_or_default max_counts) t.function) tags
    → (blocks : List ReadBlock) × (plan_blocks tags default_unit_id max_block_gap max_counts
        ≡ ok blocks)
      × Perm (block_tags blocks) tags
unfolding plan_blocks
plan_blocks-total tags unit gap max_counts h =
    let (blocks, e) =
      plan_groups-ok gap (counts_or_default max_counts) (group_tags unit [] tags)
        (group_tags-IsKnown (counts_or_default max_counts) unit [] tags tt h) in
    (blocks, e, plan_blocks-perm tags unit gap max_counts e)

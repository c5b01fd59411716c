-- ===== src/Modbus/Partition.antt =====
-- `_plan_blocks` loses no tag and reads none twice.
use mathlib.Core.List.Perm
use mathlib.Core.List.{Perm, perm_middle, append_assoc, append-nil}
use iot_gathering.Common.{
  String, ℤ, pos, Option, some, Bool-cases, inl, inr, List, [], ◌∷◌, ◌++◌, ◌≡◌, refl, sym, ◌∙◌, ap,
  leb_ℤ, ◌==◌, pair_eq, string_eq, int_eq,
}
use iot_gathering.Common.Dict.{Dict, get, put}
use iot_gathering.Common.Result.{ok, key_error, found_or, found_or-ok, >>=-ok, ok_injective}
use iot_gathering.Models.{TagSpec}
use iot_gathering.Modbus.Blocks.{
  ReadBlock, GroupKey, group_key, or_nil, append_tag, group_tags, insert_tag, sort_tags, joins,
  join_tags, plan_groups, plan_blocks, counts_or_default,
}

-- The tags of a row of blocks, and of the groups.
abbrev pub block_tags : List ReadBlock → List TagSpec
block_tags [] = []
block_tags (b ∷ bs) = b.tags ++ block_tags bs

abbrev grouped_tags : Dict GroupKey (List TagSpec) → List TagSpec
grouped_tags [] = []
grouped_tags ((k, tags) ∷ groups) = tags ++ grouped_tags groups

block_tags-append :
    (bs cs : List ReadBlock) → block_tags (bs ++ cs) ≡ block_tags bs ++ block_tags cs
block_tags-append [] cs = refl
block_tags-append (b ∷ bs) cs = rw (block_tags-append bs cs) (sym (append_assoc b.tags _ _))

insert_tag-perm : (tag : TagSpec) (tags : List TagSpec) → Perm (insert_tag tag tags) (tag ∷ tags)
unfolding insert_tag
insert_tag-perm tag [] = Perm.refl _
insert_tag-perm tag (t ∷ ts) = elim (Bool-cases (leb_ℤ tag.address t.address)) [
  | inl e ↦ rw e (Perm.refl _)
  | inr e ↦ rw e (Perm.trans (Perm.cons t (insert_tag-perm tag ts)) (Perm.swap tag t ts))
]

pub sort_tags-perm : (tags : List TagSpec) → Perm (sort_tags tags) tags
unfolding sort_tags
sort_tags-perm [] = Perm.refl _
sort_tags-perm (tag ∷ tags) =
    Perm.trans (insert_tag-perm tag (sort_tags tags)) (Perm.cons tag (sort_tags-perm tags))

module _ (function : String) (unit_id gap max_count : ℤ) where
  -- Joining keeps the tags in their order.
  block_tags-join_tags :
      (current : List TagSpec) (start stop : ℤ) (tags : List TagSpec)
      → block_tags (join_tags function unit_id gap max_count current start stop tags)
        ≡ current ++ tags
  unfolding join_tags
  block_tags-join_tags [] start stop [] = refl
  block_tags-join_tags (c ∷ cs) start stop [] = refl
  block_tags-join_tags [] start stop (tag ∷ tags) = block_tags-join_tags (tag ∷ []) _ _ tags
  block_tags-join_tags (c ∷ cs) start stop (tag ∷ tags) =
      elim (Bool-cases (joins function unit_id gap max_count start stop tag)) [
        | inl e ↦
            rw e
              (block_tags-join_tags ((c ∷ cs) ++ tag ∷ []) _ _ tags ∙ append_assoc (c ∷ cs) _ tags)
        | inr e ↦ rw e (ap (λ r. (c ∷ cs) ++ r) (block_tags-join_tags (tag ∷ []) _ _ tags))
      ]

-- One more tag in a group.
put-perm :
    (groups : Dict GroupKey (List TagSpec)) (k : GroupKey) (tag : TagSpec)
    → Perm
        (grouped_tags (put groups k (or_nil (get groups k) ++ tag ∷ [])))
        (tag ∷ grouped_tags groups)
unfolding put get
put-perm [] k tag = Perm.refl _
put-perm ((j, tags) ∷ groups) k tag = elim (Bool-cases (j == k)) [
  | inl e ↦ rw e (rw append_assoc (perm_middle tags (grouped_tags groups)))
  | inr e ↦ rw e (Perm.trans (Perm.append_left tags (put-perm groups k tag)) (perm_middle tags _))
]

group_tags-perm :
    (unit : ℤ) (groups : Dict GroupKey (List TagSpec)) (tags : List TagSpec)
    → Perm (grouped_tags (group_tags unit groups tags)) (tags ++ grouped_tags groups)
unfolding group_tags
group_tags-perm unit groups [] = Perm.refl _
group_tags-perm unit groups (tag ∷ tags) =
    Perm.trans (group_tags-perm unit (append_tag unit groups tag) tags) (
      Perm.trans (Perm.append_left tags (put-perm groups (group_key unit tag) tag))
        (perm_middle tags (grouped_tags groups)))

-- A plan of a row of groups is that of the first and that of the others.
pub plan_groups_cons :
    (gap : ℤ) (max_counts : Dict String ℤ) (function : String) (unit_id : ℤ) (tags : List TagSpec)
    (groups : Dict GroupKey (List TagSpec)) {blocks : List ReadBlock}
    → plan_groups gap max_counts (((function, unit_id), tags) ∷ groups) ≡ ok blocks
    → (max_count : ℤ) × (rest : List ReadBlock) × (get max_counts function ≡ some max_count)
      × (plan_groups gap max_counts groups ≡ ok rest)
      × (blocks
          ≡ join_tags function unit_id gap max_count [] (pos 0) (pos 0) (sort_tags tags) ++ rest)
unfolding plan_groups
plan_groups_cons gap max_counts function unit_id tags groups h =
    let (max_count, found, h1) =
      >>=-ok (found_or (get max_counts function) (key_error function)) _ h in
    let (rest, planned, h2) = >>=-ok (plan_groups gap max_counts groups) _ h1 in
    (max_count, rest, found_or-ok _ _ found, planned, sym (ok_injective h2))

plan_groups-perm :
    (gap : ℤ) (max_counts : Dict String ℤ) (groups : Dict GroupKey (List TagSpec))
    {blocks : List ReadBlock}
    → plan_groups gap max_counts groups ≡ ok blocks
    → Perm (block_tags blocks) (grouped_tags groups)
unfolding plan_groups
plan_groups-perm gap max_counts [] h = rw (← ok_injective h) (Perm.refl _)
plan_groups-perm gap max_counts (((function, unit_id), tags) ∷ groups) h =
    let (max_count, rest, found, planned, e) =
      plan_groups_cons gap max_counts function unit_id tags groups h in
    rw e (
      rw block_tags-append (
        rw block_tags-join_tags
          (Perm.append (sort_tags-perm tags) (plan_groups-perm gap max_counts groups planned))))

-- A plan holds the given tags, each as often as it was given.
pub plan_blocks-perm :
    (tags : List TagSpec) (default_unit_id max_block_gap : ℤ) (max_counts : Option (Dict String ℤ))
    {blocks : List ReadBlock}
    → plan_blocks tags default_unit_id max_block_gap max_counts ≡ ok blocks
    → Perm (block_tags blocks) tags
unfolding plan_blocks
plan_blocks-perm tags unit gap max_counts h =
    Perm.trans (plan_groups-perm gap (counts_or_default max_counts) (group_tags unit [] tags) h)
      (rw append-nil at (group_tags-perm unit [] tags))

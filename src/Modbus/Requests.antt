-- ===== src/Modbus/Requests.antt =====
-- Each planned request covers its tags, goes to their function and unit, and keeps to the limit.
use iot_gathering.Common.{
  String, ℤ, ◌+ℤ◌, ◌-ℤ◌, ◌≤ℤ◌, some, ◌⊎◌, List, [], ◌∷◌, ◌≡◌, ◌≢◌, length, All, string_eq, int_eq,
}
use iot_gathering.Common.Dict.{Dict, get}
use iot_gathering.Models.{TagSpec}
use iot_gathering.Modbus.Blocks.{ReadBlock, GroupKey, group_key, item_count}

-- The registers or bits of `tag` lie between `start` and `stop`.
pub record Covers (start stop : ℤ) (tag : TagSpec) : Type 0 where
  pub from : start ≤ℤ tag.address
  pub upto : tag.address +ℤ item_count tag ≤ℤ stop

-- What a request must be, where the function's limit is `max_count` and the device's unit is `unit`.
pub record IsSound (unit : ℤ) (max_counts : Dict String ℤ) (b : ReadBlock) : Type 0 where
  pub max_count : ℤ
  pub limited : get max_counts b.function ≡ some max_count
  pub fits : (b.count ≤ℤ max_count) ⊎ (length b.tags ≡ 1)
  pub keyed : All (λ t. group_key unit t ≡ (b.function, b.unit_id)) b.tags
  pub covered : All (Covers b.start (b.start +ℤ b.count)) b.tags
  pub some_tag : b.tags ≢ []

abbrev IsSorted : List TagSpec → Type 0
IsSorted [] = Unit
IsSorted (t ∷ ts) = All (λ u. t.address ≤ℤ u.address) ts × IsSorted ts

module _ (unit : ℤ) (max_counts : Dict String ℤ) (function : String) (unit_id gap max_count : ℤ)
    (limit : get max_counts function ≡ some max_count) where
  -- The open block of the loop.
  record IsOpen (current : List TagSpec) (start stop : ℤ) : Type 0 where
    fits : (stop -ℤ start ≤ℤ max_count) ⊎ (length current ≡ 1)
    keyed : All (λ t. group_key unit t ≡ (function, unit_id)) current
    covered : All (Covers start stop) current

  abbrev Keyed : TagSpec → Type 0
  Keyed t = group_key unit t ≡ (function, unit_id)

-- The groups hold the tags of their key.
abbrev AreKeyed : ℤ → Dict GroupKey (List TagSpec) → Type 0
AreKeyed unit groups = All (λ g. All (λ t. group_key unit t ≡ g.0) g.1) groups

-- ===== src/Runtime/Queues.antt =====
-- `_LatestReadResultQueue` and `_LatestStatusQueue`. Each holds its lock for the whole of an operation, so an
-- operation is one step. A time is a number of microseconds, not the text of it; `get` is modelled once it
-- has waited.
use iot_gathering.Common.{
  ℕ, suc, String, ℤ, Bool, true, false, ◌&&◌, ◌||◌, Option, none, some, List, [], ◌∷◌, ◌≡◌, ◌↔◌,
  arith, is_nil, not, nat_beq, nat_beq_iff, Eq, ◌==◌, if◌then◌else◌, string_eq, int_eq, option_eq,
  pair_eq,
}
use iot_gathering.Common.Text.{is_empty, text_or, or_text}
use iot_gathering.Common.Dict.{Dict, put_last}
use iot_gathering.Models.{DeviceSpec, TagResult, ReadResult}

-- `(device.id, device.device_group, device.name)`, and the group and node of a tag; `none` is "__result__".
abbrev pub ReadKey : Type 0
ReadKey = (Option ℤ × (String × String)) × Option (String × String)

abbrev pub ReadQueue : Type 0
ReadQueue = Dict ReadKey ReadResult

-- `bool(text)`, where the text may be `None`
abbrev pub has_text : Option String → Bool
has_text none = false
has_text (some s) = not (is_empty s)

abbrev pub read_key : DeviceSpec → Option (String × String) → ReadKey
read_key device part = ((device.id, (device.device_group, device.name)), part)

abbrev pub tag_entry : ReadResult → TagResult → ReadKey × ReadResult
tag_entry item tag = (
  read_key item.device (some (tag.tag_group, text_or tag.node_id tag.name)),
  record { device = item.device; timestamp = item.timestamp; tags = tag ∷ []; error = item.error },
)

unfoldable pub tag_entries : ReadResult → List TagResult → List (ReadKey × ReadResult)
tag_entries item [] = []
tag_entries item (tag ∷ tags) = tag_entry item tag ∷ tag_entries item tags

unfoldable pub split_items : ReadResult → List (ReadKey × ReadResult)
unfolding tag_entries
split_items item =
    if has_text item.error || is_nil item.tags
    then (read_key item.device none, item) ∷ []
    else tag_entries item item.tags

-- The loop of `put`.
unfoldable pub put_entries : ReadQueue → List (ReadKey × ReadResult) → ReadQueue
put_entries queue [] = queue
put_entries queue ((key, result) ∷ entries) = put_entries (put_last queue key result) entries

unfoldable pub put_result : ReadQueue → ReadResult → ReadQueue
unfolding put_entries split_items
put_result queue item = put_entries queue (split_items item)

-- `none` is the exception `Empty`.
unfoldable pub get_result : ReadQueue → Option (ReadResult × ReadQueue)
get_result [] = none
get_result ((key, result) ∷ queue) = some (result, queue)

pub record TagUpdate : Type 0 where
  pub device : String
  pub tag_group : String
  pub tag : String
  pub node_id : String
  pub mode : String
  pub timestamp : Option ℕ
  pub quality : String
  pub error : Option String

pub record ServerStatus : Type 0 where
  pub device : String
  pub status : String
  pub timestamp : ℕ
  pub error : Option String

pub data StatusItem : Type 0 where
  tag_update : TagUpdate → StatusItem
  server_status : ServerStatus → StatusItem
  message : String → StatusItem

pub data StatusKey : Type 0 where
  tag_key : String → String → StatusKey
  server_key : String → StatusKey
  event_key : ℕ → StatusKey

abbrev pub status_key_beq : StatusKey → StatusKey → Bool
status_key_beq (tag_key a b) (tag_key c d) = a == c && b == d
status_key_beq (server_key a) (server_key b) = a == b
status_key_beq (event_key m) (event_key n) = nat_beq m n
status_key_beq _ _ = false

pub status_key_beq_iff : (j k : StatusKey) → (status_key_beq j k ≡ true) ↔ (j ≡ k)
status_key_beq_iff (tag_key a b) (tag_key c d) =
    ground (arith, string_eq.beq_iff a c, string_eq.beq_iff b d)
status_key_beq_iff (server_key a) (server_key b) = ground (arith, string_eq.beq_iff a b)
status_key_beq_iff (event_key m) (event_key n) = ground (arith, nat_beq_iff m n)
status_key_beq_iff (tag_key a b) (server_key c) = ground arith
status_key_beq_iff (tag_key a b) (event_key c) = ground arith
status_key_beq_iff (server_key a) (tag_key c d) = ground arith
status_key_beq_iff (server_key a) (event_key c) = ground arith
status_key_beq_iff (event_key a) (tag_key c d) = ground arith
status_key_beq_iff (event_key a) (server_key c) = ground arith

instance abbrev pub status_key_eq : Eq StatusKey
status_key_eq = record { beq = status_key_beq; beq_iff = status_key_beq_iff }

pub record StatusQueue : Type 0 where
  pub items : Dict StatusKey StatusItem
  pub sequence : ℕ

-- `_key`, with the sequence number that it leaves
abbrev pub status_key : ℕ → StatusItem → StatusKey × ℕ
status_key sequence (tag_update u) = (tag_key u.device (or_text u.node_id u.tag), sequence)
status_key sequence (server_status s) = (server_key s.device, sequence)
status_key sequence (message s) = (event_key (suc sequence), suc sequence)

unfoldable pub put_status : StatusQueue → StatusItem → StatusQueue
put_status queue item =
    let (key, sequence) = status_key queue.sequence item in
    record { items = put_last queue.items key item; sequence = sequence }

unfoldable pub get_status : StatusQueue → Option (StatusItem × StatusQueue)
get_status queue = elim queue.items [
  | [] ↦ none
  | (key, item) ∷ items ↦ some (item, record { items = items; sequence = queue.sequence })
]

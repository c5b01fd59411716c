-- ===== src/Runtime/Latest.antt =====
-- The read queue holds, for each key, the last result that was put for it and not taken.
use mathlib.Core.Path.{subst}
use mathlib.Core.List.{append-nil, append_assoc}
use iot_gathering.Common.{
  String, ℤ, Bool-cases, Option-cases, ◌||◌, Option, none, some, List, [], ◌∷◌, ◌++◌, ◌≡◌, refl,
  sym, ap, ◌∙◌, inl, inr, arith, is_nil, ◌==◌, if◌then◌else◌, string_eq, int_eq, option_eq, pair_eq,
}
use iot_gathering.Common.Dict.{
  get, put_last, get-put_last, Distinct, put_last-Distinct, values, remove-fresh, middle-fresh,
}
use iot_gathering.Models.{TagResult, ReadResult}
use iot_gathering.Runtime.Queues.{
  ReadKey, ReadQueue, has_text, tag_entries, split_items, put_entries, put_result, get_result,
}

-- A later entry of a key hides an earlier one.
abbrev pub or_else : Option ReadResult → Option ReadResult → Option ReadResult
or_else none earlier = earlier
or_else (some r) earlier = some r

unfoldable pub last_for : ReadKey → List (ReadKey × ReadResult) → Option ReadResult
last_for key [] = none
last_for key ((k, r) ∷ entries) = or_else (last_for key entries) (if k == key then some r else none)

-- Several puts, one after the other, and what they split into.
unfoldable pub put_results : ReadQueue → List ReadResult → ReadQueue
unfolding put_result
put_results queue [] = queue
put_results queue (item ∷ items) = put_results (put_result queue item) items

unfoldable pub split_all : List ReadResult → List (ReadKey × ReadResult)
unfolding split_items
split_all [] = []
split_all (item ∷ items) = split_items item ++ split_all items

put_entries-append :
    (queue : ReadQueue) (xs ys : List (ReadKey × ReadResult))
    → put_entries queue (xs ++ ys) ≡ put_entries (put_entries queue xs) ys
unfolding put_entries
put_entries-append queue [] ys = refl
put_entries-append queue ((k, r) ∷ xs) ys = put_entries-append (put_last queue k r) xs ys

put_results-split_all :
    (queue : ReadQueue) (items : List ReadResult)
    → put_results queue items ≡ put_entries queue (split_all items)
unfolding put_results split_all put_result put_entries
put_results-split_all queue [] = refl
put_results-split_all queue (item ∷ items) =
    put_results-split_all (put_result queue item) items
    ∙ sym (put_entries-append queue (split_items item) (split_all items))

get-put_entries :
    (queue : ReadQueue) (entries : List (ReadKey × ReadResult)) (key : ReadKey)
    → get (put_entries queue entries) key ≡ or_else (last_for key entries) (get queue key)
unfolding put_entries last_for
get-put_entries queue [] key = refl
get-put_entries queue ((k, r) ∷ entries) key =
    get-put_entries (put_last queue k r) entries key ∙ elim (Option-cases (last_for key entries)) [
      | inl e ↦
          rw (e, get-put_last queue k key r)
            (elim (Bool-cases (k == key)) [ inl same ↦ rw same refl | inr other ↦ rw other refl ])
      | inr (later, e) ↦ rw e refl
    ]

put_entries-Distinct :
    (queue : ReadQueue) (entries : List (ReadKey × ReadResult))
    → Distinct queue
    → Distinct (put_entries queue entries)
unfolding put_entries
put_entries-Distinct queue [] h = h
put_entries-Distinct queue ((k, r) ∷ entries) h =
    put_entries-Distinct (put_last queue k r) entries (put_last-Distinct queue k r h)

-- After any row of puts the queue holds, under each key, the last of the results that the puts were split
-- into for this key, or else what it held under the key before; and if no key stood twice, none does.
pub put_results-last_for :
    (queue : ReadQueue) (items : List ReadResult) (key : ReadKey)
    → Distinct queue
    → (get (put_results queue items) key ≡ or_else (last_for key (split_all items)) (get queue key))
      × Distinct (put_results queue items)
put_results-last_for queue items key h =
    rw (put_results-split_all queue items)
      (get-put_entries queue (split_all items) key, put_entries-Distinct queue (split_all items) h)

-- What `get_result` takes: the first entry and no other.
pub record IsTaken (queue : ReadQueue) (result : ReadResult) (rest : ReadQueue) : Type 0 where
  pub key : ReadKey
  pub held : get queue key ≡ some result
  pub gone : get rest key ≡ none
  pub others : (j : ReadKey) → get queue j ≡ (if key == j then some result else get rest j)
  pub distinct : Distinct rest

-- From a queue where no key stands twice, `get` takes the result of one key: the key is gone after it, and
-- the results of the other keys stay.
pub get_result-IsTaken :
    (queue : ReadQueue) (result : ReadResult) (rest : ReadQueue)
    → Distinct queue
    → get_result queue ≡ some (result, rest)
    → IsTaken queue result rest
unfolding get_result get
get_result-IsTaken [] result rest d h = absurd (cc h)
get_result-IsTaken ((k, r) ∷ queue) result rest d h =
    let (er, eq) = taken in
    rw (← er, ← eq)
      (record {
        key = k;
        held = ground (
          arith,
          (pair_eq {A = Option ℤ × (String × String)} {B = Option (String × String)}).beq_iff k k,
        );
        gone = d.0;
        others = λ j. refl;
        distinct = d.1;
      })
  where
    taken : (r ≡ result) × (queue ≡ rest)
    taken = (cc h, cc h)

-- The tags of a row of results.
unfoldable pub all_tags : List ReadResult → List TagResult
all_tags [] = []
all_tags (r ∷ rs) = r.tags ++ all_tags rs

put_entries-fresh :
    (queue : ReadQueue) (entries : List (ReadKey × ReadResult))
    → Distinct (queue ++ entries)
    → put_entries queue entries ≡ queue ++ entries
unfolding put_entries put_last
put_entries-fresh queue [] h = sym (append-nil queue)
put_entries-fresh queue ((k, r) ∷ entries) h =
    let moved = append_assoc queue ((k, r) ∷ []) entries in
    rw (remove-fresh queue k (middle-fresh queue k r entries h))
      (put_entries-fresh (queue ++ (k, r) ∷ []) entries (subst Distinct (sym moved) h) ∙ moved)

all_tags-tag_entries :
    (item : ReadResult) (tags : List TagResult) → all_tags (values (tag_entries item tags)) ≡ tags
unfolding tag_entries all_tags
all_tags-tag_entries item [] = refl
all_tags-tag_entries item (tag ∷ tags) = ap (λ ts. tag ∷ ts) (all_tags-tag_entries item tags)

all_tags-split_items : (item : ReadResult) → all_tags (values (split_items item)) ≡ item.tags
unfolding split_items all_tags
all_tags-split_items item = elim (Bool-cases (has_text item.error || is_nil item.tags)) [
  | inl e ↦ rw e (append-nil item.tags)
  | inr e ↦ rw e (all_tags-tag_entries item item.tags)
]

-- A result that is put into an empty queue, and of which no two tags have one group and node, comes out again
-- with all its tags in their order, split or not.
pub put_result-all_tags :
    (item : ReadResult)
    → Distinct (split_items item)
    → all_tags (values (put_result [] item)) ≡ item.tags
unfolding put_result
put_result-all_tags item h =
    rw (put_entries-fresh [] (split_items item) h) (all_tags-split_items item)

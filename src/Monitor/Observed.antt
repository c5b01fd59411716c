-- ===== src/Monitor/Observed.antt =====
-- The results of tags from captured pairs are made without an exception, one for each tag.
use iot_gathering.Common.{
  ℕ, String, ℤ, pos, Bool, true, false, Bool-cases, ◌&&◌, Option, Option-cases, none, some, List,
  [], ◌∷◌, map, ◌≡◌, refl, inl, inr, arith, All, ◌==◌, string_eq, int_eq, nat_eq, pair_eq,
}
use iot_gathering.Common.Json.{Json}
use iot_gathering.Common.Dict.{put}
use iot_gathering.Common.Float.{Floats}
use iot_gathering.Common.Result.{Result, ok, err}
use iot_gathering.Models.{DeviceSpec, TagSpec, TagResult}
use iot_gathering.Modbus.Blocks.{int_or}
use iot_gathering.Modbus.Reading.{tag_result, int_setting}
use iot_gathering.Monitor.Frame.{Frame, is_some, is_read_request, is_read}
use iot_gathering.Monitor.Search.{Pair}
use iot_gathering.Monitor.Draining.{IsPair}
use iot_gathering.Monitor.Results.{
  tag_function, LatestPairs, put_pair, latest_pairs, quantity_of, within, observed_value,
  pair_result, or_result, tag_result_from_pairs, observed, observed_results, tag_results_from_pairs,
}

no_request : (a b : Bool) → (a && false && b) ≡ true → ⊥
no_request a b h = ground arith

-- A request of a pair has a start address.
has_start : (f : Frame) → is_read_request f ≡ true → (n : ℕ) × (f.start_address ≡ some n)
has_start f h = elim (Option-cases f.start_address) [
  | inr (n, e) ↦ (n, e)
  | inl e ↦ absurd (no_request (is_read f.function) (is_some f.quantity) (rw e at h))
]

put_pair-ok :
    (latest : LatestPairs) (pair : Pair) (o : Option String)
    → IsPair pair
    → (next : LatestPairs) × (put_pair latest pair o ≡ ok next)
put_pair-ok latest pair none p = (latest, refl)
put_pair-ok latest pair (some function) p =
    let (n, e) = has_start pair.request p.request in
    (put latest (pair.request.slave_id, (function, n)) pair, rw e refl)

latest_pairs-ok :
    (latest : LatestPairs) (pairs : List Pair)
    → All IsPair pairs
    → (next : LatestPairs) × (latest_pairs latest pairs ≡ ok next)
unfolding latest_pairs
latest_pairs-ok latest [] h = (latest, refl)
latest_pairs-ok latest (pair ∷ pairs) h =
    let (next, e) = put_pair-ok latest pair (tag_function pair.request.function) h.0 in
    let (last, f) = latest_pairs-ok next pairs h.1 in (last, rw e f)

name-tag_result :
    (tag : TagSpec) (timestamp : ℕ) (r : Result Json) → (tag_result tag timestamp r).name ≡ tag.name
name-tag_result tag timestamp (ok v) = refl
name-tag_result tag timestamp (err e) = refl

-- A result that is found bears the tag's name.
IsNamed : TagSpec → Option TagResult → Type 0
IsNamed tag none = Unit
IsNamed tag (some r) = r.name ≡ tag.name

pair_result-IsNamed :
    (floats : Floats) (tag : TagSpec) (timestamp start : ℕ) (pair : Pair) (o : Option (List ℕ))
    → IsNamed tag (pair_result floats tag timestamp start pair o)
unfolding IsNamed
pair_result-IsNamed floats tag timestamp start pair none = tt
pair_result-IsNamed floats tag timestamp start pair (some registers) =
    elim (Bool-cases (within tag.address start (quantity_of pair.request registers))) [
      | inl e ↦ rw e (name-tag_result tag timestamp (observed_value floats tag start registers))
      | inr e ↦ rw e tt
    ]

or_result-IsNamed :
    (tag : TagSpec) (a b : Option TagResult)
    → IsNamed tag a
    → IsNamed tag b
    → IsNamed tag (or_result a b)
or_result-IsNamed tag none b h k = k
or_result-IsNamed tag (some r) b h k = h

tag_result_from_pairs-IsNamed :
    (floats : Floats) (tag : TagSpec) (unit_id : ℤ) (timestamp : ℕ) (latest : LatestPairs)
    → IsNamed tag (tag_result_from_pairs floats tag unit_id timestamp latest)
unfolding tag_result_from_pairs IsNamed
tag_result_from_pairs-IsNamed floats tag unit_id timestamp [] = tt
tag_result_from_pairs-IsNamed floats tag unit_id timestamp
      (((slave, (function, start)), pair) ∷ pairs) =
    let rest = tag_result_from_pairs-IsNamed floats tag unit_id timestamp pairs in
    elim (Bool-cases (pos slave == unit_id && function == tag.function)) [
      | inl e ↦ rw e (
          or_result-IsNamed tag _ _
            (pair_result-IsNamed floats tag timestamp start pair pair.response.registers) rest)
      | inr e ↦ rw e rest
    ]

name-observed :
    (tag : TagSpec) (timestamp : ℕ) (o : Option TagResult)
    → IsNamed tag o
    → (observed tag timestamp o).name ≡ tag.name
unfolding IsNamed
name-observed tag timestamp none h = refl
name-observed tag timestamp (some r) h = h

names-observed_results :
    (floats : Floats) (unit : ℤ) (timestamp : ℕ) (latest : LatestPairs) (tags : List TagSpec)
    → map (λ r. r.name) (observed_results floats unit timestamp latest tags)
      ≡ map (λ t. t.name) tags
unfolding observed_results
names-observed_results floats unit timestamp latest [] = refl
names-observed_results floats unit timestamp latest (tag ∷ tags) =
    let named =
      name-observed tag timestamp
        (tag_result_from_pairs floats tag (int_or tag.unit_id unit) timestamp latest)
        (tag_result_from_pairs-IsNamed floats tag (int_or tag.unit_id unit) timestamp latest) in
    rw (named, names-observed_results floats unit timestamp latest tags) refl

-- Where each pair is a read request with its response, as the drain of a buffer returns them, and the unit id of
-- the connection is a number, the results of tags are made without an exception: one for each tag, in their
-- order and under their names.
pub tag_results_from_pairs-names :
    (floats : Floats) (device : DeviceSpec) (tags : List TagSpec) (pairs : List Pair)
    (timestamp : ℕ) (unit : ℤ)
    → All IsPair pairs
    → int_setting device.connection "unit_id" (pos 1) ≡ ok unit
    → (results : List TagResult) × (tag_results_from_pairs floats device tags pairs timestamp
        ≡ ok results)
      × (map (λ r. r.name) results ≡ map (λ t. t.name) tags)
unfolding tag_results_from_pairs
tag_results_from_pairs-names floats device tags pairs timestamp unit h u =
    let (latest, e) = latest_pairs-ok [] pairs h in
    (
      observed_results floats unit timestamp latest tags,
      rw (e, u) refl,
      names-observed_results floats unit timestamp latest tags,
    )

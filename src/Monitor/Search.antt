-- ===== src/Monitor/Search.antt =====
-- The search for a frame in captured bytes, and the two loops that consume a buffer:
-- `_first_valid_frame_span`, `_first_response_frame_span`, `_drain_response_frames` and
-- `_drain_request_response_pairs`.
use iot_gathering.Common.{
  ℕ, zero, suc, ◌+◌, ◌-◌, ltb, Bool, true, Option, none, some, List, [], ◌∷◌, ◌++◌, length, take,
  drop, if◌then◌else◌, nat_eq, pair_eq,
}
use iot_gathering.Common.Dict.{Dict, get, put, remove}
use iot_gathering.Monitor.Frame.{
  Bytes, Frame, ParseError, Parsed, frame, failed, parse_rtu_frame, is_read_response,
  is_read_request, with_response_value,
}

-- What the search returns: a frame with the span where it stands, or the last error.
pub data Found : Type 0 where
  span : Frame → (start stop : ℕ) → Found
  nothing : Option ParseError → Found

abbrev pub any_frame : Frame → Bool
any_frame f = true

-- One round of a loop over candidates: the frame if it is accepted, or the next round with the last error.
unfoldable pub scan_step :
    (Frame → Bool)
    → Parsed
    → (start stop : ℕ) → Option ParseError
    → (Option ParseError → Found)
    → Found
scan_step accepts (failed e) start stop error next = next (some e)
scan_step accepts (frame f) start stop error next =
    if accepts f then span f start stop else next error

-- `next` where a search found nothing
unfoldable pub or_next : Found → (Option ParseError → Found) → Found
or_next (span f start stop) next = span f start stop
or_next (nothing error) next = next error

module _ (accepts : Frame → Bool) where
  -- The inner loop: the candidates `bytes[:size]`, of which `rounds` are left; `bytes` is the data from
  -- `start` on.
  unfoldable pub scan_sizes : (rounds : ℕ) → ℕ → Bytes → ℕ → Option ParseError → Found
  scan_sizes zero start bytes size error = nothing error
  scan_sizes (suc rounds) start bytes size error =
      scan_step accepts (parse_rtu_frame (take size bytes)) start (start + size) error
        λ last. scan_sizes rounds start bytes (suc size) last

  -- The outer loop.
  unfoldable pub scan_starts : ℕ → Bytes → Option ParseError → Found
  scan_starts start [] error = nothing error
  scan_starts start (b ∷ bytes) error =
      or_next (scan_sizes (length (b ∷ bytes) - 3) start (b ∷ bytes) 4 error)
        λ last. scan_starts (suc start) bytes last

unfoldable pub first_valid_frame_span : Bytes → Found
unfolding scan_starts scan_sizes scan_step or_next
first_valid_frame_span bytes = scan_starts any_frame 0 bytes none

unfoldable pub first_response_frame_span : Bytes → Found
unfolding scan_starts scan_sizes scan_step or_next
first_response_frame_span bytes = scan_starts is_read_response 0 bytes none

-- `if len(buffer) > 512: del buffer[:-512]`
abbrev pub keep_last : Bytes → Bytes
keep_last buffer = if ltb 512 (length buffer) then drop (length buffer - 512) buffer else buffer

abbrev pub Responses : Type 0
Responses = Dict ℕ Frame

-- `error or last_error`
abbrev pub error_or : Option ParseError → Option ParseError → Option ParseError
error_or none last = last
error_or (some e) last = some e

pub record Drained : Type 0 where
  pub responses : Responses
  pub buffer : Bytes
  pub last_error : Option ParseError

-- The `while buffer` loop; `none` would be a loop that its fuel does not end.
unfoldable pub drain_responses_from : ℕ → Responses → Bytes → Option ParseError → Option Drained
drain_responses_from fuel responses [] error =
    some (record { responses = responses; buffer = []; last_error = error })
drain_responses_from zero responses (b ∷ buffer) error = none
drain_responses_from (suc fuel) responses (b ∷ buffer) error =
    elim (first_response_frame_span (b ∷ buffer)) [
      | nothing e ↦ some (record {
        responses = responses;
        buffer = keep_last (b ∷ buffer);
        last_error = error_or e error;
      })
      | span f start stop ↦
          drain_responses_from fuel (put responses f.slave_id (with_response_value f))
            (drop stop (b ∷ buffer)) error
    ]

unfoldable pub drain_response_frames : Bytes → Option Drained
unfolding drain_responses_from first_response_frame_span
drain_response_frames buffer = drain_responses_from (length buffer) [] buffer none

abbrev pub PairKey : Type 0
PairKey = ℕ × ℕ

pub record Pair : Type 0 where
  pub request : Frame
  pub response : Frame

pub record Pairing : Type 0 where
  pub pairs : List Pair
  pub pending : Dict PairKey Frame
  pub buffer : Bytes

abbrev pub pair_key : Frame → PairKey
pair_key f = (f.slave_id, f.function)

-- One frame: a request waits for its response, a response takes the request that waits for it.
unfoldable pub pair_frame : Frame → Dict PairKey Frame → List Pair → Dict PairKey Frame × List Pair
pair_frame f pending pairs =
    if is_read_request f
    then (put pending (pair_key f) f, pairs)
    else if is_read_response f
    then elim (get pending (pair_key f)) [
      | none ↦ (remove pending (pair_key f), pairs)
      | some request ↦ (
        remove pending (pair_key f),
        pairs ++ record { request = request; response = with_response_value f } ∷ [],
      )
    ]
    else (pending, pairs)

unfoldable pub drain_pairs_from : ℕ → Dict PairKey Frame → List Pair → Bytes → Option Pairing
unfolding pair_frame
drain_pairs_from fuel pending pairs [] =
    some (record { pairs = pairs; pending = pending; buffer = [] })
drain_pairs_from zero pending pairs (b ∷ buffer) = none
drain_pairs_from (suc fuel) pending pairs (b ∷ buffer) =
    elim (first_valid_frame_span (b ∷ buffer)) [
      | nothing e ↦
          some (record { pairs = pairs; pending = pending; buffer = keep_last (b ∷ buffer) })
      | span f start stop ↦
          let step = pair_frame f pending pairs in
          drain_pairs_from fuel step.0 step.1 (drop stop (b ∷ buffer))
    ]

unfoldable pub drain_request_response_pairs : Bytes → Dict PairKey Frame → Option Pairing
unfolding drain_pairs_from first_valid_frame_span
drain_request_response_pairs buffer pending = drain_pairs_from (length buffer) pending [] buffer

-- ===== src/Monitor/Draining.antt =====
-- The loops over a buffer end, leave at most 512 bytes, and return only what they should.
use iot_gathering.Common.{
  ℕ, zero, suc, ◌-◌, ◌≤◌, true, Bool-cases, Option, Option-cases, none, some, List, [], ◌∷◌, ◌≡◌,
  refl, inl, inr, arith, length, length-drop, drop, All, All-append, nat_eq, pair_eq,
}
use iot_gathering.Common.Dict.{Dict, get, put, Entries, put-Entries, remove-Entries, get-Entries}
use iot_gathering.Monitor.Frame.{
  Bytes, Frame, ParseError, is_read_response, is_read_request, with_response_value,
}
use iot_gathering.Monitor.Search.{
  first_valid_frame_span, first_response_frame_span, keep_last, Responses, error_or, Drained,
  drain_responses_from, drain_response_frames, PairKey, Pair, Pairing, pair_key, pair_frame,
  drain_pairs_from, drain_request_response_pairs,
}
use iot_gathering.Monitor.Spans.{
  Found-cases, first_valid_frame_span-IsSpan, first_response_frame_span-IsSpan,
}

length-keep_last : (buffer : Bytes) → length (keep_last buffer) ≤ 512
length-keep_last buffer = ground (arith, length-drop (length buffer - 512) buffer)

shorter :
    (stop fuel : ℕ) (buffer : Bytes)
    → 4 ≤ stop
    → length buffer ≤ suc fuel
    → length (drop stop buffer) ≤ fuel
shorter stop fuel buffer h k = omega (arith, length-drop stop buffer)

with_response_value-keeps :
    (f : Frame)
    → ((with_response_value f).slave_id ≡ f.slave_id)
      × ((with_response_value f).function ≡ f.function)
      × ((with_response_value f).byte_count ≡ f.byte_count)
      × ((with_response_value f).registers ≡ f.registers)
unfolding with_response_value
with_response_value-keeps f = ground arith

-- A response stands under its slave.
abbrev pub IsResponse : ℕ → Frame → Type 0
IsResponse slave f = (f.slave_id ≡ slave) × (is_read_response f ≡ true)

value-IsResponse :
    (f : Frame) → is_read_response f ≡ true → IsResponse f.slave_id (with_response_value f)
value-IsResponse f h = let k = with_response_value-keeps f in (k.0, ground arith)

-- What a drained buffer leaves.
pub record IsDrained (d : Drained) : Type 0 where
  pub responses : Entries IsResponse d.responses
  pub bounded : length d.buffer ≤ 512

drain_responses_from-IsDrained :
    (fuel : ℕ) (responses : Responses) (buffer : Bytes) (error : Option ParseError)
    → length buffer ≤ fuel
    → Entries IsResponse responses
    → (d : Drained) × (drain_responses_from fuel responses buffer error ≡ some d) × IsDrained d
unfolding drain_responses_from
drain_responses_from-IsDrained fuel responses [] error h k = (
  record { responses = responses; buffer = []; last_error = error },
  refl,
  record { responses = k; bounded = omega arith },
)
drain_responses_from-IsDrained zero responses (b ∷ buffer) error h k = absurd (omega arith)
drain_responses_from-IsDrained (suc fuel) responses (b ∷ buffer) error h k =
    elim (Found-cases (first_response_frame_span (b ∷ buffer))) [
      | inl (f, from, to, e) ↦
          let s = first_response_frame_span-IsSpan (b ∷ buffer) f from to e in
          rw (e, drain_responses_from)
            (drain_responses_from-IsDrained fuel (put responses f.slave_id (with_response_value f))
              (drop to (b ∷ buffer)) error (shorter to fuel (b ∷ buffer) (omega (arith, s.long)) h)
              (put-Entries IsResponse responses f.slave_id _ (value-IsResponse f s.accepted) k))
      | inr (x, q) ↦
          rw (q, drain_responses_from)
            (
              record {
                responses = responses;
                buffer = keep_last (b ∷ buffer);
                last_error = error_or x error;
              },
              refl,
              record { responses = k; bounded = length-keep_last (b ∷ buffer) },
            )
    ]

-- A request that waits stands under its slave and function.
abbrev pub IsWaiting : PairKey → Frame → Type 0
IsWaiting key f = (pair_key f ≡ key) × (is_read_request f ≡ true)

self-IsWaiting : (f : Frame) → is_read_request f ≡ true → IsWaiting (pair_key f) f
self-IsWaiting f h = (refl, h)

-- A pair is a read request and a read response of one slave and function.
pub record IsPair (p : Pair) : Type 0 where
  pub keys : pair_key p.request ≡ pair_key p.response
  pub request : is_read_request p.request ≡ true
  pub response : is_read_response p.response ≡ true

record ArePaired (pending : Dict PairKey Frame) (pairs : List Pair) : Type 0 where
  waiting : Entries IsWaiting pending
  paired : All IsPair pairs

made-IsPair :
    (f request : Frame)
    → IsWaiting (pair_key f) request
    → is_read_response f ≡ true
    → IsPair (record { request = request; response = with_response_value f })
made-IsPair f request w h =
    let k = with_response_value-keeps f in
    record { keys = ground arith; request = w.1; response = ground arith }

pair_frame-ArePaired :
    (f : Frame) (pending : Dict PairKey Frame) (pairs : List Pair)
    → ArePaired pending pairs
    → ArePaired (pair_frame f pending pairs).0 (pair_frame f pending pairs).1
unfolding pair_frame
pair_frame-ArePaired f pending pairs h = elim (Bool-cases (is_read_request f)) [
  | inl asks ↦ rw asks (record {
    waiting = put-Entries IsWaiting pending (pair_key f) f (self-IsWaiting f asks) h.waiting;
    paired = h.paired;
  })
  | inr no_request ↦ elim (Bool-cases (is_read_response f)) [
    | inr neither ↦ rw (no_request, neither) h
    | inl answers ↦ elim (Option-cases (get pending (pair_key f))) [
      | inl none_waits ↦
          rw (no_request, answers, none_waits)
            (record {
              waiting = remove-Entries IsWaiting pending (pair_key f) h.waiting;
              paired = h.paired;
            })
      | inr (request, e) ↦
          rw (no_request, answers, e)
            (record {
              waiting = remove-Entries IsWaiting pending (pair_key f) h.waiting;
              paired = All-append IsPair pairs _ h.paired (
                made-IsPair f request
                    (get-Entries IsWaiting pending (pair_key f) request h.waiting e) answers,
                tt,
              );
            })
    ]
  ]
]

-- What a drained buffer leaves.
pub record IsPairing (p : Pairing) : Type 0 where
  pub paired : All IsPair p.pairs
  pub waiting : Entries IsWaiting p.pending
  pub bounded : length p.buffer ≤ 512

drain_pairs_from-IsPairing :
    (fuel : ℕ) (pending : Dict PairKey Frame) (pairs : List Pair) (buffer : Bytes)
    → length buffer ≤ fuel
    → ArePaired pending pairs
    → (p : Pairing) × (drain_pairs_from fuel pending pairs buffer ≡ some p) × IsPairing p
unfolding drain_pairs_from
drain_pairs_from-IsPairing fuel pending pairs [] h k = (
  record { pairs = pairs; pending = pending; buffer = [] },
  refl,
  record { paired = k.paired; waiting = k.waiting; bounded = omega arith },
)
drain_pairs_from-IsPairing zero pending pairs (b ∷ buffer) h k = absurd (omega arith)
drain_pairs_from-IsPairing (suc fuel) pending pairs (b ∷ buffer) h k =
    elim (Found-cases (first_valid_frame_span (b ∷ buffer))) [
      | inl (f, from, to, e) ↦
          let s = first_valid_frame_span-IsSpan (b ∷ buffer) f from to e in
          rw (e, drain_pairs_from)
            (drain_pairs_from-IsPairing fuel (pair_frame f pending pairs).0
              (pair_frame f pending pairs).1 (drop to (b ∷ buffer))
              (shorter to fuel (b ∷ buffer) (omega (arith, s.long)) h)
              (pair_frame-ArePaired f pending pairs k))
      | inr (x, q) ↦
          rw (q, drain_pairs_from)
            (
              record { pairs = pairs; pending = pending; buffer = keep_last (b ∷ buffer) },
              refl,
              record {
                paired = k.paired;
                waiting = k.waiting;
                bounded = length-keep_last (b ∷ buffer);
              },
            )
    ]

-- `_drain_response_frames` ends on every buffer; it leaves at most 512 bytes, and each frame that it returns
-- is a read response and stands under its slave's number.
pub drain_response_frames-IsDrained :
    (buffer : Bytes) → (d : Drained) × (drain_response_frames buffer ≡ some d) × IsDrained d
unfolding drain_response_frames
drain_response_frames-IsDrained buffer =
    drain_responses_from-IsDrained (length buffer) [] buffer none (omega arith) tt

-- `_drain_request_response_pairs` ends on every buffer. Where each pending frame is a read request under its
-- slave and function, so is each frame that is pending after it; at most 512 bytes are left, and each new
-- pair is a read request and a read response of one slave and function.
pub drain_request_response_pairs-IsPairing :
    (buffer : Bytes) (pending : Dict PairKey Frame)
    → Entries IsWaiting pending
    → (p : Pairing) × (drain_request_response_pairs buffer pending ≡ some p) × IsPairing p
unfolding drain_request_response_pairs
drain_request_response_pairs-IsPairing buffer pending h =
    drain_pairs_from-IsPairing (length buffer) pending [] buffer (omega arith)
      (record { waiting = h; paired = tt })

-- ===== src/Examples/MonitorRuns.antt =====
-- Captured frames, and the theorems about them.
use iot_gathering.Common.Dict.{get}
use iot_gathering.Common.Float.{Floats}
use iot_gathering.Common.Result.{ok}
use iot_gathering.Models.{DeviceSpec, TagSpec, TagResult}
use iot_gathering.Modbus.Reading.{int_setting}
use iot_gathering.Monitor.Results.{tag_results_from_pairs}
use iot_gathering.Monitor.Observed.{tag_results_from_pairs-names}
use iot_gathering.Common.{
  pos, pos_part, map, string_eq, none, some, List, [], ◌∷◌, ◌++◌, ◌≡◌, ◌≢◌, refl, arith, true,
  false,
}
use iot_gathering.Monitor.Frame.{
  Bytes, Frame, frame, parse_rtu_frame, parse_body, parse_read, read_response, register_pairs,
  crc16_modbus, is_read_response, is_read_request, function_name, crc_mismatch,
}
use iot_gathering.Monitor.Parsing.{IsFrame, parse_rtu_frame-IsFrame}
use iot_gathering.Monitor.Sent.{
  with_crc, response_body, parse_rtu_frame-response, parse_rtu_frame-three_bytes,
}
use iot_gathering.Monitor.Search.{
  any_frame, span, nothing, first_valid_frame_span, first_response_frame_span, scan_starts,
  scan_sizes, scan_step, or_next, Pair, Pairing, Drained, drain_response_frames,
  drain_request_response_pairs,
}
use iot_gathering.Monitor.Spans.{
  IsSpan, first_valid_frame_span-IsSpan, first_valid_frame_span-nothing,
  first_response_frame_span-IsSpan,
}
use iot_gathering.Monitor.Draining.{
  IsPair, IsDrained, drain_response_frames-IsDrained, IsPairing,
  drain_request_response_pairs-IsPairing,
}

-- Slave 1 answers a read of one holding register, which holds 258.
abbrev answer : Bytes
answer = 1 ∷ 3 ∷ 2 ∷ 1 ∷ 2 ∷ 56 ∷ 21 ∷ []

abbrev request : Bytes
request = 1 ∷ 3 ∷ 0 ∷ 0 ∷ 0 ∷ 1 ∷ 132 ∷ 10 ∷ []

abbrev answer_frame : Frame
answer_frame = record {
  slave_id = 1;
  function = 3;
  function_name = "read_holding_registers_response";
  raw = answer;
  exception_code = none;
  start_address = none;
  quantity = none;
  byte_count = some 2;
  registers = some (258 ∷ []);
  payload = none;
  value = none;
}

answer_parsed : parse_rtu_frame answer ≡ frame answer_frame
unfolding parse_rtu_frame parse_body parse_read read_response function_name register_pairs
    crc16_modbus
answer_parsed = refl

parse_rtu_frame-IsFrame_example : IsFrame answer answer_frame
parse_rtu_frame-IsFrame_example = parse_rtu_frame-IsFrame answer answer_frame answer_parsed

parse_rtu_frame-response_example :
    (f : Frame) × (parse_rtu_frame (with_crc (response_body 1 3 (258 ∷ []))) ≡ frame f)
    × (f.slave_id ≡ 1)
    × (f.function ≡ 3)
    × (f.registers ≡ some (258 ∷ []))
    × (is_read_response f ≡ true)
parse_rtu_frame-response_example = parse_rtu_frame-response 1 3 (258 ∷ []) refl

parse_rtu_frame-three_bytes_example :
    (f : Frame) × (parse_rtu_frame (with_crc (1 ∷ 1 ∷ 3 ∷ 205 ∷ 107 ∷ 5 ∷ [])) ≡ frame f)
    × (is_read_request f ≡ true)
    × (is_read_response f ≡ false)
parse_rtu_frame-three_bytes_example = parse_rtu_frame-three_bytes 1 1 205 107 5 refl

-- A byte of noise stands before the answer.
noise_found : first_valid_frame_span (255 ∷ answer) ≡ span answer_frame 1 8
unfolding first_valid_frame_span scan_starts scan_sizes scan_step or_next parse_rtu_frame parse_body
    parse_read read_response function_name register_pairs crc16_modbus
noise_found = refl

first_valid_frame_span-IsSpan_example : IsSpan any_frame (255 ∷ answer) answer_frame 1 8
first_valid_frame_span-IsSpan_example =
    first_valid_frame_span-IsSpan (255 ∷ answer) answer_frame 1 8 noise_found

response_found : first_response_frame_span (255 ∷ answer) ≡ span answer_frame 1 8
unfolding first_response_frame_span scan_starts scan_sizes scan_step or_next parse_rtu_frame
    parse_body parse_read read_response function_name register_pairs crc16_modbus
response_found = refl

first_response_frame_span-IsSpan_example : IsSpan is_read_response (255 ∷ answer) answer_frame 1 8
first_response_frame_span-IsSpan_example =
    first_response_frame_span-IsSpan (255 ∷ answer) answer_frame 1 8 response_found

abbrev request_frame : Frame
request_frame = record {
  slave_id = 1;
  function = 3;
  function_name = "read_holding_registers_request";
  raw = request;
  exception_code = none;
  start_address = some 0;
  quantity = some 1;
  byte_count = none;
  registers = none;
  payload = none;
  value = none;
}

-- No response stands in the request.
request_skipped : first_response_frame_span request ≡ nothing (some (crc_mismatch 28864 2692))
unfolding first_response_frame_span scan_starts scan_sizes scan_step or_next parse_rtu_frame
    parse_body parse_read read_response function_name register_pairs crc16_modbus
request_skipped = refl

request_parsed : parse_rtu_frame request ≡ frame request_frame
unfolding parse_rtu_frame parse_body parse_read read_response function_name register_pairs
    crc16_modbus
request_parsed = refl

-- Four bytes with a wrong CRC are no frame.
no_frame : first_valid_frame_span (1 ∷ 3 ∷ 2 ∷ 1 ∷ []) ≡ nothing (some (crc_mismatch 8512 258))
unfolding first_valid_frame_span scan_starts scan_sizes scan_step or_next parse_rtu_frame parse_body
    parse_read read_response function_name register_pairs crc16_modbus
no_frame = refl

first_valid_frame_span-nothing_example : parse_rtu_frame (1 ∷ 3 ∷ 2 ∷ 1 ∷ []) ≢ frame answer_frame
first_valid_frame_span-nothing_example =
    first_valid_frame_span-nothing (1 ∷ 3 ∷ 2 ∷ 1 ∷ []) _ no_frame 0 4 answer_frame (omega arith)
      (omega arith)

drain_response_frames-IsDrained_example :
    (d : Drained) × (drain_response_frames (255 ∷ answer) ≡ some d) × IsDrained d
drain_response_frames-IsDrained_example = drain_response_frames-IsDrained (255 ∷ answer)

drain_request_response_pairs-IsPairing_example :
    (p : Pairing) × (drain_request_response_pairs (request ++ answer) [] ≡ some p) × IsPairing p
drain_request_response_pairs-IsPairing_example =
    drain_request_response_pairs-IsPairing (request ++ answer) [] tt

abbrev exchange : Pair
exchange = record { request = request_frame; response = answer_frame }

exchange-IsPair : IsPair exchange
exchange-IsPair = record { keys = refl; request = refl; response = refl }

abbrev listener : DeviceSpec
listener = record {
  id = some (pos 1);
  name = "line";
  driver_type = "modbus_rtu_monitor";
  enabled = true;
  poll_interval_ms = pos 1000;
  device_group = "";
  connection = [];
}

abbrev speed : TagSpec
speed = record {
  name = "speed";
  address = pos 0;
  function = "holding_register";
  data_type = "uint16";
  tag_group = "";
  id = none;
  device_id = none;
  scale = 4607182418800017408;
  offset = 0;
  enabled = true;
  unit_id = none;
  word_count = none;
  byte_order = "big";
  word_order = "big";
  node_id = none;
}

abbrev plain_floats : Floats
plain_floats = record { of_int = λ n. pos_part n; times = λ a b. a; plus = λ a b. a }

unit_one : int_setting listener.connection "unit_id" (pos 1) ≡ ok (pos 1)
unfolding get
unit_one = refl

tag_results_from_pairs-names_example :
    (results : List TagResult) × (tag_results_from_pairs plain_floats listener
        (speed ∷ [])
        (exchange ∷ [])
        9
      ≡ ok results)
    × (map (λ r. r.name) results ≡ map (λ t. t.name) (speed ∷ []))
tag_results_from_pairs-names_example =
    tag_results_from_pairs-names plain_floats listener (speed ∷ []) (exchange ∷ []) 9 (pos 1)
      (exchange-IsPair, tt) unit_one

-- ===== src/Monitor/Frame.antt =====
-- drivers/modbus_rtu_monitor.py: the CRC and `parse_rtu_frame`. Bytes are numbers below 256. The
-- dictionary that the source returns is a record, with `none` for a key that is not there.
use Prim.Native.Nat.{bit_xor}
use iot_gathering.Common.{
  ℕ, zero, suc, ◌+◌, ◌-◌, ◌*◌, ◌/◌, ◌%◌, ◌^◌, String, ltb, leb, nat_beq, Bool, true, false, not,
  ◌&&◌, ◌||◌, Option, none, some, List, [], ◌∷◌, length, take, drop, get_or, if◌then◌else◌,
}
use iot_gathering.Common.Text.{◌<>◌}

abbrev pub Bytes : Type 0
Bytes = List ℕ

pub data ParseError : Type 0 where
  too_short : ParseError
  crc_mismatch : (expected actual : ℕ) → ParseError
  exception_length read_length write_length : ParseError
  unsupported_function : ℕ → ParseError

pub record Frame : Type 0 where
  pub slave_id : ℕ
  pub function : ℕ
  pub function_name : String
  pub raw : Bytes
  pub exception_code : Option ℕ
  pub start_address : Option ℕ
  pub quantity : Option ℕ
  pub byte_count : Option ℕ
  pub registers : Option (List ℕ)
  pub payload : Option Bytes
  pub value : Option ℕ

pub data Parsed : Type 0 where
  frame : Frame → Parsed
  failed : ParseError → Parsed

-- One round of the inner loop: `crc & 1` decides on the polynomial.
unfoldable pub crc_shift : ℕ → ℕ
crc_shift crc = if nat_beq (crc % 2) 1 then bit_xor (crc / 2) 0xA001 else crc / 2

unfoldable pub crc_shifts : ℕ → ℕ → ℕ
unfolding crc_shift
crc_shifts zero crc = crc
crc_shifts (suc n) crc = crc_shifts n (crc_shift crc)

unfoldable pub crc_from : ℕ → Bytes → ℕ
unfolding crc_shifts
crc_from crc [] = crc
crc_from crc (byte ∷ bytes) = crc_from (crc_shifts 8 (bit_xor crc byte)) bytes

unfoldable pub crc16_modbus : Bytes → ℕ
unfolding crc_from
crc16_modbus bytes = crc_from 0xFFFF bytes % 2 ^ 16

-- `_u16`
abbrev pub u16 : ℕ → ℕ → ℕ
u16 high low = high * 256 + low

abbrev pub is_read : ℕ → Bool
is_read function =
    nat_beq function 1 || nat_beq function 2 || nat_beq function 3 || nat_beq function 4

abbrev pub is_register_read : ℕ → Bool
is_register_read function = nat_beq function 3 || nat_beq function 4

abbrev pub is_write : ℕ → Bool
is_write function =
    nat_beq function 5 || nat_beq function 6 || nat_beq function 15 || nat_beq function 16

abbrev pub is_exception : ℕ → Bool
is_exception function = nat_beq (function / 128 % 2) 1

unfoldable pub read_name : ℕ → String
read_name function =
    if nat_beq function 1
    then "read_coils"
    else if nat_beq function 2
    then "read_discrete_inputs"
    else if nat_beq function 3
    then "read_holding_registers"
    else "read_input_registers"

unfoldable pub function_name : ℕ → Bytes → String
unfolding read_name
function_name function bytes =
    if is_exception function
    then "exception_response"
    else if is_read function
    then read_name function <> (if nat_beq (length bytes) 8 then "_request" else "_response")
    else if nat_beq function 5
    then "write_single_coil"
    else if nat_beq function 6
    then "write_single_register"
    else if nat_beq function 15
    then "write_multiple_coils"
    else if nat_beq function 16
    then "write_multiple_registers"
    else "unknown"

-- The registers of an even number of bytes.
unfoldable pub register_pairs : Bytes → List ℕ
register_pairs [] = []
register_pairs (high ∷ []) = []
register_pairs (high ∷ low ∷ rest) = u16 high low ∷ register_pairs rest

-- `frame[i]`, where `i` is below the length.
abbrev pub at : Bytes → ℕ → ℕ
at bytes i = get_or bytes i 0

-- The keys that every frame has.
abbrev pub base_frame : Bytes → Frame
base_frame bytes = record {
  slave_id = at bytes 0;
  function = at bytes 1;
  function_name = function_name (at bytes 1) bytes;
  raw = bytes;
  exception_code = none;
  start_address = none;
  quantity = none;
  byte_count = none;
  registers = none;
  payload = none;
  value = none;
}

-- A response to a read: `data` is what stands between the byte count and the CRC.
unfoldable pub read_response : Bytes → Frame
unfolding register_pairs
read_response bytes =
    let base = base_frame bytes in
    let count = at bytes 2 in
    let body = take (length bytes - 5) (drop 3 bytes) in
    if nat_beq (length body) count && is_register_read base.function && nat_beq (count % 2) 0
    then record base { byte_count = some count; registers = some (register_pairs body) }
    else if nat_beq (length body) count
    then record base { byte_count = some count; payload = some body }
    else record base { byte_count = some count }

unfoldable pub parse_exception : Bytes → Parsed
parse_exception bytes =
    if nat_beq (length bytes) 5
    then frame (record (base_frame bytes) { exception_code = some (at bytes 2) })
    else failed exception_length

unfoldable pub parse_read : Bytes → Parsed
parse_read bytes =
    if nat_beq (length bytes) 8
    then frame (record (base_frame bytes) {
      start_address = some (u16 (at bytes 2) (at bytes 3));
      quantity = some (u16 (at bytes 4) (at bytes 5));
    })
    else if nat_beq (length bytes) (at bytes 2 + 5)
    then frame (read_response bytes)
    else failed read_length

unfoldable pub parse_write : Bytes → Parsed
parse_write bytes =
    if nat_beq (length bytes) 8
    then frame (record (base_frame bytes) {
      start_address = some (u16 (at bytes 2) (at bytes 3));
      value = some (u16 (at bytes 4) (at bytes 5));
    })
    else failed write_length

-- What follows the checks of the length and of the CRC.
unfoldable pub parse_body : Bytes → Parsed
parse_body bytes =
    let function = at bytes 1 in
    let size = length bytes in
    if is_exception function
    then parse_exception bytes
    else if is_read function && leb 5 size
    then parse_read bytes
    else if is_write function && leb 8 size
    then parse_write bytes
    else if not (is_read function)
    then failed (unsupported_function function)
    else frame (base_frame bytes)

-- `frame[-2] | (frame[-1] << 8)`
abbrev pub sent_crc : Bytes → ℕ
sent_crc bytes = at bytes (length bytes - 2) + at bytes (length bytes - 1) * 256

unfoldable pub parse_rtu_frame : Bytes → Parsed
parse_rtu_frame bytes =
    let expected = crc16_modbus (take (length bytes - 2) bytes) in
    if ltb (length bytes) 4
    then failed too_short
    else if nat_beq expected (sent_crc bytes)
    then parse_body bytes
    else failed (crc_mismatch expected (sent_crc bytes))

-- `_is_read_response` and `_is_read_request`
abbrev pub is_some {ℓ} : {A : Type ℓ} → Option A → Bool
is_some none = false
is_some (some a) = true

abbrev pub is_read_response : Frame → Bool
is_read_response f = is_read f.function && is_some f.byte_count

abbrev pub is_read_request : Frame → Bool
is_read_request f = is_read f.function && is_some f.start_address && is_some f.quantity

-- `_with_response_value`
unfoldable pub with_response_value : Frame → Frame
with_response_value f = elim f.registers [ some (r ∷ []) ↦ record f { value = some r } | _ ↦ f ]

-- ===== src/Monitor/Sent.antt =====
-- What the monitor makes of the frames that devices send: the parse of an independently built response.
use native.Mathlib.Nat.{div-add-mod}
use iot_gathering.Common.{
  ℕ, ◌+◌, ◌-◌, ◌*◌, ◌/◌, ◌%◌, ◌≤◌, nat_beq_iff, true, false, some, List, [], ◌∷◌, ◌++◌, ◌≡◌, refl,
  ◌∙◌, arith, length, length-append, take, drop, take-append, get_or-append,
}
use iot_gathering.Monitor.Frame.{
  Bytes, Frame, frame, at, u16, is_register_read, read_response, base_frame, register_pairs,
  parse_body, parse_read, parse_rtu_frame, sent_crc, crc16_modbus, is_read_response,
  is_read_request, is_read,
}

-- A device appends the CRC of the frame's body, the low byte first.
unfoldable pub with_crc : Bytes → Bytes
with_crc body = body ++ crc16_modbus body % 256 ∷ crc16_modbus body / 256 ∷ []

-- The bytes of a row of registers.
unfoldable pub register_data : List ℕ → Bytes
register_data [] = []
register_data (r ∷ rs) = r / 256 ∷ r % 256 ∷ register_data rs

-- The body of the response to a read of registers.
unfoldable pub response_body : ℕ → ℕ → List ℕ → Bytes
response_body slave function registers =
    slave ∷ function ∷ 2 * length registers ∷ register_data registers

length-with_crc : (body : Bytes) → length (with_crc body) ≡ length body + 2
unfolding with_crc
length-with_crc body =
    omega (arith, length-append body (crc16_modbus body % 256 ∷ crc16_modbus body / 256 ∷ []))

take-with_crc : (body : Bytes) → take (length (with_crc body) - 2) (with_crc body) ≡ body
take-with_crc body = rw (e) (unfold with_crc in take-append body _)
  where
    e : length (with_crc body) - 2 ≡ length body
    e = omega (arith, length-with_crc body)

last_two : (body : Bytes) → length (with_crc body) - 2 ≡ length body + 0
last_two body = omega (arith, length-with_crc body)

last_one : (body : Bytes) → length (with_crc body) - 1 ≡ length body + 1
last_one body = omega (arith, length-with_crc body)

sent_crc-with_crc : (body : Bytes) → sent_crc (with_crc body) ≡ crc16_modbus body
sent_crc-with_crc body = omega (arith, low, high, div-add-mod (crc16_modbus body) 256)
  where
    low : at (with_crc body) (length (with_crc body) - 2) ≡ crc16_modbus body % 256
    low = rw (last_two body) (
        unfold with_crc in
        get_or-append body (crc16_modbus body % 256 ∷ crc16_modbus body / 256 ∷ []) 0 0)

    high : at (with_crc body) (length (with_crc body) - 1) ≡ crc16_modbus body / 256
    high = rw (last_one body) (
        unfold with_crc in
        get_or-append body (crc16_modbus body % 256 ∷ crc16_modbus body / 256 ∷ []) 1 0)

-- A frame with the CRC of its body gets past the checks.
pub parse_rtu_frame-with_crc :
    (body : Bytes) → 2 ≤ length body → parse_rtu_frame (with_crc body) ≡ parse_body (with_crc body)
unfolding parse_rtu_frame
parse_rtu_frame-with_crc body h =
    rw (take-with_crc body, sent_crc-with_crc body)
      (ground (arith, length-with_crc body, nat_beq_iff (crc16_modbus body) (crc16_modbus body)))

register_pairs-register_data : (rs : List ℕ) → register_pairs (register_data rs) ≡ rs
unfolding register_pairs register_data
register_pairs-register_data [] = refl
register_pairs-register_data (r ∷ rs) = ground (arith, register_pairs-register_data rs)

length-register_data : (rs : List ℕ) → length (register_data rs) ≡ 2 * length rs
unfolding register_data
length-register_data [] = refl
length-register_data (r ∷ rs) = omega (arith, length-register_data rs)

-- What a register response looks like to `parse_body`.
read_shape :
    (bytes : Bytes) (function n : ℕ)
    → is_register_read function ≡ true
    → at bytes 1 ≡ function
    → at bytes 2 ≡ 2 * n
    → length bytes ≡ 2 * n + 5
    → parse_body bytes ≡ frame (read_response bytes)
unfolding parse_body parse_read
read_shape bytes function n h a b l = ground arith

sent_registers :
    (bytes : Bytes) (function : ℕ) (rs : List ℕ)
    → is_register_read function ≡ true
    → at bytes 1 ≡ function
    → at bytes 2 ≡ 2 * length rs
    → take (length bytes - 5) (drop 3 bytes) ≡ register_data rs
    → ((read_response bytes).registers ≡ some rs) × (is_read_response (read_response bytes) ≡ true)
unfolding read_response
sent_registers bytes function rs h a b t =
    rw t (ground (arith, length-register_data rs, register_pairs-register_data rs))

read_response-base :
    (bytes : Bytes)
    → ((read_response bytes).slave_id ≡ at bytes 0) × ((read_response bytes).function ≡ at bytes 1)
unfolding read_response
read_response-base bytes = ground arith

-- The response of a slave to a read of holding or input registers, with its CRC, parses to a read response
-- with that slave, that function and those registers.
pub parse_rtu_frame-response :
    (slave function : ℕ) (rs : List ℕ)
    → is_register_read function ≡ true
    → (f : Frame) × (parse_rtu_frame (with_crc (response_body slave function rs)) ≡ frame f)
      × (f.slave_id ≡ slave)
      × (f.function ≡ function)
      × (f.registers ≡ some rs)
      × (is_read_response f ≡ true)
unfolding with_crc response_body
parse_rtu_frame-response slave function rs h = (
  read_response bytes,
  parse_rtu_frame-with_crc (response_body slave function rs) (omega arith)
      ∙ read_shape bytes function (length rs) h refl refl size,
  (read_response-base bytes).0,
  (read_response-base bytes).1,
  (sent_registers bytes function rs h refl refl body).0,
  (sent_registers bytes function rs h refl refl body).1,
)
  where
    bytes : Bytes
    bytes = with_crc (response_body slave function rs)

    size : length bytes ≡ 2 * length rs + 5
    size = omega (arith, length-with_crc (response_body slave function rs), length-register_data rs)

    tail : Bytes
    tail =
        crc16_modbus (response_body slave function rs) % 256
        ∷ crc16_modbus (response_body slave function rs) / 256
        ∷ []

    count : length bytes - 5 ≡ length (register_data rs)
    count = omega (arith, size, length-register_data rs)

    body : take (length bytes - 5) (drop 3 bytes) ≡ register_data rs
    body = rw count (take-append (register_data rs) tail)

request_shape :
    (bytes : Bytes) (function : ℕ)
    → at bytes 1 ≡ function
    → is_read function ≡ true
    → length bytes ≡ 8
    → (f : Frame) × (parse_body bytes ≡ frame f)
      × (is_read_request f ≡ true)
      × (is_read_response f ≡ false)
unfolding parse_body parse_read
request_shape bytes function e h l = (
  record (base_frame bytes) {
    start_address = some (u16 (at bytes 2) (at bytes 3));
    quantity = some (u16 (at bytes 4) (at bytes 5));
  },
  ground arith,
  ground arith,
  ground arith,
)

-- A response to a read with a byte count of three, which is how a device answers a read of 17 to 24 coils or
-- discrete inputs, has eight bytes and parses to a request, not to a response.
pub parse_rtu_frame-three_bytes :
    (slave function a b c : ℕ)
    → is_read function ≡ true
    → (f : Frame) × (parse_rtu_frame (with_crc (slave ∷ function ∷ 3 ∷ a ∷ b ∷ c ∷ [])) ≡ frame f)
      × (is_read_request f ≡ true)
      × (is_read_response f ≡ false)
unfolding with_crc
parse_rtu_frame-three_bytes slave function a b c h =
    let body : Bytes = slave ∷ function ∷ 3 ∷ a ∷ b ∷ c ∷ [] in
    let (f, parsed, request, response) =
      request_shape (with_crc body) function refl h (omega (arith, length-with_crc body)) in
    (f, parse_rtu_frame-with_crc body (omega arith) ∙ parsed, request, response)

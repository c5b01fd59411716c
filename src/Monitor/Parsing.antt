-- ===== src/Monitor/Parsing.antt =====
-- What `parse_rtu_frame` accepts, and that it reads back what a device sends.
use iot_gathering.Common.{
  ◌+◌, ◌-◌, ◌≤◌, leb, nat_beq, nat_beq_iff, Bool-cases, true, false, ◌&&◌, none, some, ◌≡◌, refl,
  ◌⊎◌, inl, inr, arith, length, take,
}
use iot_gathering.Monitor.Frame.{
  Bytes, Frame, frame, at, u16, is_read, is_exception, read_response, parse_exception, parse_read,
  parse_write, is_write, parse_body, parse_rtu_frame, sent_crc, crc16_modbus, is_read_response,
  is_read_request,
}

-- What an accepted frame is.
pub record IsFrame (bytes : Bytes) (f : Frame) : Type 0 where
  pub long : 4 ≤ length bytes
  pub checked : crc16_modbus (take (length bytes - 2) bytes) ≡ sent_crc bytes
  pub slave : f.slave_id ≡ at bytes 0
  pub function : f.function ≡ at bytes 1
  pub response :
      (is_read_response f ≡ false)
      ⊎ ((length bytes ≡ at bytes 2 + 5) × (f.byte_count ≡ some (at bytes 2)))
  pub request :
      (is_read_request f ≡ false)
      ⊎ ((length bytes ≡ 8)
          × (f.start_address ≡ some (u16 (at bytes 2) (at bytes 3)))
          × (f.quantity ≡ some (u16 (at bytes 4) (at bytes 5))))

-- What `parse_body` can return: a frame that is neither request nor response, or one of the two.
data Kind (bytes : Bytes) (f : Frame) : Type 0 where
  other : f.byte_count ≡ none → f.quantity ≡ none → Kind bytes f
  a_request :
      f.byte_count ≡ none
      → length bytes ≡ 8
      → f.start_address ≡ some (u16 (at bytes 2) (at bytes 3))
      → f.quantity ≡ some (u16 (at bytes 4) (at bytes 5))
      → Kind bytes f
  a_response :
      length bytes ≡ at bytes 2 + 5
      → f.byte_count ≡ some (at bytes 2)
      → f.quantity ≡ none
      → Kind bytes f

record IsOf (bytes : Bytes) (f : Frame) : Type 0 where
  slave : f.slave_id ≡ at bytes 0
  function : f.function ≡ at bytes 1
  kind : Kind bytes f

read_response-IsOf :
    (bytes : Bytes) → length bytes ≡ at bytes 2 + 5 → IsOf bytes (read_response bytes)
unfolding read_response
read_response-IsOf bytes h = record {
  slave = ground arith;
  function = ground arith;
  kind = a_response h (ground arith) (ground arith);
}

frame_injective : {f g : Frame} → frame f ≡ frame g → f ≡ g
frame_injective h = cc

parse_exception-IsOf : (bytes : Bytes) (f : Frame) → parse_exception bytes ≡ frame f → IsOf bytes f
unfolding parse_exception
parse_exception-IsOf bytes f h = elim (Bool-cases (nat_beq (length bytes) 5)) [
  | inl e ↦
      rw (← frame_injective (rw e at h))
        (record { slave = refl; function = refl; kind = other refl refl })
  | inr e ↦ absurd (cc (rw e at h))
]

parse_write-IsOf : (bytes : Bytes) (f : Frame) → parse_write bytes ≡ frame f → IsOf bytes f
unfolding parse_write
parse_write-IsOf bytes f h = elim (Bool-cases (nat_beq (length bytes) 8)) [
  | inl e ↦
      rw (← frame_injective (rw e at h))
        (record { slave = refl; function = refl; kind = other refl refl })
  | inr e ↦ absurd (cc (rw e at h))
]

parse_read-IsOf : (bytes : Bytes) (f : Frame) → parse_read bytes ≡ frame f → IsOf bytes f
unfolding parse_read
parse_read-IsOf bytes f h = elim (Bool-cases (nat_beq (length bytes) 8)) [
  | inl e ↦ rw (← frame_injective (rw e at h)) (record {
    slave = refl;
    function = refl;
    kind = a_request refl ((nat_beq_iff _ 8).0 e) refl refl;
  })
  | inr e ↦ elim (Bool-cases (nat_beq (length bytes) (at bytes 2 + 5))) [
    | inl m ↦
        rw (← frame_injective (rw (e, m) at h))
          (read_response-IsOf bytes ((nat_beq_iff _ (at bytes 2 + 5)).0 m))
    | inr m ↦ absurd (cc (rw (e, m) at h))
  ]
]

parse_body-IsOf : (bytes : Bytes) (f : Frame) → parse_body bytes ≡ frame f → IsOf bytes f
unfolding parse_body
parse_body-IsOf bytes f h = elim (Bool-cases (is_exception (at bytes 1))) [
  | inl e ↦ parse_exception-IsOf bytes f (rw e at h)
  | inr e ↦ elim (Bool-cases (is_read (at bytes 1) && leb 5 (length bytes))) [
    | inl r ↦ parse_read-IsOf bytes f (rw (e, r) at h)
    | inr r ↦ elim (Bool-cases (is_write (at bytes 1) && leb 8 (length bytes))) [
      | inl w ↦ parse_write-IsOf bytes f (rw (e, r, w) at h)
      | inr w ↦ elim (Bool-cases (is_read (at bytes 1))) [
        | inl n ↦
            rw (← frame_injective (rw (e, r, w, n) at h))
              (record { slave = refl; function = refl; kind = other refl refl })
        | inr n ↦ absurd (cc (rw (e, r, w, n) at h))
      ]
    ]
  ]
]

Kind-response :
    (bytes : Bytes) (f : Frame)
    → Kind bytes f
    → is_read_response f ≡ true
    → (length bytes ≡ at bytes 2 + 5) × (f.byte_count ≡ some (at bytes 2))
Kind-response bytes f (other a b) r = ground arith
Kind-response bytes f (a_request a b c d) r = ground arith
Kind-response bytes f (a_response a b c) r = (a, b)

Kind-request :
    (bytes : Bytes) (f : Frame)
    → Kind bytes f
    → is_read_request f ≡ true
    → (length bytes ≡ 8)
      × (f.start_address ≡ some (u16 (at bytes 2) (at bytes 3)))
      × (f.quantity ≡ some (u16 (at bytes 4) (at bytes 5)))
Kind-request bytes f (other a b) r = ground arith
Kind-request bytes f (a_request a b c d) r = (b, c, d)
Kind-request bytes f (a_response a b c) r = ground arith

-- An accepted frame has four bytes at least and the CRC that its other bytes have, carries their slave
-- and function, and is a read response only if its length is that of the byte count, a read request only
-- if it has eight bytes.
pub parse_rtu_frame-IsFrame :
    (bytes : Bytes) (f : Frame) → parse_rtu_frame bytes ≡ frame f → IsFrame bytes f
unfolding parse_rtu_frame
parse_rtu_frame-IsFrame bytes f h =
    let (long, checked, body) = accepted in
    let of = parse_body-IsOf bytes f body in
    record {
      long = long;
      checked = checked;
      slave = of.slave;
      function = of.function;
      response = elim (Bool-cases (is_read_response f)) [
        | inl r ↦ inr (Kind-response bytes f of.kind r)
        | inr n ↦ inl n
      ];
      request = elim (Bool-cases (is_read_request f)) [
        | inl r ↦ inr (Kind-request bytes f of.kind r)
        | inr n ↦ inl n
      ];
    }
  where
    accepted :
        (4 ≤ length bytes)
        × (crc16_modbus (take (length bytes - 2) bytes) ≡ sent_crc bytes)
        × (parse_body bytes ≡ frame f)
    accepted = ground arith

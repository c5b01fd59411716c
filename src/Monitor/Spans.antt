-- ===== src/Monitor/Spans.antt =====
-- The search finds a frame exactly where there is one, and says where it stands.
use mathlib.Core.Path.{subst}
use native.Mathlib.Decide.{ℕ_discrete}
use iot_gathering.Common.{
  ℕ, zero, suc, ◌+◌, ◌-◌, ◌<◌, ◌≤◌, Bool, true, false, Bool-cases, Option, none, some, [], ◌∷◌, ◌≡◌,
  ◌≢◌, refl, sym, ap, ◌∙◌, ◌⊎◌, inl, inr, arith, length, take, drop,
}
use iot_gathering.Monitor.Frame.{
  Bytes, Frame, ParseError, Parsed, frame, failed, parse_rtu_frame, is_read_response,
}
use iot_gathering.Monitor.Search.{
  Found, span, nothing, any_frame, scan_step, or_next, scan_sizes, scan_starts,
  first_valid_frame_span, first_response_frame_span,
}

Parsed-cases : (p : Parsed) → ((f : Frame) × (p ≡ frame f)) ⊎ ((e : ParseError) × (p ≡ failed e))
Parsed-cases (frame f) = inl (f, refl)
Parsed-cases (failed e) = inr (e, refl)

pub Found-cases :
    (r : Found)
    → ((f : Frame) × (from : ℕ) × (to : ℕ) × (r ≡ span f from to))
      ⊎ ((e : Option ParseError) × (r ≡ nothing e))
Found-cases (span f from to) = inl (f, from, to, refl)
Found-cases (nothing e) = inr (e, refl)

span_frame : {f g : Frame} {a b c d : ℕ} → span f a b ≡ span g c d → f ≡ g
span_frame h = cc

module _ (accepts : Frame → Bool) where
  -- The frame `f` stands in `bytes` from `from` to `to`.
  pub record IsSpan (bytes : Bytes) (f : Frame) (from to : ℕ) : Type 0 where
    pub long : from + 4 ≤ to
    pub inside : to ≤ length bytes
    pub parsed : parse_rtu_frame (take (to - from) (drop from bytes)) ≡ frame f
    pub accepted : accepts f ≡ true

  -- The frame `f` stands at the front of `bytes`, with a size of at least `size` and below `limit`.
  record IsPrefixFrame (bytes : Bytes) (start size limit : ℕ) (f : Frame) (from to : ℕ)
      : Type 0 where
    count : ℕ
    begins : from ≡ start
    ends : to ≡ start + count
    least : size ≤ count
    most : count < limit
    parsed : parse_rtu_frame (take count bytes) ≡ frame f
    accepted : accepts f ≡ true

  widen_limit :
      {bytes : Bytes} {start size limit limit' : ℕ} {f : Frame} {from to : ℕ}
      → limit ≡ limit'
      → IsPrefixFrame bytes start (suc size) limit f from to
      → IsPrefixFrame bytes start size limit' f from to
  widen_limit e p = record {
    count = p.count;
    begins = p.begins;
    ends = p.ends;
    least = omega (arith, p.least);
    most = omega (arith, p.most);
    parsed = p.parsed;
    accepted = p.accepted;
  }

  scan_sizes-span :
      (rounds start : ℕ) (bytes : Bytes) (size : ℕ) (error : Option ParseError) (f : Frame)
      (from to : ℕ)
      → scan_sizes accepts rounds start bytes size error ≡ span f from to
      → IsPrefixFrame bytes start size (size + rounds) f from to
  unfolding scan_sizes scan_step
  scan_sizes-span zero start bytes size error f from to h = absurd (cc h)
  scan_sizes-span (suc rounds) start bytes size error f from to h =
      elim (Parsed-cases (parse_rtu_frame (take size bytes))) [
        | inl (g, e) ↦ elim (Bool-cases (accepts g)) [
          | inl a ↦
              let here : span g start (start + size) ≡ span f from to = rw (e, a) at h in
              record {
                count = size;
                begins = ground arith;
                ends = ground arith;
                least = omega arith;
                most = omega arith;
                parsed = e ∙ ap frame (span_frame here);
                accepted = ap accepts (sym (span_frame here)) ∙ a;
              }
          | inr a ↦
              widen_limit (omega arith)
                (scan_sizes-span rounds start bytes (suc size) error f from to (rw (e, a) at h))
        ]
        | inr (x, e) ↦
            widen_limit (omega arith)
              (scan_sizes-span rounds start bytes (suc size) (some x) f from to (rw e at h))
      ]

  -- No frame of those sizes is accepted.
  scan_sizes-nothing :
      (rounds start : ℕ) (bytes : Bytes) (size : ℕ) (error e : Option ParseError)
      → scan_sizes accepts rounds start bytes size error ≡ nothing e
      → (n : ℕ) (f : Frame) → size ≤ n
      → n < size + rounds
      → parse_rtu_frame (take n bytes) ≡ frame f
      → accepts f ≡ false
  unfolding scan_sizes scan_step
  scan_sizes-nothing zero start bytes size error e h n f a b p = absurd (omega arith)
  scan_sizes-nothing (suc rounds) start bytes size error e h n f a b p = elim (ℕ_discrete size n) [
    | yes same ↦ elim (Bool-cases (accepts f)) [
      | inl yes_f ↦ absurd (cc (rw (rw (← same) at p, yes_f) at h))
      | inr no_f ↦ no_f
    ]
    | no other ↦ elim (Parsed-cases (parse_rtu_frame (take size bytes))) [
      | inl (g, q) ↦ elim (Bool-cases (accepts g)) [
        | inl yes_g ↦ absurd (cc (rw (q, yes_g) at h))
        | inr no_g ↦
            scan_sizes-nothing rounds start bytes (suc size) error e (rw (q, no_g) at h) n f
              (omega arith) (omega arith) p
      ]
      | inr (x, q) ↦
          scan_sizes-nothing rounds start bytes (suc size) (some x) e (rw q at h) n f (omega arith)
            (omega arith) p
    ]
  ]

  -- A span from `start + k` in the data, seen from `start` on.
  record IsSpanFrom (start : ℕ) (bytes : Bytes) (f : Frame) (from to : ℕ) : Type 0 where
    skip : ℕ
    begins : from ≡ start + skip
    long : from + 4 ≤ to
    inside : to ≤ start + length bytes
    parsed : parse_rtu_frame (take (to - from) (drop skip bytes)) ≡ frame f
    accepted : accepts f ≡ true

  scan_starts-span :
      (start : ℕ) (bytes : Bytes) (error : Option ParseError) (f : Frame) (from to : ℕ)
      → scan_starts accepts start bytes error ≡ span f from to
      → IsSpanFrom start bytes f from to
  unfolding scan_starts or_next
  scan_starts-span start [] error f from to h = absurd (cc h)
  scan_starts-span start (b ∷ bytes) error f from to h =
      elim (Found-cases (scan_sizes accepts (length (b ∷ bytes) - 3) start (b ∷ bytes) 4 error)) [
        | inl (g, x, y, e) ↦
            let p = scan_sizes-span _ start (b ∷ bytes) 4 error f from to (e ∙ (rw e at h)) in
            record {
              skip = 0;
              begins = omega (arith, p.begins);
              long = omega (arith, p.begins, p.ends, p.least);
              inside = omega (arith, p.ends, p.most);
              parsed =
                  let size : to - from ≡ p.count = omega (arith, p.begins, p.ends) in
                  rw size p.parsed;
              accepted = p.accepted;
            }
        | inr (last, e) ↦
            let p = scan_starts-span (suc start) bytes last f from to (rw e at h) in
            record {
              skip = suc p.skip;
              begins = omega (arith, p.begins);
              long = p.long;
              inside = omega (arith, p.inside);
              parsed = p.parsed;
              accepted = p.accepted;
            }
      ]

  scan_starts-nothing :
      (start : ℕ) (bytes : Bytes) (error e : Option ParseError)
      → scan_starts accepts start bytes error ≡ nothing e
      → (k n : ℕ) (f : Frame) → 4 ≤ n
      → k + n ≤ length bytes
      → parse_rtu_frame (take n (drop k bytes)) ≡ frame f
      → accepts f ≡ false
  unfolding scan_starts or_next
  scan_starts-nothing start [] error e h k n f a b p = absurd (omega arith)
  scan_starts-nothing start (x ∷ bytes) error e h zero n f a b p =
      elim (Found-cases (scan_sizes accepts (length (x ∷ bytes) - 3) start (x ∷ bytes) 4 error)) [
        | inl (g, y, z, q) ↦ absurd (cc (rw q at h))
        | inr (last, q) ↦
            scan_sizes-nothing _ start (x ∷ bytes) 4 error last q n f a (omega arith) p
      ]
  scan_starts-nothing start (x ∷ bytes) error e h (suc k) n f a b p =
      elim (Found-cases (scan_sizes accepts (length (x ∷ bytes) - 3) start (x ∷ bytes) 4 error)) [
        | inl (g, y, z, q) ↦ absurd (cc (rw q at h))
        | inr (last, q) ↦
            scan_starts-nothing (suc start) bytes last e (rw q at h) k n f a (omega arith) p
      ]

  -- From the beginning of the data.
  pub search-IsSpan :
      (bytes : Bytes) (f : Frame) (from to : ℕ)
      → scan_starts accepts 0 bytes none ≡ span f from to
      → IsSpan bytes f from to
  search-IsSpan bytes f from to h =
      let p = scan_starts-span 0 bytes none f from to h in
      let begins : from ≡ p.skip = omega (arith, p.begins) in
      record {
        long = p.long;
        inside = omega (arith, p.inside);
        parsed =
            subst (λ k. parse_rtu_frame (take (to - from) (drop k bytes)) ≡ frame f) (sym begins)
              p.parsed;
        accepted = p.accepted;
      }

-- A frame that `_first_valid_frame_span` returns stands where the span says, in four bytes or more of the
-- data, and these bytes parse as that frame.
pub first_valid_frame_span-IsSpan :
    (bytes : Bytes) (f : Frame) (from to : ℕ)
    → first_valid_frame_span bytes ≡ span f from to
    → IsSpan any_frame bytes f from to
unfolding first_valid_frame_span
first_valid_frame_span-IsSpan = search-IsSpan any_frame

-- Where `_first_valid_frame_span` returns no frame, no part of the data of four bytes or more parses as a
-- frame.
pub first_valid_frame_span-nothing :
    (bytes : Bytes) (e : Option ParseError)
    → first_valid_frame_span bytes ≡ nothing e
    → (k n : ℕ) (f : Frame) → 4 ≤ n
    → k + n ≤ length bytes
    → parse_rtu_frame (take n (drop k bytes)) ≢ frame f
unfolding first_valid_frame_span
first_valid_frame_span-nothing bytes e h k n f a b p =
    cc (scan_starts-nothing any_frame 0 bytes none e h k n f a b p)

-- A frame that `_first_response_frame_span` returns is a read response and stands where the span says.
pub first_response_frame_span-IsSpan :
    (bytes : Bytes) (f : Frame) (from to : ℕ)
    → first_response_frame_span bytes ≡ span f from to
    → IsSpan is_read_response bytes f from to
unfolding first_response_frame_span
first_response_frame_span-IsSpan = search-IsSpan is_read_response

-- Where `_first_response_frame_span` returns no frame, every part of the data of four bytes or more that
-- parses as a frame is no read response.
pub first_response_frame_span-nothing :
    (bytes : Bytes) (e : Option ParseError)
    → first_response_frame_span bytes ≡ nothing e
    → (k n : ℕ) (f : Frame) → 4 ≤ n
    → k + n ≤ length bytes
    → parse_rtu_frame (take n (drop k bytes)) ≡ frame f
    → is_read_response f ≡ false
unfolding first_response_frame_span
first_response_frame_span-nothing bytes = scan_starts-nothing is_read_response 0 bytes none

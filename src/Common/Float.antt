-- ===== src/Common/Float.antt =====
-- Binary floating point. A float is the bit pattern of its IEEE 754 binary64. The arithmetic of the
-- machine is an argument of the code that computes with floats.
use Prim.Native.Nat.{ℕ, zero, suc, ◌+◌, ◌-◌, ◌*◌, ◌/◌, ◌%◌, ◌^◌}
use iot_gathering.Common.Tests.{ltb, nat_beq, if◌then◌else◌}
use iot_gathering.Common.Int.{ℤ}

-- `float(n)`, `a * b` and `a + b`.
pub record Floats : Type 0 where
  pub of_int : ℤ → ℕ
  pub times : ℕ → ℕ → ℕ
  pub plus : ℕ → ℕ → ℕ

-- The position of the highest bit of `n`, for `n` below `2 ^ fuel`.
top_bit : ℕ → ℕ → ℕ
top_bit zero n = 0
top_bit (suc fuel) n = let rest = top_bit fuel (n / 2) in if ltb n 2 then 0 else rest + 1

-- The number that a binary32 pattern stands for, as a binary64 pattern. A subnormal is normalised. A
-- NaN keeps its payload.
unfoldable pub widen : ℕ → ℕ
unfolding top_bit
widen f =
    let sign = f / 2 ^ 31 % 2 * 2 ^ 63 in
    let e = f / 2 ^ 23 % 256 in
    let m = f % 2 ^ 23 in
    let k = top_bit 24 m in
    if nat_beq e 255
    then sign + 2047 * 2 ^ 52 + m * 2 ^ 29
    else if ltb 0 e
    then sign + (e + 896) * 2 ^ 52 + m * 2 ^ 29
    else if nat_beq m 0
    then sign
    else sign + (k + 874) * 2 ^ 52 + (m - 2 ^ k) * 2 ^ (52 - k)

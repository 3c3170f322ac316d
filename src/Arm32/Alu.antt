-- ===== src/Arm32/Alu.antt =====
-- The arithmetic of the simulator: the helpers `add_setq` and `clz` and the saturating branch of
-- `decode_arm` in src/tlm_blocks/Cpu/Arm/Arm32.h, and the sign extensions of
-- src/tlm_blocks/Cpu/CpuBase.h.
use open_socemu.Base.{
  ℕ, ◌+◌, ◌-◌, ◌*◌, ◌%◌, ◌^◌, Bool, not, ◌&&◌, ◌||◌, ◌==◌, ltb, leb, if◌then◌else◌, bit_and,
  bit_xor, bit_not, sub32, shl, shr, u32, nonzero,
}
use open_socemu.Arm32.{signbit}

-- `x & SIGNBIT`, as a condition.
abbrev pub sign_set : ℕ → Bool
sign_set x = nonzero (bit_and x signbit)

-- `(uint32_t)((int32_t)val >> sh)`: the sign fills the places that are left.
unfoldable pub sra : ℕ → ℕ → ℕ
sra val sh = if ltb val signbit then shr val sh else bit_not (shr (bit_not val) sh)

-- `(uint32_t)((int32_t)((int16_t)val))`
unfoldable pub sexth2l : ℕ → ℕ
sexth2l val = let half = val % 2 ^ 16 in if ltb half (2 ^ 15) then half else half + 2 ^ 32 - 2 ^ 16

-- `(uint32_t)((int32_t)((int8_t)val))`
unfoldable pub sextb2l : ℕ → ℕ
sextb2l val = let byte = val % 2 ^ 8 in if ltb byte (2 ^ 7) then byte else byte + 2 ^ 32 - 2 ^ 8

-- `(uint64_t)((int64_t)((int32_t)val))`
unfoldable pub sextl2q : ℕ → ℕ
sextl2q val = if ltb val signbit then val else val + 2 ^ 64 - 2 ^ 32

-- The sign test of an addition: the result differs from an operand whose sign both share.
abbrev pub add_overflows : ℕ → ℕ → ℕ → Bool
add_overflows res a b = sign_set (bit_xor res a) && not (sign_set (bit_xor a b))

abbrev pub sub_overflows : ℕ → ℕ → ℕ → Bool
sub_overflows res a b = sign_set (bit_xor res a) && sign_set (bit_xor a b)

-- The sum, and the Q flag after it.
unfoldable pub add_setq : ℕ → ℕ → ℕ → ℕ × ℕ
add_setq val1 val2 qf =
    let res = u32 (val1 + val2) in (res, if add_overflows res val1 val2 then 1 else qf)

-- One step of `clz`: the count and the value, shifted while the value is below the bound.
unfoldable pub clz_step : ℕ → ℕ × ℕ → ℕ × ℕ
clz_step k (result, val) = if ltb val (2 ^ (32 - k)) then (result + k, shl val k) else (result, val)

-- The last step has a signed bound, cast to unsigned, and is followed by the test for zero.
unfoldable pub clz : ℕ → ℕ
clz val =
    let (result, last) = clz_step 1 (clz_step 2 (clz_step 4 (clz_step 8 (clz_step 16 (0, val))))) in
    if last == 0 then 32 else result

-- `~(((int32_t)tmp >> 31) ^ SIGNBIT)`
unfoldable pub saturated : ℕ → ℕ
saturated tmp = bit_not (bit_xor (sra tmp 31) signbit)

-- The doubling of QDADD and QDSUB, and the Q flag after it. The comparisons are signed.
unfoldable pub double_saturated : ℕ → ℕ → ℕ × ℕ
double_saturated tmp2 qf =
    if ltb tmp2 signbit && ltb 0x40000000 tmp2
    then (bit_not signbit, 1)
    else if leb signbit tmp2 && ltb tmp2 0xC0000000
    then (signbit, 1)
    else (u32 (tmp2 * 2), qf)

unfoldable pub subtract_saturated : ℕ → ℕ → ℕ → ℕ × ℕ
subtract_saturated tmp tmp2 qf =
    let res = sub32 tmp tmp2 in if sub_overflows res tmp tmp2 then (saturated tmp, 1) else (res, qf)

unfoldable pub add_saturated : ℕ → ℕ → ℕ → ℕ × ℕ
add_saturated tmp tmp2 qf =
    let res = u32 (tmp + tmp2) in
    if add_overflows res tmp tmp2 then (saturated tmp, 1) else (res, qf)

-- The magnitude of a signed word, and whether a signed product is representable: C leaves the
-- overflow of a signed multiplication undefined.
abbrev pub magnitude : ℕ → ℕ
magnitude x = if ltb x signbit then x else 2 ^ 32 - x

unfoldable pub product_fits : ℕ → ℕ → Bool
product_fits a b =
    let size = magnitude a * magnitude b in
    ltb size signbit
    || (size == signbit && (if ltb a signbit then leb signbit b else ltb b signbit))

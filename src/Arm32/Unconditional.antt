-- ===== src/Arm32/Unconditional.antt =====
-- The decoder of src/tlm_blocks/Cpu/Arm/Arm32.h for instructions without a condition, and what it
-- does to the handler. The result of decoding is the state and the handler.
use open_socemu.Base.{
  ℕ, ◌+◌, ◌-◌, ◌^◌, Bool, ◌&&◌, ◌||◌, ◌==◌, ltb, if◌then◌else◌, bit_and, bit_or, shl, shr, u32,
  nonzero, update, Result, ok, fault, assertion, undefined, check, ◌>>=◌, ◌>>◌,
}
use open_socemu.Arm32.{Arch, Arm32, cpsr_m, cpsr_f, cpsr_i, cpsr_a}
use open_socemu.Arm32.Alu.{sra}
use open_socemu.Arm32.Exec.{
  Fn, illegalop, nop_arm, pld_arm, setend_arm, srs_arm, rfe_arm, blx_arm, cps_arm, Handler,
  params_size,
}

abbrev pub Decoded : Type 0
Decoded = Result (Arm32 × Handler)

abbrev pub matches : ℕ → ℕ → ℕ → Bool
matches insn mask value = bit_and insn mask == value

-- `hdlr->params[k] = value`, within the array.
unfoldable pub set_param : ℕ → ℕ → Handler → Result Handler
set_param k value h =
    check (ltb k params_size) undefined >> ok (record h { params = update h.params k value })

unfoldable pub unsupported : Arm32 → Handler → Decoded
unsupported s h = ok (s, record h { fn = illegalop })

-- ARCH(feature): what follows it is done with the feature only.
abbrev pub needs : Bool → Arm32 → Handler → Decoded → Decoded
needs feature s h rest = if feature then rest else unsupported s h

-- The offsets of the addressing modes DA, IA, DB and IB of SRS and RFE, and of their writeback.
abbrev pub mode_offset : ℕ → ℕ
mode_offset i =
    if i == 0 then 2 ^ 32 - 4 else if i == 1 then 0 else if i == 2 then 2 ^ 32 - 8 else 4

abbrev pub writeback_offset : ℕ → ℕ
writeback_offset i =
    if i == 0 then 2 ^ 32 - 8 else if i == 1 then 4 else if i == 2 then 2 ^ 32 - 4 else 0

-- The branches of SRS and RFE, which differ in the handler and the first parameter.
unfoldable pub decode_multiple : Arch → Fn → ℕ → Arm32 → Handler → Decoded
decode_multiple arch fn first s h = needs arch.has_6 s h (do
  h0 ← set_param 0 first (record h { fn = fn })
  let i = bit_and (shr s.insn 23) 3
  h1 ← set_param 1 (mode_offset i) h0
  let writeback = bit_and s.insn (2 ^ 21)
  h2 ← set_param 2 writeback h1
  h3 ← (if nonzero writeback then set_param 3 (writeback_offset i) h2 else ok h2)
  ok (s, h3))

unfoldable pub decode_blx : Arm32 → Handler → Decoded
decode_blx s h = do
  h0 ← set_param 0 (u32 (sra (shl s.insn 8) 6 + 4)) (record h { fn = blx_arm })
  h1 ← set_param 1 (bit_and (shr s.insn 23) 2) h0
  h2 ← set_param 2 1 h1
  ok (s, h2)

-- `if (insn & (1 << k)) mask |= flag`
abbrev pub flag_if : ℕ → ℕ → ℕ → ℕ → ℕ
flag_if insn k flag mask = if nonzero (bit_and insn (2 ^ k)) then bit_or mask flag else mask

-- The mask and the value of CPS.
unfoldable pub cps_operands : ℕ → ℕ × ℕ
cps_operands insn =
    let enabled = nonzero (bit_and insn (2 ^ 19)) in
    let flags =
      if enabled
      then flag_if insn 6 cpsr_f (flag_if insn 7 cpsr_i (flag_if insn 8 cpsr_a 0))
      else 0 in
    let val = if enabled && nonzero (bit_and insn (2 ^ 18)) then flags else 0 in
    if nonzero (bit_and insn (2 ^ 17))
    then (bit_or flags cpsr_m, bit_or val (bit_and insn 0x1f))
    else (flags, val)

unfoldable pub decode_cps : Arm32 → Handler → Decoded
decode_cps s h =
    let (mask, val) = cps_operands s.insn in
    if nonzero mask
    then (do h0 ← set_param 0 mask (record h { fn = cps_arm }); h1 ← set_param 1 val h0; ok (s, h1))
    else ok (s, record h { fn = nop_arm })

-- CLREX and the barriers.
unfoldable pub decode_barrier : Arch → Arm32 → Handler → Decoded
decode_barrier arch s h =
    let op = bit_and (shr s.insn 4) 0xf in
    if op == 1
    then needs arch.has_6k s h (fault assertion)
    else if (op == 4 || op == 5) || op == 6
    then needs arch.has_7 s h (fault assertion)
    else unsupported s h

-- The instructions without a condition.
unfoldable pub decode_unconditional : Arch → Arm32 → Handler → Decoded
decode_unconditional arch s h =
    let insn = s.insn in
    if bit_and (shr insn 25) 7 == 1
    then needs arch.has_neon s h (fault assertion)
    else if matches insn 0x0f100000 0x04000000
    then needs arch.has_neon s h (fault assertion)
    else if matches insn 0x0d70f000 0x0550f000
    then ok (s, record h { fn = pld_arm })
    else if matches insn 0x0ffffdff 0x01010000
    then needs arch.has_6 s h
        (do h0 ← set_param 0 (bit_and insn (2 ^ 9)) (record h { fn = setend_arm }); ok (s, h0))
    else if matches insn 0x0fffff00 0x057ff000
    then decode_barrier arch s h
    else if matches insn 0x0e5fffe0 0x084d0500
    then decode_multiple arch srs_arm (bit_and insn 0x1f) s h
    else if matches insn 0x0e50ffe0 0x08100a00
    then decode_multiple arch rfe_arm (bit_and (shr insn 16) 0xf) s h
    else if matches insn 0x0e000000 0x0a000000
    then decode_blx s h
    else if matches insn 0x0e000f00 0x0c000100
    then needs arch.has_iwmmxt s h (fault assertion)
    else if matches insn 0x0fe00000 0x0c400000
    then fault assertion
    else if matches insn 0x0f000010 0x0e000010
    then fault assertion
    else if matches insn 0x0ff10020 0x01000000
    then decode_cps s h
    else unsupported s h

-- ===== src/Arm32/Conditional.antt =====
-- The instructions with a condition of src/tlm_blocks/Cpu/Arm/Arm32.h: the decoder carries them out
-- at once, and leaves the handler null.
use open_socemu.Base.{
  ℕ, ◌+◌, ◌-◌, ◌*◌, ◌%◌, ◌^◌, Bool, not, ◌&&◌, ◌||◌, ◌==◌, if◌then◌else◌, bit_and, bit_or, shl, shr,
  u32, nonzero, Result, ok, fault, assertion, undefined, check, ◌>>=◌, ◌>>◌,
}
use open_socemu.Arm32.{
  Arch, Arm32, has_6t2, is_user, raise_illegal, set_reg, reg_lr, reg_pc, reg_spsr,
}
use open_socemu.Arm32.Alu.{
  sra, sexth2l, sextl2q, add_setq, clz, double_saturated, add_saturated, subtract_saturated,
  product_fits,
}
use open_socemu.Arm32.Psr.{msr_mask, get_cpsr, set_psr}
use open_socemu.Arm32.Exec.{Handler, bx}
use open_socemu.Arm32.Unconditional.{Decoded, matches, needs}

-- `wfi` does nothing in this class, so that a hint only raises the exception.
unfoldable pub nop_hint : ℕ → Arm32 → Arm32
nop_hint val s = raise_illegal s

-- MSR of a value: the write under the mask of the flags, or the exception.
unfoldable pub write_psr : Arch → ℕ → Bool → ℕ → Arm32 → Result Arm32
write_psr arch flags spsr val s = do
  mask ← msr_mask arch flags spsr s
  (refused, t) ← set_psr arch mask spsr val s
  ok (if refused then raise_illegal t else t)

abbrev pub ror : ℕ → ℕ → ℕ
ror val shift = if nonzero shift then bit_or (shr val shift) (shl val (32 - shift)) else val

-- MOVW and MOVT, hints, MSR immediate.
unfoldable pub decode_immediate : Arch → Arm32 → Handler → Decoded
decode_immediate arch s h =
    let insn = s.insn in
    let rd = bit_and (shr insn 12) 0xf in
    if bit_and insn (2 ^ 21) == 0
    then (let val = bit_or (bit_and (shr insn 4) 0xf000) (bit_and insn 0xfff) in
        let tmp =
          if bit_and insn (2 ^ 22) == 0
          then val
          else bit_or (bit_and (s.regs rd) 0xFFFF) (shl val 16) in
        needs has_6t2 s h (ok (set_reg rd tmp s, h)))
    else if not (rd == 0xf)
    then ok (raise_illegal s, h)
    else if bit_and (shr insn 16) 0xf == 0
    then ok (nop_hint (bit_and insn 0xff) s, h)
    else (do
      let val = ror (bit_and insn 0xff) (bit_and (shr insn 8) 0xf * 2)
      let spsr = nonzero (bit_and insn (2 ^ 22))
      t ← write_psr arch (bit_and (shr insn 16) 0xf) spsr val s
      ok (t, h))

-- MSR and MRS of a register.
unfoldable pub decode_status : Arch → ℕ → Arm32 → Result Arm32
decode_status arch op1 s =
    let insn = s.insn in
    let spsr = nonzero (bit_and op1 2) in
    let rd = bit_and (shr insn 12) 0xf in
    if nonzero (bit_and op1 1)
    then write_psr arch (bit_and (shr insn 16) 0xf) spsr (s.regs (bit_and insn 0xf)) s
    else if spsr
    then (do
      user ← is_user arch s
      ok (if user then raise_illegal s else set_reg rd (s.regs reg_spsr) s))
    else ok (set_reg rd (get_cpsr s) s)

-- QADD, QSUB, QDADD and QDSUB.
unfoldable pub decode_saturating : ℕ → Arm32 → Arm32
decode_saturating op1 s =
    let tmp = s.regs (bit_and s.insn 0xf) in
    let tmp2 = s.regs (bit_and (shr s.insn 16) 0xf) in
    let (operand, q1) =
      if nonzero (bit_and op1 2) then double_saturated tmp2 s.qf else (tmp2, s.qf) in
    let (res, q2) =
      if nonzero (bit_and op1 1)
      then subtract_saturated tmp operand q1
      else add_saturated tmp operand q1 in
    set_reg (bit_and (shr s.insn 12) 0xf) res (record s { qf = q2 })

abbrev pub half_operand : Bool → ℕ → ℕ
half_operand top val = if top then sra val 16 else sexth2l val

-- `(int32_t)a * (int32_t)b`, where the product is representable.
unfoldable pub multiply : ℕ → ℕ → Result ℕ
multiply a b = check (product_fits a b) undefined >> ok (u32 (a * b))

-- The register written by a multiplication, after the accumulation if there is one.
unfoldable pub accumulate : Bool → ℕ → ℕ → ℕ → Arm32 → Arm32
accumulate adding tmp rn rd s =
    let (res, q) = if adding then add_setq tmp (s.regs rn) s.qf else (tmp, s.qf) in
    set_reg rd res (record s { qf = q })

-- The multiplications of halfwords.
unfoldable pub decode_multiply : ℕ → ℕ → Arm32 → Result Arm32
decode_multiply op1 sh s =
    let rm = s.regs (bit_and s.insn 0xf) in
    let rs = s.regs (bit_and (shr s.insn 8) 0xf) in
    let rn = bit_and (shr s.insn 12) 0xf in
    let rd = bit_and (shr s.insn 16) 0xf in
    let right = half_operand (nonzero (bit_and sh 4)) rs in
    if op1 == 1
    then (do
      product ← multiply rm right
      ok (accumulate (bit_and sh 2 == 0) (sra product 16) rn rd s))
    else (do
      product ← multiply (half_operand (nonzero (bit_and sh 2)) rm) right
      if op1 == 2
          then (let pair = bit_or (s.regs rd * 2 ^ 32) (s.regs rn) in
              let tmp64 = (sextl2q product + pair) % 2 ^ 64 in
              ok (set_reg rd (shr tmp64 32) (set_reg rn (u32 tmp64) s)))
          else ok (accumulate (op1 == 0) product rn rd s))

-- The switch on bits 4 to 7 of the miscellaneous instructions.
unfoldable pub decode_misc : Arch → Arm32 → Handler → Decoded
decode_misc arch s h =
    let insn = s.insn in
    let op1 = bit_and (shr insn 21) 3 in
    let sh = bit_and (shr insn 4) 0xf in
    let rm = s.regs (bit_and insn 0xf) in
    let illegal = ok (raise_illegal s, h) in
    if sh == 0
    then (do t ← decode_status arch op1 s; ok (t, h))
    else if sh == 1
    then (if op1 == 1
        then ok (bx rm s, h)
        else if op1 == 3
        then ok (set_reg (bit_and (shr insn 12) 0xf) (clz rm) s, h)
        else illegal)
    else if sh == 2
    then (if op1 == 1 then needs arch.has_5tej s h (ok (bx rm s, h)) else illegal)
    else if sh == 3
    then (if op1 == 1 then ok (bx rm (set_reg reg_lr (s.regs reg_pc) s), h) else illegal)
    else if sh == 5
    then ok (decode_saturating op1 s, h)
    else if sh == 7
    then fault assertion
    else if ((sh == 8 || sh == 0xa) || sh == 0xc) || sh == 0xe
    then (do t ← decode_multiply op1 sh s; ok (t, h))
    else illegal

-- The instructions whose condition holds.
unfoldable pub decode_conditional : Arch → Arm32 → Handler → Decoded
decode_conditional arch s h =
    if matches s.insn 0x0f900000 0x03000000
    then decode_immediate arch s h
    else if matches s.insn 0x0f900000 0x01000000 && not (matches s.insn 0x00000090 0x00000090)
    then decode_misc arch s h
    else ok (s, h)

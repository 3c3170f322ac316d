-- ===== src/Arm32/Psr.antt =====
-- The status registers of src/tlm_blocks/Cpu/Arm/Arm32.h: condition codes, and the reads and
-- masked writes of CPSR and SPSR.
use open_socemu.Base.{
  ℕ, Bool, true, false, not, ◌&&◌, ◌||◌, ◌==◌, if◌then◌else◌, bit_and, bit_or, bit_xor, bit_not,
  shl, shr, nonzero, update, Result, ok, fault, assertion, ◌>>=◌,
}
use open_socemu.Arm32.{
  Arch, Arm32, has_6t2, is_user, reg_spsr, cpsr_m, cpsr_t, cpsr_e, cpsr_it_7_2, cpsr_ge,
  cpsr_reserved, cpsr_it_1_0, cpsr_it, cpsr_exec, cpsr_q, cpsr_nzcv, cpsr_user, cpsr_cached,
}

unfoldable pub test_cc : ℕ → Arm32 → Result Bool
test_cc cond s =
    let z = nonzero s.zf in
    let c = nonzero s.cf in
    let n = nonzero s.nf in
    let v = nonzero s.vf in
    let signed = s.nf == s.vf in
    if cond == 0
    then ok z
    else if cond == 1
    then ok (not z)
    else if cond == 2
    then ok c
    else if cond == 3
    then ok (not c)
    else if cond == 4
    then ok n
    else if cond == 5
    then ok (not n)
    else if cond == 6
    then ok v
    else if cond == 7
    then ok (not v)
    else if cond == 8
    then ok (c && not z)
    else if cond == 9
    then ok (not c || z)
    else if cond == 10
    then ok signed
    else if cond == 11
    then ok (not signed)
    else if cond == 12
    then ok (not z && signed)
    else if cond == 13
    then ok (z || not signed)
    else fault assertion

-- `if (flags & (1 << k)) mask |= byte`
abbrev pub byte_mask : ℕ → ℕ → ℕ → ℕ → ℕ
byte_mask flags k byte mask = if nonzero (bit_and flags (shl 1 k)) then bit_or mask byte else mask

-- The bits that the four byte flags select.
unfoldable pub field_mask : ℕ → ℕ
field_mask flags =
    byte_mask flags 3 0xff000000
      (byte_mask flags 2 0xff0000 (byte_mask flags 1 0xff00 (byte_mask flags 0 0xff 0)))

-- `if (test) mask &= ~bits`
abbrev pub mask_out : Bool → ℕ → ℕ → ℕ
mask_out test bits mask = if test then bit_and mask (bit_not bits) else mask

-- The mask without the bits that are undefined, and without the execution state for CPSR.
unfoldable pub defined_mask : Arch → ℕ → Bool → ℕ
defined_mask arch flags spsr =
    let m1 = bit_and (field_mask flags) (bit_not cpsr_reserved) in
    let m2 = mask_out (not arch.has_6) (bit_or cpsr_e cpsr_ge) m1 in
    let m3 = mask_out (not has_6t2) cpsr_it m2 in mask_out (not spsr) cpsr_exec m3

unfoldable pub msr_mask : Arch → ℕ → Bool → Arm32 → Result ℕ
msr_mask arch flags spsr s = do
  let mask = defined_mask arch flags spsr
  user ← is_user arch s
  ok (if user then bit_and mask cpsr_user else mask)

unfoldable pub get_cpsr : Arm32 → ℕ
get_cpsr s =
    let r1 = bit_or s.raw_cpsr (shl s.nf 31) in
    let r2 = bit_or r1 (shl s.zf 30) in
    let r3 = bit_or r2 (shl s.cf 29) in
    let r4 = bit_or r3 (shl s.vf 28) in
    let r5 = bit_or r4 (shl s.qf 27) in
    let r6 = bit_or r5 (shl s.tf 5) in
    let r7 = bit_or r6 (shl (bit_and s.itf 3) 25) in
    let r8 = bit_or r7 (shl s.gef 16) in
    let r9 = bit_or r8 (shl (bit_and s.itf 0xfc) 8) in bit_or r9 s.mf

-- The cached flags under the mask. A truth value of C is 0 or 1.
abbrev pub truth : Bool → ℕ
truth b = if b then 1 else 0

unfoldable pub set_flags : ℕ → ℕ → Arm32 → Arm32
set_flags val mask s =
    let nzcv = nonzero (bit_and mask cpsr_nzcv) in
    let it1 =
      if nonzero (bit_and mask cpsr_it_1_0)
      then bit_or (bit_and s.itf (bit_not 3)) (bit_and (shr val 25) 3)
      else s.itf in
    let it2 =
      if nonzero (bit_and mask cpsr_it_7_2)
      then bit_or (bit_and it1 3) (bit_and (shr val 8) 0xfc)
      else it1 in
    record s {
      nf = if nzcv then bit_and (shr val 31) 1 else s.nf;
      zf = if nzcv then bit_and (shr val 30) 1 else s.zf;
      cf = if nzcv then bit_and (shr val 29) 1 else s.cf;
      vf = if nzcv then bit_and (shr val 28) 1 else s.vf;
      qf = if nonzero (bit_and mask cpsr_q) then truth (nonzero (bit_and val cpsr_q)) else s.qf;
      tf = if nonzero (bit_and mask cpsr_t) then truth (nonzero (bit_and val cpsr_t)) else s.tf;
      itf = it2;
      gef = if nonzero (bit_and mask cpsr_ge) then bit_and (shr val 16) 0xf else s.gef;
    }

unfoldable pub switch_mode : ℕ → Arm32 → Result Arm32
switch_mode mode s = fault assertion

-- `(raw & ~mask) | (val & mask)`
abbrev pub merge : ℕ → ℕ → ℕ → ℕ
merge raw val mask = bit_or (bit_and raw (bit_not mask)) (bit_and val mask)

unfoldable pub set_cpsr : ℕ → ℕ → Arm32 → Result Arm32
set_cpsr val mask s = do
  let s1 = set_flags val mask s
  let changed = nonzero (bit_and (bit_and (bit_xor s1.raw_cpsr val) mask) cpsr_m)
  s2 ← (if changed then switch_mode (bit_and val cpsr_m) s1 else ok s1)
  ok (record s2 { raw_cpsr = merge s2.raw_cpsr val (bit_and mask (bit_not cpsr_cached)) })

unfoldable pub set_spsr : ℕ → ℕ → Arm32 → Arm32
set_spsr val mask s = record s { regs = update s.regs reg_spsr (merge (s.regs reg_spsr) val mask) }

-- The Boolean is the result of the C function: true where the access is refused.
unfoldable pub set_psr : Arch → ℕ → Bool → ℕ → Arm32 → Result (Bool × Arm32)
set_psr arch mask spsr t0 s =
    if spsr
    then (do user ← is_user arch s; if user then ok (true, s) else ok (false, set_spsr t0 mask s))
    else (do t ← set_cpsr t0 mask s; ok (false, t))

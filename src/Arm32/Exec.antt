-- ===== src/Arm32/Exec.antt =====
-- The instruction handlers of src/tlm_blocks/Cpu/Arm/Arm32.h, their dispatch, and the word
-- accesses of src/tlm_blocks/Cpu/CpuBase.h that they make. What a transaction does on the bus is a
-- parameter: a state σ, a read and a write of a word.
use open_socemu.Base.{
  ℕ, ◌+◌, ◌-◌, ◌%◌, ◌^◌, false, ◌&&◌, ◌==◌, ltb, leb, if◌then◌else◌, bit_and, bit_or, bit_not, shl,
  shr, u32, nonzero, update, Result, ok, fault, assertion, undefined, check, ◌>>=◌, ◌>>◌,
}
use open_socemu.Arm32.{
  Arch, Arm32, is_user, raise_illegal, set_reg, mode_usr, reg_lr, reg_pc, reg_spsr,
}
use open_socemu.Arm32.Psr.{set_cpsr, set_psr}

pub record Memory {ℓ} (σ : Type ℓ) : Type ℓ where
  pub rd_word : ℕ → σ → Result (ℕ × σ)
  pub wr_word : ℕ → ℕ → σ → Result σ

unfoldable pub rd_l {ℓ} : {σ : Type ℓ} → Memory σ → ℕ → σ → Result (ℕ × σ)
rd_l memory addr bus = check (bit_and addr 3 == 0) assertion >> memory.rd_word addr bus

unfoldable pub wr_l {ℓ} : {σ : Type ℓ} → Memory σ → ℕ → ℕ → σ → Result σ
wr_l memory addr data_ bus = memory.wr_word addr data_ bus

-- `addr & (~3)` on the 64-bit address.
unfoldable pub rd_l_unaligned {ℓ} : {σ : Type ℓ} → Memory σ → ℕ → σ → Result (ℕ × σ)
rd_l_unaligned memory addr bus = do
  check (bit_and addr 1 == 0) assertion
  if nonzero (bit_and addr 2)
      then (do
        let addrm = bit_and addr (2 ^ 64 - 1 - 3)
        (datal, b1) ← memory.rd_word addrm bus
        (datah, b2) ← memory.rd_word ((addrm + 4) % 2 ^ 64) b1
        ok (bit_or (shl datah 16) (shr datal 16), b2))
      else memory.rd_word addr bus

unfoldable pub set_pc : ℕ → Arm32 → Arm32
set_pc pc s = set_reg reg_pc (u32 pc) s

unfoldable pub bx : ℕ → Arm32 → Arm32
bx addr s = set_pc (bit_and addr (bit_not 1)) (record s { tf = bit_and addr 1 })

-- `params` is the array of a handler.
unfoldable pub blx : (ℕ → ℕ) → Arm32 → Arm32
blx params s =
    let addr = s.regs reg_pc in
    let target = u32 (addr + bit_or (bit_or (params 0) (params 1)) (params 2)) in
    bx target (set_reg reg_lr addr s)

unfoldable pub setend : (ℕ → ℕ) → Arm32 → Result Arm32
setend params s = if nonzero (params 0) then fault assertion else ok s

unfoldable pub cps : Arch → (ℕ → ℕ) → Arm32 → Result Arm32
cps arch params s = do
  user ← is_user arch s
  if user then ok s else (do (refused, t) ← set_psr arch (params 0) false (params 1) s; ok t)

-- The banked register file of a mode, by its offset from MODE_USR in an array of 16.
abbrev pub bank : ℕ → Result ℕ
bank mode = check (leb mode_usr mode && ltb mode 32) undefined >> ok (mode - mode_usr)

unfoldable pub srs_base : ℕ → Arm32 → Result ℕ
srs_base mode s =
    if mode == s.mf then ok (s.regs reg_spsr) else (do i ← bank mode; ok (s.banked_regs i reg_spsr))

unfoldable pub srs_writeback : ℕ → ℕ → Arm32 → Result Arm32
srs_writeback mode addr s = if mode == s.mf then ok (set_reg reg_spsr addr s) else (do
  i ← bank mode
  ok (record s { banked_regs = update s.banked_regs i (update (s.banked_regs i) reg_spsr addr) }))

unfoldable pub srs {ℓ} : {σ : Type ℓ} → Arch → Memory σ → (ℕ → ℕ) → Arm32 → σ → Result (Arm32 × σ)
srs arch memory params s bus = do
  user ← is_user arch s
  if user then ok (raise_illegal s, bus) else (do
    base ← srs_base (params 0) s
    let addr = u32 (base + params 1)
    b1 ← wr_l memory addr (s.regs reg_lr) bus
    let next = u32 (addr + 4)
    b2 ← wr_l memory next (s.regs reg_spsr) b1
    if nonzero (params 2)
        then (do t ← srs_writeback (params 0) (u32 (next + params 3)) s; ok (t, b2))
        else ok (s, b2))

unfoldable pub rfe {ℓ} : {σ : Type ℓ} → Arch → Memory σ → (ℕ → ℕ) → Arm32 → σ → Result (Arm32 × σ)
rfe arch memory params s bus = do
  user ← is_user arch s
  if user then ok (raise_illegal s, bus) else (do
    let addr = u32 (s.regs (params 0) + params 1)
    (pc, b1) ← rd_l memory addr bus
    let next = u32 (addr + 4)
    (cpsr, b2) ← rd_l memory next b1
    let based = set_reg (params 0) (u32 (next + params 3)) s
    t ← set_cpsr cpsr 0xffffffff (if nonzero (params 2) then based else s)
    ok (set_pc pc t, b2))

pub data Fn : Type 0 where
  null illegalop nop_arm pld_arm setend_arm srs_arm rfe_arm blx_arm cps_arm : Fn

-- InsnHandler, whose array has one parameter.
pub record Handler : Type 0 where
  pub fn : Fn
  pub params : ℕ → ℕ

abbrev pub params_size : ℕ
params_size = 1

-- The macro INSNHDLR_ARM.
abbrev pub advanced : Arm32 → Arm32
advanced s = set_pc (s.regs reg_pc + 4) s

abbrev pub beside {ℓ} : {σ : Type ℓ} → σ → Result Arm32 → Result (Arm32 × σ)
beside bus m = m >>= (λ t. ok (t, bus))

-- Calling a null member pointer is undefined.
unfoldable pub exec_insn {ℓ} :
    {σ : Type ℓ} → Arch → Memory σ → Handler → Arm32 → σ → Result (Arm32 × σ)
exec_insn arch memory h s bus = elim h.fn [
  | null ↦ fault undefined
  | illegalop ↦ ok (raise_illegal s, bus)
  | nop_arm ↦ ok (advanced s, bus)
  | pld_arm ↦ ok (advanced s, bus)
  | setend_arm ↦ beside bus (setend h.params (advanced s))
  | srs_arm ↦ srs arch memory h.params (advanced s) bus
  | rfe_arm ↦ rfe arch memory h.params (advanced s) bus
  | blx_arm ↦ ok (blx h.params (advanced s), bus)
  | cps_arm ↦ beside bus (cps arch h.params (advanced s))
]

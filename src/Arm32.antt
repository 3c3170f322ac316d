-- ===== src/Arm32.antt =====
-- The ARM instruction set simulator of src/tlm_blocks/Cpu/Arm/Arm32.h: its state, the features of
-- an architecture, and the flags of the status registers.
-- The `has_` members that a derived class can override are the record Arch; `has_6T2` is not
-- virtual, so that it is false in every class. A C `int32_t` is kept as its 32-bit pattern.
pub mod Alu
pub mod Psr
pub mod Exec
pub mod Unconditional
pub mod Conditional
pub mod Decode
pub mod Clz
pub mod Excess
pub mod Saturate
pub mod Conditions
pub mod Guarded
pub mod Privilege
pub mod Handlers
pub mod Faults
pub mod Status
pub mod Writes
pub mod ReadBack
mod Tests
use open_socemu.Base.{
  ℕ, Bool, true, false, ◌==◌, if◌then◌else◌, bit_or, update, Result, ok, fault, assertion,
}

abbrev pub signbit : ℕ
signbit = 0x80000000

abbrev pub except_illegal_op : ℕ
except_illegal_op = 1

abbrev pub cpsr_m : ℕ
cpsr_m = 0x1F

abbrev pub cpsr_t : ℕ
cpsr_t = 0x20

abbrev pub cpsr_f : ℕ
cpsr_f = 0x40

abbrev pub cpsr_i : ℕ
cpsr_i = 0x80

abbrev pub cpsr_a : ℕ
cpsr_a = 0x100

abbrev pub cpsr_e : ℕ
cpsr_e = 0x200

abbrev pub cpsr_it_7_2 : ℕ
cpsr_it_7_2 = 0xFC00

abbrev pub cpsr_ge : ℕ
cpsr_ge = 0xF0000

abbrev pub cpsr_reserved : ℕ
cpsr_reserved = 0xF00000

abbrev pub cpsr_j : ℕ
cpsr_j = 0x1000000

abbrev pub cpsr_it_1_0 : ℕ
cpsr_it_1_0 = 0x6000000

abbrev pub cpsr_it : ℕ
cpsr_it = bit_or cpsr_it_7_2 cpsr_it_1_0

abbrev pub cpsr_exec : ℕ
cpsr_exec = bit_or (bit_or cpsr_it cpsr_j) cpsr_t

abbrev pub cpsr_q : ℕ
cpsr_q = 0x8000000

abbrev pub cpsr_nzcv : ℕ
cpsr_nzcv = 0xF0000000

abbrev pub cpsr_user : ℕ
cpsr_user = bit_or (bit_or cpsr_nzcv cpsr_q) cpsr_ge

abbrev pub cpsr_cached : ℕ
cpsr_cached = bit_or (bit_or (bit_or cpsr_user cpsr_it) cpsr_t) cpsr_m

abbrev pub mode_usr : ℕ
mode_usr = 0x10

abbrev pub reg_lr : ℕ
reg_lr = 14

abbrev pub reg_pc : ℕ
reg_pc = 15

abbrev pub reg_spsr : ℕ
reg_spsr = 16

pub record Arch : Type 0 where
  pub has_iwmmxt : Bool
  pub has_5tej : Bool
  pub has_6 : Bool
  pub has_6k : Bool
  pub has_7 : Bool
  pub has_m : Bool
  pub has_neon : Bool

-- The base class.
abbrev pub base_arch : Arch
base_arch = record {
  has_iwmmxt = false;
  has_5tej = false;
  has_6 = false;
  has_6k = false;
  has_7 = false;
  has_m = false;
  has_neon = false;
}

abbrev pub has_6t2 : Bool
has_6t2 = false

pub record Arm32 : Type 0 where
  pub insn : ℕ
  pub nf : ℕ
  pub zf : ℕ
  pub cf : ℕ
  pub vf : ℕ
  pub qf : ℕ
  pub gef : ℕ
  pub tf : ℕ
  pub mf : ℕ
  pub itf : ℕ
  pub raw_cpsr : ℕ
  pub exception : ℕ
  pub regs : ℕ → ℕ
  pub banked_regs : ℕ → ℕ → ℕ

unfoldable pub is_user : Arch → Arm32 → Result Bool
is_user arch s = if arch.has_m then fault assertion else ok (s.mf == mode_usr)

unfoldable pub reset : Arm32 → Arm32
reset s = record s { regs = update s.regs reg_pc 0; tf = 0 }

-- `exception |= EXCEPT_ILLEGAL_OP`
unfoldable pub raise_illegal : Arm32 → Arm32
raise_illegal s = record s { exception = bit_or s.exception except_illegal_op }

-- `regs[i] = value`
abbrev pub set_reg : ℕ → ℕ → Arm32 → Arm32
set_reg i value s = record s { regs = update s.regs i value }

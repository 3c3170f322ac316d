-- ===== src/CpuBase.antt =====
-- The base of the processors, src/tlm_blocks/Cpu/CpuBase.h, bound to a slave with memory: its
-- callbacks for a debugger, and the thread that runs instructions, over the virtual methods.
pub mod Memory
pub mod Image
pub mod Cache
pub mod Fake
pub mod Breaks
mod Tests
use open_socemu.Base.{
  leb, check, undefined, ◌>>◌, ℕ, zero, suc, ◌+◌, ◌*◌, ◌/◌, ◌%◌, ◌^◌, Bool, true, false, List, [],
  ◌∷◌, ◌++◌, u32, if◌then◌else◌, update, Option, none, some, Result, ok, ◌>>=◌,
}
use open_socemu.Base.Lists.{length}
use open_socemu.BusSlave.{BusSlave, read_command, write_command, slave_dbg_transport}
use open_socemu.Gdb.{GdbCb}
use open_socemu.Elf.{ElfFile, ElfReader, Segment, byte_at, mapped, open_elf, get_next_segment}

-- A processor that has no state but its program counter, and what its socket is bound to.
pub record CpuBase : Type 0 where
  pub pc : ℕ
  pub memory : BusSlave

-- The bytes behind a pointer as a list, and back.
unfoldable pub from_array : ℕ → (ℕ → ℕ) → List ℕ
from_array zero bytes = []
from_array (suc n) bytes = bytes 0 ∷ from_array n (λ k. bytes (k + 1))

unfoldable pub to_array : List ℕ → ℕ → ℕ
to_array [] k = 0
to_array (c ∷ mem) zero = c
to_array (c ∷ mem) (suc k) = to_array mem k

unfoldable pub gdb_set_pc : ℕ → CpuBase → CpuBase
gdb_set_pc pc c = record c { pc = u32 pc }

-- A number as the four bytes of a register, the lowest first.
unfoldable pub word_bytes : ℕ → List ℕ
word_bytes w = w % 2 ^ 8 ∷ w / 2 ^ 8 % 2 ^ 8 ∷ w / 2 ^ 16 % 2 ^ 8 ∷ w / 2 ^ 24 % 2 ^ 8 ∷ []

-- The registers from a number on, each with its number as its value.
unfoldable pub core_registers : ℕ → ℕ → List ℕ
core_registers zero i = []
core_registers (suc n) i = word_bytes i ++ core_registers n (i + 1)

unfoldable pub zeros : ℕ → List ℕ
zeros zero = []
zeros (suc n) = 0 ∷ zeros n

unfoldable pub gdb_rd_reg : CpuBase → List ℕ
gdb_rd_reg c =
    core_registers 15 0 ++ (word_bytes (u32 c.pc) ++ (zeros (8 * 12 + 4) ++ word_bytes 0x10))

-- The default only prints.
unfoldable pub gdb_wr_reg : List ℕ → CpuBase → CpuBase
gdb_wr_reg mem c = c

unfoldable pub gdb_rd_mem : ℕ → ℕ → CpuBase → Result (Option (List ℕ))
gdb_rd_mem addr len c = do
  (n_bytes, bytes, memory) ← slave_dbg_transport read_command len addr (λ k. 0) c.memory
  ok (some (from_array n_bytes bytes))

unfoldable pub gdb_wr_mem : ℕ → List ℕ → CpuBase → Result (Option ℕ × CpuBase)
gdb_wr_mem addr mem c = do
  (n_bytes, bytes, memory) ←
      slave_dbg_transport write_command (length mem) addr (to_array mem) c.memory
  ok (some n_bytes, record c { memory = memory })

-- A round of the loop of `load_elf`: the segment found is written, and the loop goes on. A copy from
-- outside the mapping is undefined.
unfoldable pub load_next :
    (ElfReader → CpuBase → Result (Option CpuBase))
    → Option Segment × ElfReader
    → CpuBase
    → Result (Option CpuBase)
load_next again (none, r) c = ok (some c)
load_next again (some s, r) c =
    slave_dbg_transport write_command s.size s.address (λ k. byte_at r.mmap_buf (s.offset + k))
      c.memory
    >>= λ (n_bytes, bytes, memory).
        check (leb (s.offset + n_bytes) (mapped r.mmap_buf)) undefined
        >> again r (record c { memory = memory })

-- The loop; none when the fuel is spent.
unfoldable pub load_segments : ℕ → ElfReader → CpuBase → Result (Option CpuBase)
load_segments zero r c = ok none
load_segments (suc n) r c = load_next (load_segments n) (get_next_segment r) c

-- Without a path there is nothing to load. The reader has as many segments as the file has.
unfoldable pub load_elf : Option (Option ElfFile) → CpuBase → Result (Option CpuBase)
load_elf none c = ok (some c)
load_elf (some file) c = do r ← open_elf file; load_segments (suc r.segments_num) r c

-- What the constructor hands to the server.
unfoldable pub callbacks : GdbCb CpuBase
callbacks = record {
  gdb_set_pc_cb = gdb_set_pc;
  gdb_rd_reg_cb = gdb_rd_reg;
  gdb_wr_reg_cb = gdb_wr_reg;
  gdb_rd_mem_cb = gdb_rd_mem;
  gdb_wr_mem_cb = gdb_wr_mem;
}

-- The virtual methods, over the handlers of instructions and the state of the processor, its server
-- included. `before_exec_insn` is that of the server, on the state.
pub record Methods (Insn Core : Type 0) : Type 0 where
  pub get_pc : Core → ℕ
  pub fetch_insn : Core → Result Core
  pub handle_exception : Core → Result (Bool × Core)
  pub before_exec_insn : ℕ → Core → Result (Bool × Core)
  pub decode_insn : Core → Result (Insn × Core)
  pub exec_insn : Insn → Core → Result Core

module _ {Insn Core : Type 0} (m : Methods Insn Core) where
  abbrev pub Running : Type 0
  Running = (ℕ → Option Insn) × Core

  -- The handler at the program counter, decoded and kept when there is none yet.
  unfoldable pub exec_at : Option Insn → (ℕ → Option Insn) → Core → Result Running
  exec_at (some insn) insncache c = do d ← m.exec_insn insn c; ok (insncache, d)
  exec_at none insncache c = do
    (insn, d) ← m.decode_insn c
    e ← m.exec_insn insn d
    ok (update insncache (m.get_pc d) (some insn), e)

  -- A round of the loop of `thread_process`.
  unfoldable pub thread_round : Running → Result Running
  thread_round (insncache, c) = do
    d ← m.fetch_insn c
    (pending, e) ← m.handle_exception d
    if pending then ok (insncache, e) else (do
      (resume, f) ← m.before_exec_insn (m.get_pc e) e
      if resume then exec_at (insncache (m.get_pc f)) insncache f else ok (insncache, f))

  unfoldable pub thread_rounds : ℕ → Running → Result Running
  thread_rounds zero r = ok r
  thread_rounds (suc n) r = thread_round r >>= thread_rounds n

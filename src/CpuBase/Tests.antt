-- ===== src/CpuBase/Tests.antt =====
-- Runs of the base processor, and its theorems applied.
use open_socemu.Base.{
  ℕ, zero, suc, ◌+◌, ◌-◌, ◌*◌, ◌<◌, ◌≤◌, ltb, some, if◌then◌else◌, ◌≡◌, refl, true, ◌==◌, List, [],
  ◌∷◌, Option, none, ok, ◌>>=◌, arith, false,
}
use open_socemu.Base.Lists.{length}
use open_socemu.Gdb.{Server, Arrival, byte, new, put_packet}
use open_socemu.Gdb.Hex.{memtohex}
use open_socemu.Gdb.Commands.{handle_packet, reply_ok}
use open_socemu.Gdb.Session.{handlesig}
use open_socemu.BusSlave.{get_byte}
use open_socemu.Elf.{ElfFile, is_elf, half_at, word_at}
use open_socemu.CpuBase.Image.{
  IsLoadable, offset_of, vaddr_of, filesz_of, image, with_words, load_elf-image,
}
use open_socemu.CpuBase.{load_elf}
use open_socemu.CpuBase.{
  Methods, CpuBase, callbacks, gdb_rd_reg, core_registers, zeros, word_bytes, exec_at, thread_round,
  thread_rounds,
}
use open_socemu.CpuBase.Memory.{write_command_of, read_command_of, handle_packet-write_read}
use open_socemu.CpuBase.Fake.{Handler, exec_insn, base_methods, server_methods}
use open_socemu.CpuBase.Breaks.{silence, running, thread_rounds-breakpoint}

abbrev cpu : CpuBase
cpu = record { pc = 0x100; memory = record { words = λ j. 0; size = 64 } }

registers_run :
    (length (gdb_rd_reg cpu) ≡ 168) × (core_registers 2 0 ≡ 0 ∷ 0 ∷ 0 ∷ 0 ∷ 1 ∷ 0 ∷ 0 ∷ 0 ∷ [])
unfolding gdb_rd_reg core_registers zeros word_bytes
registers_run = (refl, refl)

rounds_run :
    (thread_rounds base_methods 3 ((λ pc. none), cpu) >>= λ r. ok r.1)
    ≡ ok (record cpu { pc = 0x10C })
unfolding thread_rounds thread_round exec_at exec_insn
rounds_run = refl

abbrev memory : List ℕ
memory = 0xDE ∷ 0xAD ∷ 0xBE ∷ []

handle_packet-write_read_example :
    (c : CpuBase) × (handle_packet callbacks
        (write_command_of (1 ∷ 2 ∷ []) (0 ∷ 3 ∷ []) memory)
        (new cpu)
      ≡ ok (put_packet reply_ok (record (new cpu) { cpu = c })))
    × (handle_packet callbacks
          (read_command_of (1 ∷ 2 ∷ []) (0 ∷ 3 ∷ []))
          (record (new cpu) { cpu = c })
        ≡ ok (put_packet (memtohex memory) (record (new cpu) { cpu = c })))
unfolding open_socemu.Gdb.Digits.value_after new
handle_packet-write_read_example =
    handle_packet-write_read 1 0 (2 ∷ []) (3 ∷ []) memory (new cpu) (new cpu) (omega arith)
      (omega arith) (omega arith) refl (omega arith) (omega arith) (omega arith) (omega arith)

-- A program of two instructions, 3 at zero and 5 at one, of which each adds itself to an accumulator
-- and goes on with the other.
abbrev program : ℕ → ℕ
program pc = if pc == 0 then 3 else 5

abbrev loop_methods : Methods ℕ (ℕ × ℕ)
loop_methods = record {
  fetch_insn = λ c. ok c;
  handle_exception = λ c. ok (false, c);
  before_exec_insn = λ pc c. ok (true, c);
  get_pc = λ c. c.0;
  decode_insn = λ c. ok (program c.0, c);
  exec_insn = λ insn c. ok (1 - c.0, c.1 + insn);
}

abbrev Any : ℕ × ℕ → Type 0
Any c = Unit {0}

abbrev cached : (ℕ → Option ℕ) × (ℕ × ℕ) → Option ℕ × Option ℕ
cached r = (r.0 0, r.0 1)

-- Rounds three to five take their handlers from the cache.
loop_runs :
    ((thread_rounds loop_methods 5 ((λ pc. none), (0, 0)) >>= λ r. ok r.1) ≡ ok (1, 19))
    × ((thread_rounds loop_methods 2 ((λ pc. none), (0, 0)) >>= λ r. ok (cached r))
        ≡ ok (some 3, some 5))
unfolding thread_rounds thread_round exec_at
loop_runs = (refl, refl)

-- A breakpoint two instructions ahead.
abbrev stopping : Server CpuBase
stopping = record (new cpu) { brkpts = λ a. a == 0x108 }

thread_rounds-breakpoint_example :
    (after : ℕ → Option Handler) × (thread_rounds server_methods 2
        ((λ pc. none), running stopping 0x100 (silence 2 (byte b'+' ∷ [])))
      ≡ ok (after, running stopping 0x108 (byte b'+' ∷ [])))
    × (thread_round server_methods (after, running stopping 0x108 (byte b'+' ∷ [])) ≡ (
        handlesig callbacks true (running stopping 0x108 (byte b'+' ∷ [])) >>= λ t.
        exec_at server_methods (after t.cpu.pc) after t))
unfolding new
thread_rounds-breakpoint_example =
    thread_rounds-breakpoint stopping 2 (λ pc. none) 0x100 (byte b'+' ∷ []) (omega arith)
      (λ k below. ground arith) refl

-- The bytes of a file by their places; behind the headers each byte is its own place.
abbrev bytes_of : List (ℕ × ℕ) → ℕ → ℕ
bytes_of [] k = if ltb k 140 then 0 else k
bytes_of ((place, value) ∷ rest) k =
    let others = bytes_of rest k in if k == place then value else others

-- Two segments, of which the second lies over the end of the first; their headers are 40 bytes apart.
abbrev two_segments : ElfFile
two_segments = record {
  content = bytes_of (
      (0, 0x7F)
      ∷ (1, 0x45)
      ∷ (2, 0x4C)
      ∷ (3, 0x46)
      ∷ (4, 1)
      ∷ (5, 1)
      ∷ (16, 2)
      ∷ (18, 40)
      ∷ (28, 52)
      ∷ (42, 40)
      ∷ (44, 2)
      ∷ (56, 140)
      ∷ (60, 16)
      ∷ (68, 8)
      ∷ (96, 200)
      ∷ (100, 20)
      ∷ (108, 8)
      ∷ []);
  size = 256;
}

-- What holds of both program headers holds of each.
both : (P : ℕ → Type 0) → P 0 → P 1 → (j : ℕ) → j < 2 → P j
both P first second zero h = first
both P first second (suc zero) h = second
both P first second (suc (suc j)) h = absurd (omega arith)

two_segments-IsLoadable : IsLoadable two_segments
unfolding is_elf
two_segments-IsLoadable = record {
  magic = refl;
  class = refl;
  little_endian = refl;
  executable = refl;
  machine = refl;
  has_headers = omega arith;
  has_offset = omega arith;
  headers =
      both (λ i. word_at two_segments 28 + half_at two_segments 42 * i + 32 ≤ two_segments.size)
        (omega arith) (omega arith);
  segments =
      both (λ i. offset_of two_segments i + filesz_of two_segments i ≤ two_segments.size)
        (omega arith) (omega arith);
}

two_segments_inside : (j : ℕ) → j < 2 → vaddr_of two_segments j < 64
two_segments_inside = both (λ j. vaddr_of two_segments j < 64) (omega arith) (omega arith)

image_runs :
    (image two_segments 2 (λ b. 7) 15 ≡ 7)
    × (image two_segments 2 (λ b. 7) 17 ≡ 141)
    × (image two_segments 2 (λ b. 7) 21 ≡ 201)
unfolding image
image_runs = (refl, refl, refl)

load_elf-image_example :
    (words : ℕ → ℕ) × (load_elf (some (some two_segments)) cpu ≡ ok (some (with_words words cpu)))
    × ((b : ℕ) → b < 64 → get_byte words b ≡ image two_segments 2 (get_byte (λ j. 0)) b)
load_elf-image_example = load_elf-image two_segments cpu two_segments-IsLoadable two_segments_inside

-- ===== src/Elf.antt =====
-- The reader of ELF files, src/utils/ElfReader/ElfReader.h. A file that could be opened is its bytes;
-- a file that could not is none. A pointer into the mapping is its offset. SYS_ERR ends the simulation
-- as TLM_ERR does.
mod Tests
use open_socemu.Base.{
  ℕ, zero, suc, ◌+◌, ◌*◌, ◌/◌, ◌%◌, ◌^◌, Bool, true, not, ◌&&◌, Option, none, some, ltb, leb, ◌==◌,
  if◌then◌else◌, Result, ok, fault, undefined, assertion, tlm_err, check, ◌>>=◌, ◌>>◌,
}

pub record ElfFile : Type 0 where
  pub content : ℕ → ℕ
  pub size : ℕ

-- mmap maps whole pages of 4096 bytes, and fills the last one up with zeros.
unfoldable pub mapped : ElfFile → ℕ
mapped file = (file.size + 4095) / 4096 * 4096

abbrev pub byte_at : ElfFile → ℕ → ℕ
byte_at file a = if ltb a file.size then file.content a % 2 ^ 8 else 0

abbrev pub half_at : ElfFile → ℕ → ℕ
half_at file a = byte_at file a + 2 ^ 8 * byte_at file (a + 1)

abbrev pub word_at : ElfFile → ℕ → ℕ
word_at file a = half_at file a + 2 ^ 16 * half_at file (a + 2)

-- The fields of Elf32_Ehdr and Elf32_Phdr that the code, debug prints aside, reads, at the places that
-- the ELF format gives them, the low byte first.
pub record Ehdr : Type 0 where
  pub e_ident : ℕ → ℕ
  pub e_type : ℕ
  pub e_machine : ℕ
  pub e_phoff : ℕ
  pub e_phentsize : ℕ
  pub e_phnum : ℕ

unfoldable pub ehdr : ElfFile → Ehdr
ehdr file = record {
  e_ident = byte_at file;
  e_type = half_at file 16;
  e_machine = half_at file 18;
  e_phoff = word_at file 28;
  e_phentsize = half_at file 42;
  e_phnum = half_at file 44;
}

pub record Phdr : Type 0 where
  pub p_offset : ℕ
  pub p_vaddr : ℕ
  pub p_filesz : ℕ

unfoldable pub phdr_at : ElfFile → ℕ → Phdr
phdr_at file a = record {
  p_offset = word_at file (a + 4);
  p_vaddr = word_at file (a + 8);
  p_filesz = word_at file (a + 16);
}

-- The offset of a program header.
unfoldable pub phdr_offset : ElfFile → ℕ → ℕ
phdr_offset file i = let h = ehdr file in h.e_phoff + h.e_phentsize * i

-- The first n program headers, of 32 bytes, lie in the mapping.
unfoldable pub headers_mapped : ElfFile → ℕ → Bool
headers_mapped file zero = true
headers_mapped file (suc n) = headers_mapped file n && leb (phdr_offset file n + 32) (mapped file)

pub record Segment : Type 0 where
  pub offset : ℕ
  pub size : ℕ
  pub address : ℕ

pub record ElfReader : Type 0 where
  pub mmap_buf : ElfFile
  pub segments_num : ℕ
  pub current_segment : ℕ
  pub segments : ℕ → Segment

unfoldable pub segment : ElfFile → ℕ → Segment
segment file i =
    let p = phdr_at file (phdr_offset file i) in
    record { offset = p.p_offset; size = p.p_filesz; address = p.p_vaddr }

-- The tests of the magic number, twice, with ELFMAG0 to ELFMAG3.
unfoldable pub is_elf : (ℕ → ℕ) → Bool
is_elf e_ident =
    ((e_ident 0 == 0x7F && e_ident 1 == 0x45) && e_ident 2 == 0x4C) && e_ident 3 == 0x46

-- An empty file cannot be mapped. ELFCLASS32 is 1, ET_EXEC is 2, EM_ARM is 40 and ELFDATA2LSB is 1. A
-- program header outside the mapping is undefined. What the destructor undoes is left out.
unfoldable pub open_elf : Option ElfFile → Result ElfReader
open_elf none = fault tlm_err
open_elf (some file) = do
  let h = ehdr file
  check (not (file.size == 0)) tlm_err
  check (is_elf h.e_ident) tlm_err
  check (h.e_ident 4 == 1) tlm_err
  check (h.e_type == 2 && h.e_machine == 40) tlm_err
  check (h.e_ident 5 == 1) tlm_err
  check (not (h.e_phnum == 0)) tlm_err
  check (not (h.e_phoff == 0)) assertion
  check (headers_mapped file h.e_phnum) undefined
  ok (record {
    mmap_buf = file;
    segments_num = h.e_phnum;
    current_segment = 0;
    segments = segment file;
  })

unfoldable pub get_next_segment : ElfReader → Option Segment × ElfReader
get_next_segment r =
    if ltb r.current_segment r.segments_num
    then (some (r.segments r.current_segment), record r { current_segment = r.current_segment + 1 })
    else (none, r)

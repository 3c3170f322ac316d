-- ===== src/CpuBase/Image.antt =====
-- What is in memory after the segments of an ELF file were loaded.
use open_socemu.Base.{
  ℕ, zero, suc, ◌+◌, ◌-◌, ◌%◌, ◌^◌, ◌<◌, ◌≤◌, ◌*◌, ◌≡◌, refl, ap, ◌∙◌, true, false, ◌&&◌, ◌==◌, leb,
  ltb, none, some, ok, arith, inl, inr, Bool-cases, if◌then◌else◌,
}
use open_socemu.BusSlave.{get_byte, put_bytes, count, slave_dbg_transport}
use open_socemu.BusSlave.Debug.{get_byte-put_bytes, get_byte-put_bytes_apart}
use open_socemu.Elf.{
  ElfFile, ElfReader, segment, is_elf, open_elf, get_next_segment, byte_at, half_at, word_at,
  mapped, phdr_at, phdr_offset, ehdr, headers_mapped,
}
use open_socemu.CpuBase.{CpuBase, load_next, load_segments, load_elf}

-- The ELF format: a field of the program header i, and the segment that the header describes.
abbrev pub field : ElfFile → ℕ → ℕ → ℕ
field file i place = word_at file (word_at file 28 + half_at file 42 * i + place)

abbrev pub offset_of : ElfFile → ℕ → ℕ
offset_of file i = field file i 4

abbrev pub vaddr_of : ElfFile → ℕ → ℕ
vaddr_of file i = field file i 8

abbrev pub filesz_of : ElfFile → ℕ → ℕ
filesz_of file i = field file i 16

-- The byte at an address over the first n segments of a file: that of the last segment which covers
-- it, and else what was there before.
unfoldable pub image : ElfFile → ℕ → (ℕ → ℕ) → ℕ → ℕ
image file zero old b = old b
image file (suc n) old b =
    let before = image file n old b in
    if leb (vaddr_of file n) b && ltb b (vaddr_of file n + filesz_of file n)
    then file.content (offset_of file n + (b - vaddr_of file n)) % 2 ^ 8
    else before

-- A little-endian 32-bit executable for ARM with at least one program header, whose program headers
-- and segments lie in the file.
pub record IsLoadable (file : ElfFile) : Type 0 where
  pub magic : is_elf (byte_at file) ≡ true
  pub class : byte_at file 4 ≡ 1
  pub little_endian : byte_at file 5 ≡ 1
  pub executable : half_at file 16 ≡ 2
  pub machine : half_at file 18 ≡ 40
  pub has_headers : 0 < half_at file 44
  pub has_offset : 0 < word_at file 28
  pub headers :
      (i : ℕ) → i < half_at file 44 → word_at file 28 + half_at file 42 * i + 32 ≤ file.size
  pub segments : (i : ℕ) → i < half_at file 44 → offset_of file i + filesz_of file i ≤ file.size

-- The bytes that the debug transport writes.
abbrev written : ℕ → ℕ → ℕ → (ℕ → ℕ) → (ℕ → ℕ) → (ℕ → ℕ)
written size vaddr filesz bytes words = put_bytes (count filesz vaddr size) vaddr bytes words

written-covers :
    (size b vaddr filesz : ℕ) (bytes words : ℕ → ℕ)
    → b < size
    → get_byte (written size vaddr filesz bytes words) b ≡ (
        if leb vaddr b && ltb b (vaddr + filesz)
        then bytes (b - vaddr) % 2 ^ 8
        else get_byte words b)
unfolding count
written-covers size b vaddr filesz bytes words inside =
    elim (Bool-cases (leb vaddr b && ltb b (vaddr + filesz))) [
      | inl on ↦
          (let at : b ≡ vaddr + (b - vaddr) = ground arith in
            rw on (
              ap (get_byte (written size vaddr filesz bytes words)) at
              ∙ get_byte-put_bytes (count filesz vaddr size) vaddr (b - vaddr) bytes words
                  (ground arith)))
      | inr off ↦
          rw off
            (get_byte-put_bytes_apart (count filesz vaddr size) vaddr b bytes words (ground arith))
    ]

count-le : (filesz vaddr size : ℕ) → count filesz vaddr size ≤ filesz
unfolding count
count-le filesz vaddr size = ground arith

mapped-ge : (file : ElfFile) → file.size ≤ mapped file
unfolding mapped
mapped-ge file = omega arith

abbrev reader : ElfFile → ℕ → ElfReader
reader file i = record {
  mmap_buf = file;
  segments_num = half_at file 44;
  current_segment = i;
  segments = segment file;
}

-- The processor with other words behind its socket.
abbrev pub with_words : (ℕ → ℕ) → CpuBase → CpuBase
with_words words c = record c { memory = record (c.memory) { words = words } }

abbrev segment_words : ElfFile → ℕ → CpuBase → (ℕ → ℕ)
segment_words file i c =
    written c.memory.size (vaddr_of file i) (filesz_of file i)
      (λ k. byte_at file (offset_of file i + k)) c.memory.words

next_segment :
    (file : ElfFile) (i : ℕ)
    → get_next_segment (reader file i) ≡ (
        if ltb i (half_at file 44)
        then (some (segment file i), reader file (i + 1))
        else (none, reader file i))
unfolding get_next_segment
next_segment file i = refl

segment_fields :
    (file : ElfFile) (i : ℕ)
    → segment file i
      ≡ record { offset = offset_of file i; size = filesz_of file i; address = vaddr_of file i }
unfolding segment phdr_at phdr_offset ehdr
segment_fields file i = refl

load_segment :
    (file : ElfFile) (n i : ℕ) (c : CpuBase)
    → IsLoadable file
    → i < half_at file 44
    → vaddr_of file i < c.memory.size
    → load_segments (suc n) (reader file i) c
      ≡ load_segments n (reader file (i + 1)) (with_words (segment_words file i c) c)
unfolding load_segments load_next slave_dbg_transport
load_segment file n i c l more inside =
    let next : ltb i (half_at file 44) ≡ true = ground arith in
    let start : ltb (vaddr_of file i) c.memory.size ≡ true = ground arith in
    let n_bytes = count (filesz_of file i) (vaddr_of file i) c.memory.size in
    let inside_map : leb (offset_of file i + n_bytes) (mapped file) ≡ true = ground (
      arith,
      count-le (filesz_of file i) (vaddr_of file i) c.memory.size,
      l.segments i more,
      mapped-ge file,
    ) in
    rw (next_segment file i, next, segment_fields file i, start, inside_map) refl

within_file :
    (offset vaddr filesz b size : ℕ)
    → (leb vaddr b && ltb b (vaddr + filesz)) ≡ true
    → offset + filesz ≤ size
    → ltb (offset + (b - vaddr)) size ≡ true
within_file offset vaddr filesz b size on fits = ground arith

twice : (x : ℕ) → x % 2 ^ 8 % 2 ^ 8 ≡ x % 2 ^ 8
twice x = omega arith

-- The bytes in memory after a segment of the file was written.
segment_words-covers :
    (file : ElfFile) (i b : ℕ) (c : CpuBase)
    → IsLoadable file
    → i < half_at file 44
    → b < c.memory.size
    → get_byte (segment_words file i c) b ≡ (
        if leb (vaddr_of file i) b && ltb b (vaddr_of file i + filesz_of file i)
        then file.content (offset_of file i + (b - vaddr_of file i)) % 2 ^ 8
        else get_byte c.memory.words b)
segment_words-covers file i b c l more inside =
    written-covers c.memory.size b (vaddr_of file i) (filesz_of file i)
      (λ k. byte_at file (offset_of file i + k)) c.memory.words inside
    ∙ elim (Bool-cases (leb (vaddr_of file i) b && ltb b (vaddr_of file i + filesz_of file i))) [
      | inl on ↦
          (let within =
              within_file (offset_of file i) (vaddr_of file i) (filesz_of file i) b file.size on
                (l.segments i more) in
            rw (on, within) (twice (file.content (offset_of file i + (b - vaddr_of file i)))))
      | inr off ↦ rw off refl
    ]

-- What the loop does with the n segments that are left, when those below i are written.
load_segments-image :
    (file : ElfFile) (old : ℕ → ℕ) (n i : ℕ) (c : CpuBase)
    → IsLoadable file
    → i + n ≡ half_at file 44
    → ((j : ℕ) → j < half_at file 44 → vaddr_of file j < c.memory.size)
    → ((b : ℕ) → b < c.memory.size → get_byte c.memory.words b ≡ image file i old b)
    → (words : ℕ → ℕ) × (load_segments (suc n) (reader file i) c ≡ ok (some (with_words words c)))
      × ((b : ℕ) → b < c.memory.size → get_byte words b ≡ image file (half_at file 44) old b)
unfolding load_segments load_next image
load_segments-image file old zero i c l all inside done =
    let stop : ltb i (half_at file 44) ≡ false = ground arith in
    let last : i ≡ half_at file 44 = omega arith in
    (
      c.memory.words,
      rw (next_segment file i, stop) refl,
      λ b h. done b h ∙ ap (λ k. image file k old b) last,
    )
load_segments-image file old (suc n) i c l all inside done =
    let words = segment_words file i c in
    let more : i < half_at file 44 = omega arith in
    let next : suc i ≡ i + 1 = omega arith in
    let (after, run, right) =
      load_segments-image file old n (i + 1) (with_words words c) l (omega arith) inside λ b h.
        segment_words-covers file i b c l more h
        ∙ ap
            (λ y.
              if leb (vaddr_of file i) b && ltb b (vaddr_of file i + filesz_of file i)
              then file.content (offset_of file i + (b - vaddr_of file i)) % 2 ^ 8
              else y)
            (done b h)
        ∙ ap (λ k. image file k old b) next in
    (after, load_segment file (suc n) i c l more (inside i more) ∙ run, right)

headers_mapped-true :
    (file : ElfFile) (n : ℕ) → IsLoadable file → n ≤ half_at file 44 → headers_mapped file n ≡ true
unfolding headers_mapped phdr_offset ehdr
headers_mapped-true file zero l h = refl
headers_mapped-true file (suc n) l h =
    let below : headers_mapped file n ≡ true = headers_mapped-true file n l (omega arith) in
    let this : leb (word_at file 28 + half_at file 42 * n + 32) (mapped file) ≡ true =
      ground (arith, l.headers n (omega arith), mapped-ge file) in
    rw (below, this) refl

open_elf-reader : (file : ElfFile) → IsLoadable file → open_elf (some file) ≡ ok (reader file 0)
unfolding open_elf ehdr
open_elf-reader file l =
    let room : (file.size == 0) ≡ false = ground (arith, l.headers 0 l.has_headers) in
    let no_headers : (half_at file 44 == 0) ≡ false = ground (arith, l.has_headers) in
    let no_offset : (word_at file 28 == 0) ≡ false = ground (arith, l.has_offset) in
    let all = headers_mapped-true file (half_at file 44) l (omega arith) in
    rw
      (room, l.magic, l.class, l.executable, l.machine, l.little_endian, no_headers, no_offset, all)
      refl

-- Loading a little-endian 32-bit executable for ARM whose program headers, of which there is one at
-- least, and segments lie in the file, each segment starting in memory, ends and is accepted. After it
-- every byte of memory is that of the last segment which covers its address, as the program headers at
-- the offset and the distance in the file's header say, and every other byte is as before.
pub load_elf-image :
    (file : ElfFile) (c : CpuBase)
    → IsLoadable file
    → ((j : ℕ) → j < half_at file 44 → vaddr_of file j < c.memory.size)
    → (words : ℕ → ℕ) × (load_elf (some (some file)) c ≡ ok (some (with_words words c)))
      × ((b : ℕ)
          → b < c.memory.size
          → get_byte words b ≡ image file (half_at file 44) (get_byte c.memory.words) b)
unfolding load_elf image
load_elf-image file c l inside =
    let (words, run, right) =
      load_segments-image file (get_byte c.memory.words) (half_at file 44) 0 c l (omega arith)
        inside (λ b h. refl) in
    (words, rw (open_elf-reader file l) run, right)

-- ===== src/Elf/Tests.antt =====
-- Runs of the reader on a file with one segment.
use open_socemu.Base.{
  ℕ, ◌==◌, if◌then◌else◌, ◌≡◌, refl, none, some, ok, fault, tlm_err, assertion, Result, Option,
  ◌>>=◌, List, [], ◌∷◌,
}
use open_socemu.Elf.{
  ElfFile, mapped, ehdr, phdr_at, phdr_offset, headers_mapped, is_elf, segment, open_elf,
  get_next_segment,
}

-- The bytes of a file by their places; the other bytes are zero.
abbrev bytes_of : List (ℕ × ℕ) → ℕ → ℕ
bytes_of [] k = 0
bytes_of ((place, value) ∷ rest) k =
    let others = bytes_of rest k in if k == place then value else others

abbrev with_machine : ℕ → ℕ → ℕ → ElfFile
with_machine e_machine e_phoff size = record {
  content = bytes_of (
      (0, 0x7F)
      ∷ (1, 0x45)
      ∷ (2, 0x4C)
      ∷ (3, 0x46)
      ∷ (4, 1)
      ∷ (5, 1)
      ∷ (6, 1)
      ∷ (16, 2)
      ∷ (18, e_machine)
      ∷ (28, e_phoff)
      ∷ (42, 40)
      ∷ (44, 2)
      ∷ (56, 132)
      ∷ (60, 16)
      ∷ (68, 3)
      ∷ (96, 135)
      ∷ (100, 0x34)
      ∷ (101, 0x12)
      ∷ (108, 9)
      ∷ []);
  size = size;
}

-- The first two segments that the reader hands out, by their addresses and sizes. The distance of the
-- headers is 40 bytes.
abbrev segments : Option ElfFile → Result (Option (ℕ × ℕ) × Option (ℕ × ℕ))
segments file = do
  r ← open_elf file
  let (first, r1) = get_next_segment r
  let (second, r2) = get_next_segment r1
  ok (
    elim first [ none ↦ none | some s ↦ some (s.address, s.size) ],
    elim second [ none ↦ none | some s ↦ some (s.address, s.size) ],
  )

reader_runs :
    (segments (some (with_machine 40 52 160)) ≡ ok (some (16, 3), some (0x1234, 9)))
    × (segments none ≡ fault tlm_err)
    × (segments (some (with_machine 40 52 0)) ≡ fault tlm_err)
    × (segments (some (with_machine 3 52 160)) ≡ fault tlm_err)
    × (segments (some (with_machine 40 0 160)) ≡ fault assertion)
unfolding mapped ehdr phdr_at phdr_offset headers_mapped segment open_elf is_elf get_next_segment
reader_runs = (refl, refl, refl, refl, refl)

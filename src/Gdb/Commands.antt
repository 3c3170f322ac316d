-- ===== src/Gdb/Commands.antt =====
-- The commands of the debugger: `handle_packet`.
use open_socemu.Base.{
  ℕ, ◌+◌, ◌*◌, ◌/◌, ◌^◌, Bool, true, false, ◌||◌, List, [], ◌∷◌, leb, ◌==◌, if◌then◌else◌, u32,
  Option, none, some, Result, ok, assertion, undefined, check, ◌>>=◌, ◌>>◌,
}
use open_socemu.Base.Lists.{length}
use open_socemu.Gdb.{Server, GdbCb, put_packet, set_singlestep}
use open_socemu.Gdb.Hex.{memtohex, hextomem}
use open_socemu.Gdb.Numbers.{strto}

-- A text of C ends before its first zero byte.
unfoldable pub until_nul : List ℕ → List ℕ
until_nul [] = []
until_nul (c ∷ s) = if c == 0 then [] else c ∷ until_nul s

abbrev pub skip_char : ℕ → List ℕ → List ℕ
skip_char x [] = []
skip_char x (c ∷ s) = if c == x then s else c ∷ s

abbrev pub reply_ok : List ℕ
reply_ok = b'O' ∷ b'K' ∷ []

abbrev pub reply_e14 : List ℕ
reply_e14 = b'E' ∷ b'1' ∷ b'4' ∷ []

abbrev pub reply_e22 : List ℕ
reply_e22 = b'E' ∷ b'2' ∷ b'2' ∷ []

-- "S%02x" of SIGTRAP.
abbrev pub reply_sigtrap : List ℕ
reply_sigtrap = b'S' ∷ b'0' ∷ b'5' ∷ []

-- `std::set` as its membership test.
abbrev pub set_insert : ℕ → (ℕ → Bool) → (ℕ → Bool)
set_insert addr set = λ a. if a == addr then true else set a

abbrev pub set_erase : ℕ → (ℕ → Bool) → (ℕ → Bool)
set_erase addr set = λ a. if a == addr then false else set a

-- The number at the start of a text, and the text behind it and behind a separator.
unfoldable pub field : ℕ → List ℕ → ℕ × List ℕ
field separator p = let (n, rest) = strto (2 ^ 64) p in (u32 n, skip_char separator rest)

module _ {Cpu : Type 0} (cb : GdbCb Cpu) where
  -- The address behind `c` or `s`, when there is one.
  unfoldable pub resume_at : List ℕ → Server Cpu → Server Cpu
  resume_at [] s = s
  resume_at (c ∷ p) s = record s { cpu = cb.gdb_set_pc_cb (u32 (strto (2 ^ 64) (c ∷ p)).0) s.cpu }

  -- The bytes read, unless the callback answers -1. A read of more bytes than `mem_buf` holds is
  -- undefined.
  unfoldable pub gdb_rd_mem : ℕ → ℕ → Server Cpu → Result (Option (List ℕ))
  gdb_rd_mem addr len s = do
    check (leb len 4096) undefined
    answer ← cb.gdb_rd_mem_cb addr len s.cpu
    elim answer [ none ↦ ok none | some mem ↦ check (length mem == len) assertion >> ok (some mem) ]

  -- Whether the write was done.
  unfoldable pub gdb_wr_mem : ℕ → List ℕ → Server Cpu → Result (Bool × Server Cpu)
  gdb_wr_mem addr mem s = do
    (answer, cpu) ← cb.gdb_wr_mem_cb addr mem s.cpu
    elim answer [
      | none ↦ ok (false, record s { cpu = cpu })
      | some num_bytes ↦
          check (num_bytes == length mem) assertion >> ok (true, record s { cpu = cpu })
    ]

  -- The digits of the bytes and the zero behind them have to fit in `buf`.
  unfoldable pub put_memory : List ℕ → Server Cpu → Result (Server Cpu)
  put_memory mem s =
      check (leb (2 * length mem + 1) 4096) undefined >> ok (put_packet (memtohex mem) s)

  unfoldable pub write_registers : List ℕ → Server Cpu → Result (Server Cpu)
  write_registers p s = do
    mem ← hextomem p (length p / 2)
    ok (put_packet reply_ok (record s { cpu = cb.gdb_wr_reg_cb mem s.cpu }))

  unfoldable pub read_memory : List ℕ → Server Cpu → Result (Server Cpu)
  read_memory p s = do
    let (addr, q) = field b',' p
    let (len, rest) = field 0 q
    answer ← gdb_rd_mem addr len s
    elim answer [ none ↦ ok (put_packet reply_e14 s) | some mem ↦ put_memory mem s ]

  unfoldable pub write_memory : List ℕ → Server Cpu → Result (Server Cpu)
  write_memory p s = do
    let (addr, q) = field b',' p
    let (len, r) = field b':' q
    check (leb len 4096) undefined
    mem ← hextomem r len
    (done, t) ← gdb_wr_mem addr mem s
    ok (put_packet (if done then reply_ok else reply_e14) t)

  -- The type of a `Z` or `z` command, its address, and the sets after it.
  unfoldable pub breakpoint : (ℕ → (ℕ → Bool) → (ℕ → Bool)) → List ℕ → Server Cpu → Server Cpu
  breakpoint change p s =
      let (type, q) = strto (2 ^ 32) p in
      let (addr, rest) = field b',' (skip_char b',' q) in
      if type == 0 || type == 1
      then put_packet reply_ok (record s { brkpts = change addr s.brkpts })
      else if type == 2
      then put_packet reply_ok (record s { wtcpts = change addr s.wtcpts })
      else put_packet reply_e22 s

  -- The command, and what is behind it.
  unfoldable pub dispatch : ℕ → List ℕ → Server Cpu → Result (Server Cpu)
  dispatch ch p s =
      if ch == b'?'
      then ok (put_packet reply_sigtrap s)
      else if ch == b'c'
      then ok (record (resume_at p s) { run = true })
      else if ch == b's'
      then ok (record (set_singlestep true (resume_at p s)) { run = true })
      else if ch == b'g'
      then put_memory (cb.gdb_rd_reg_cb s.cpu) s
      else if ch == b'G'
      then write_registers p s
      else if ch == b'm'
      then read_memory p s
      else if ch == b'M'
      then write_memory p s
      else if ch == b'Z'
      then ok (breakpoint set_insert p s)
      else if ch == b'z'
      then ok (breakpoint set_erase p s)
      else ok (put_packet [] s)

  -- A packet with no command is answered like one with an unknown command.
  unfoldable pub handle_packet : List ℕ → Server Cpu → Result (Server Cpu)
  handle_packet [] s = dispatch 0 [] s
  handle_packet (ch ∷ p) s = dispatch ch p s

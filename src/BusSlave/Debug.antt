-- ===== src/BusSlave/Debug.antt =====
-- What a debugger writes to a slave with memory, against what the bus and the debugger read.
use open_socemu.Base.{
  IsWordArray, update-IsWordArray, ℕ, false, leb, ◌&&◌, ◌⊎◌, ◌≤◌, zero, suc, ◌+◌, ◌*◌, ◌/◌, ◌%◌,
  ◌^◌, ◌<◌, ◌≡◌, refl, sym, ap, ◌∙◌, inl, inr, true, ◌==◌, ltb, ok, ==_iff, arith, Bool-cases,
  if◌then◌else◌,
}
use open_socemu.Base.Fields.{insert-lt, extract, extract-insert, extract-insert_apart}
use open_socemu.BusSlave.{
  BusSlave, read_command, write_command, get_byte, put_byte, put_bytes, count, slave_b_transport,
  slave_dbg_transport,
}
use open_socemu.BusSlave.Access.{IsAccess, read-IsAccess}

get_byte-put_byte :
    (a value : ℕ) (words : ℕ → ℕ) → get_byte (put_byte a value words) a ≡ value % 2 ^ 8
unfolding get_byte put_byte
get_byte-put_byte a value words =
    let here : (a / 4 == a / 4) ≡ true = ground arith in
    rw here (extract-insert (words (a / 4)) 8 (a % 4 * 8) value (omega arith))

get_byte-put_byte_apart :
    (a b value : ℕ) (words : ℕ → ℕ)
    → (a == b) ≡ false
    → get_byte (put_byte b value words) a ≡ get_byte words a
unfolding get_byte put_byte
get_byte-put_byte_apart a b value words apart = elim (Bool-cases (a / 4 == b / 4)) [
  | inr other ↦ rw other refl
  | inl word ↦
      (let same : a / 4 ≡ b / 4 = (==_iff _ _).0 word in
        let lanes : (a % 4 * 8 + 8 ≤ b % 4 * 8) ⊎ (b % 4 * 8 + 8 ≤ a % 4 * 8) =
          elim (Bool-cases (ltb a b)) [
            | inl below ↦ inl (ground arith)
            | inr above ↦ inr (ground arith)
          ] in
        rw word (
          extract-insert_apart (words (b / 4)) 8 (b % 4 * 8) value 8 (a % 4 * 8) (omega arith)
            (omega arith) lanes
          ∙ ap (λ i. extract (words i) 0xFF (a % 4 * 8)) (sym same)))
]

pub get_byte-put_bytes_apart :
    (n a b : ℕ) (bytes words : ℕ → ℕ)
    → (leb a b && ltb b (a + n)) ≡ false
    → get_byte (put_bytes n a bytes words) b ≡ get_byte words b
unfolding put_bytes
get_byte-put_bytes_apart zero a b bytes words apart = refl
get_byte-put_bytes_apart (suc n) a b bytes words apart =
    get_byte-put_byte_apart b (a + n) (bytes n) (put_bytes n a bytes words) (ground arith)
    ∙ get_byte-put_bytes_apart n a b bytes words (ground arith)

pub get_byte-put_bytes :
    (n a k : ℕ) (bytes words : ℕ → ℕ)
    → k < n
    → get_byte (put_bytes n a bytes words) (a + k) ≡ bytes k % 2 ^ 8
unfolding put_bytes
get_byte-put_bytes zero a k bytes words inside = absurd (omega arith)
get_byte-put_bytes (suc n) a k bytes words inside = elim (Bool-cases (k == n)) [
  | inl last ↦
      (let at : n ≡ k = sym ((==_iff _ _).0 last) in
        rw at (get_byte-put_byte (a + k) (bytes k) (put_bytes k a bytes words)))
  | inr before ↦
      get_byte-put_byte_apart (a + k) (a + n) (bytes n) (put_bytes n a bytes words) (ground arith)
      ∙ get_byte-put_bytes n a k bytes words (ground arith)
]

pub put_bytes-IsWordArray :
    (n a : ℕ) (bytes words : ℕ → ℕ) → IsWordArray words → IsWordArray (put_bytes n a bytes words)
unfolding put_bytes put_byte
put_bytes-IsWordArray zero a bytes words w = w
put_bytes-IsWordArray (suc n) a bytes words w =
    let rest = put_bytes-IsWordArray n a bytes words w in
    update-IsWordArray _ ((a + n) / 4) _ rest
      (insert-lt _ 0xFF ((a + n) % 4 * 8) (bytes n) (rest ((a + n) / 4)))

-- A debug write of a number of bytes is accepted when one of them, below 256, falls in a whole word
-- of the slave. That one is then read back by a debug read of the same length, which returns the same
-- count, and by a read of one byte on the bus.
pub slave_dbg_transport-write_read :
    (length addr k ptr : ℕ) (bytes old : ℕ → ℕ) (s : BusSlave)
    → k < length
    → (addr + k) / 4 < s.size / 4
    → bytes k < 2 ^ 8
    → (t : BusSlave) × (n : ℕ) × (seen : ℕ → ℕ) × (slave_dbg_transport write_command length addr
          bytes s
        ≡ ok (n, bytes, t))
      × (slave_dbg_transport read_command length addr old t ≡ ok (n, seen, t))
      × (k < n)
      × (seen k ≡ bytes k)
      × (slave_b_transport read_command 1 (addr + k) ptr t ≡ ok (bytes k, t))
unfolding slave_dbg_transport count get_byte
slave_dbg_transport-write_read length addr k ptr bytes old s inside room small =
    let n = count length addr s.size in
    let t : BusSlave = record s { words = put_bytes n addr bytes s.words } in
    let start : ltb addr s.size ≡ true = ground arith in
    let below : k < n = ground arith in
    let low : ltb k n ≡ true = ground arith in
    let copied : get_byte t.words (addr + k) ≡ bytes k =
      get_byte-put_bytes n addr k bytes s.words below ∙ omega arith in
    let byte : IsAccess 1 (addr + k) s.size = record {
      width = inl refl;
      bound = room;
      within = omega arith;
    } in
    (
      t,
      n,
      (λ j. if ltb j n then get_byte t.words (addr + j) else old j),
      rw start refl,
      rw start refl,
      below,
      rw low copied,
      read-IsAccess 1 (addr + k) ptr t byte ∙ ap (λ v. ok (v, t)) copied,
    )

-- ===== src/Gdb/Framing.antt =====
-- The packets that the server sends, read by its own decoder.
use mathlib.Core.List.{append-nil, append_assoc}
use open_socemu.Base.{
  ℕ, zero, suc, ◌+◌, ◌*◌, ◌/◌, ◌%◌, ◌<◌, ◌≤◌, ◌≡◌, refl, ap, ◌∙◌, Bool, true, false, ◌&&◌, List, [],
  ◌∷◌, ◌++◌, leb, ◌==◌, bit_or, ok, ◌>>=◌, bind-ok, arith, ==_iff, ◌≢◌, Bool-cases, inl, inr,
}
use open_socemu.Base.Lists.{length, length-append, All}
use open_socemu.Gdb.{
  Server, GdbCb, DecodeState, ds_idle, ds_getline, ds_chksum1, ds_chksum2, checksum, packet,
  put_buffer, tohex,
}
use open_socemu.Gdb.Hex.{fromhex}
use open_socemu.Gdb.Commands.{handle_packet, until_nul}
use open_socemu.Gdb.Decode.{read_byte, read_byte_in, read_bytes, get_line, begin_packet, end_packet}

-- No byte ends the packet early.
abbrev pub IsFramed : List ℕ → Type 0
IsFramed p = All (λ c. (c == b'#') ≡ false) p

all_below : ℕ → (ℕ → Bool) → Bool
all_below zero test = true
all_below (suc n) test = test n && all_below n test

all_below_sound :
    (n : ℕ) (test : ℕ → Bool) (x : ℕ) → all_below n test ≡ true → x < n → test x ≡ true
unfolding all_below
all_below_sound zero test x h lt = absurd (omega arith)
all_below_sound (suc n) test x h lt = ground (arith, all_below_sound n test x)

byte_table : all_below 256 (λ x. bit_or (x / 16 * 16) (x % 16) == x) ≡ true
unfolding all_below
byte_table = refl

pub bit_or-nibbles : (x : ℕ) → x < 256 → bit_or (x / 16 * 16) (x % 16) ≡ x
bit_or-nibbles x h = (==_iff _ x).0 (all_below_sound 256 _ x byte_table h)

pub fromhex-tohex : (v : ℕ) → v < 16 → fromhex (tohex v) ≡ v
fromhex-tohex v h = ground arith

-- The two digits of a checksum, as they are read back.
pub checksum_digits :
    (n : ℕ) → bit_or (fromhex (tohex (n / 16 % 16)) * 16) (fromhex (tohex (n % 16))) ≡ n % 256
checksum_digits n = rw (fromhex-tohex (n / 16 % 16) (omega arith)) (
    rw (fromhex-tohex (n % 16) (omega arith)) (
      ap (λ h. bit_or (h * 16) (n % 16)) {x = n / 16 % 16} {y = n % 256 / 16} (omega arith)
      ∙ ap (bit_or (n % 256 / 16 * 16)) {x = n % 16} {y = n % 256 % 16} (omega arith)
      ∙ bit_or-nibbles (n % 256) (omega arith)))

module _ {Cpu : Type 0} (cb : GdbCb Cpu) where
  abbrev receiving : List ℕ → Server Cpu → Server Cpu
  receiving line s = record s { line_buf = line; state = ds_getline }

  -- The bytes of a packet that fits are collected.
  read_bytes-receiving :
      (line p rest : List ℕ) (s : Server Cpu)
      → IsFramed p
      → length line + length p ≤ 4095
      → read_bytes cb (p ++ (b'#' ∷ rest)) (receiving line s)
        ≡ read_bytes cb rest (record s { line_buf = line ++ p; state = ds_chksum1 })
  unfolding read_bytes read_byte read_byte_in get_line
  read_bytes-receiving line [] rest s h fits = rw (append-nil line) refl
  read_bytes-receiving line (c ∷ p) rest s (hc, hp) fits =
      let room : leb 4095 (length line) ≡ false = ground arith in
      rw hc (
        rw room (
          read_bytes-receiving (line ++ c ∷ []) p rest s hp
            (rw (length-append line (c ∷ [])) (omega arith))
          ∙ ap (λ l. read_bytes cb rest (record s { line_buf = l; state = ds_chksum1 }))
              (append_assoc line (c ∷ []) p)))

  -- The state in which a packet is handled, after its answer.
  abbrev pub taken : List ℕ → Server Cpu → Server Cpu
  taken p s =
      put_buffer (b'+' ∷ [])
        (record s { line_buf = p; line_csum = checksum p % 256; state = ds_chksum2 })

  -- A packet made of any bytes but the one that ends it, of at most 4095 of them, is read by a decoder
  -- that is idle: a plus is answered, the bytes before the first zero are handled as a command, and
  -- the decoder is idle again.
  pub read_bytes-packet :
      (p : List ℕ) (s : Server Cpu)
      → IsFramed p
      → length p ≤ 4095
      → s.state ≡ ds_idle
      → read_bytes cb (packet p) s
        ≡ (handle_packet cb (until_nul p) (taken p s) >>= λ t. ok (record t { state = ds_idle }))
  unfolding read_bytes read_byte read_byte_in begin_packet packet end_packet
  read_bytes-packet p s framed fits idle =
      let same : (checksum p % 256 == checksum p % 256) ≡ true = ground arith in
      rw idle (
        read_bytes-receiving [] p _ s framed (omega arith)
        ∙ rw (checksum_digits (checksum p)) (rw same (bind-ok _)))

  put_buffer-state :
      (buf : List ℕ) (from to : DecodeState) (s : Server Cpu)
      → record (put_buffer buf (record s { state = from })) { state = to }
        ≡ put_buffer buf (record s { state = to })
  unfolding put_buffer
  put_buffer-state buf from to s = elim (Bool-cases s.connected) [
    | inl open_one ↦ rw open_one refl
    | inr none_open ↦ rw none_open refl
  ]

  -- A packet made of any bytes but the one that ends it, of at most 4095 of them, whose two digits are
  -- not their checksum, is read by a decoder that is idle: a minus is answered, no command is handled,
  -- and the decoder is idle again. Nothing else changes but what the decoder keeps of the packet.
  pub read_bytes-corrupted :
      (p : List ℕ) (d1 d2 : ℕ) (s : Server Cpu)
      → IsFramed p
      → length p ≤ 4095
      → s.state ≡ ds_idle
      → bit_or (fromhex d1 * 16) (fromhex d2) ≢ checksum p % 256
      → read_bytes cb (b'$' ∷ (p ++ (b'#' ∷ d1 ∷ d2 ∷ []))) s
        ≡ ok (
            put_buffer (b'-' ∷ []) (record s {
              state = ds_idle;
              line_buf = p;
              line_csum = bit_or (fromhex d1 * 16) (fromhex d2);
            }))
  unfolding read_bytes read_byte read_byte_in begin_packet end_packet
  read_bytes-corrupted p d1 d2 s framed fits idle wrong =
      let other : (bit_or (fromhex d1 * 16) (fromhex d2) == checksum p % 256) ≡ false =
        ground arith in
      rw idle (
        read_bytes-receiving [] p _ s framed (omega arith)
        ∙ rw other (
            ap ok (
              put_buffer-state (b'-' ∷ []) ds_chksum2 ds_idle
                (record s { line_buf = p; line_csum = bit_or (fromhex d1 * 16) (fromhex d2) }))))

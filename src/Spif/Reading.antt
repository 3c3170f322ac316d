-- ===== src/Spif/Reading.antt =====
-- A read of the serial flash: the command, then one access for each word.
use open_socemu.Base.{
  ℕ, zero, suc, ◌+◌, ◌*◌, ◌%◌, ◌^◌, ◌<◌, ◌≤◌, ◌≡◌, refl, ap, ◌∙◌, Bool, true, false, leb, List, [],
  ◌∷◌, bit_and, bit_set, update, raise_bit, drop_bit, Result, ok, arith, ◌>>=◌, shr, u32,
}
use open_socemu.Base.Masks.{bit_and_low}
use open_socemu.Spif.{
  Spif, check_int, receive, extra_bits, respond, respond_word, finish, thread_flash, start_access,
  write_switch, reg_wr, reg_rd, flash_word,
}
use open_socemu.Spif.Regs.{
  spif_tx_data_index, spif_rx_data_index, spif_clk_ctrl_index, spif_setup_index, spif_status_index,
}

-- The block with no access under way: opcode 0 waits for a command, opcode 3 reads on.
abbrev pub at_rest : ℕ → (ℕ → ℕ) → (ℕ → ℕ) → ℕ → ℕ → Bool → Spif
at_rest opcode reg contents size address irq = record {
  reg = reg;
  flash = record {
    size = size;
    contents = contents;
    active = false;
    opcode = opcode;
    event = false;
    curaddr = address;
  };
  interrupt = irq;
}

-- The command to read at an address: 32 clocks for the 32 bits sent.
unfoldable pub command : ℕ → Spif → Result Spif
command address s = do
  t ← reg_wr (4 * spif_tx_data_index) (3 * 2 ^ 24 + address) s
  u ← reg_wr (4 * spif_clk_ctrl_index) 0x1FA0 t
  thread_flash u

-- An access of 32 clocks with nothing sent, then the word received.
unfoldable pub access : Spif → Result Spif
access s = reg_wr (4 * spif_clk_ctrl_index) 0x1F80 s >>= thread_flash

unfoldable pub read_words : ℕ → Spif → Result (List ℕ)
read_words zero s = ok []
read_words (suc n) s = do
  t ← access s
  word ← reg_rd (4 * spif_rx_data_index) t
  rest ← read_words n t
  ok (word ∷ rest)

-- The word at an address, whose first byte is the highest, and the words from an address.
abbrev pub big_endian : (ℕ → ℕ) → ℕ → ℕ
big_endian contents a =
    contents a % 2 ^ 8 * 2 ^ 24
    + contents (a + 1) % 2 ^ 8 * 2 ^ 16
    + contents (a + 2) % 2 ^ 8 * 2 ^ 8
    + contents (a + 3) % 2 ^ 8

unfoldable pub words_from : (ℕ → ℕ) → ℕ → ℕ → List ℕ
words_from contents a zero = []
words_from contents a (suc n) = big_endian contents a ∷ words_from contents (a + 4) n

-- The registers after an access that received a word, and its interrupt.
abbrev reg_after : (ℕ → ℕ) → ℕ → ℕ → (ℕ → ℕ)
reg_after reg clk_ctrl word =
    update
      (update
        (update (update reg spif_clk_ctrl_index clk_ctrl) spif_status_index
          (drop_bit (reg spif_status_index) 0))
        spif_rx_data_index word)
      spif_status_index (raise_bit (drop_bit (reg spif_status_index) 0) 0)

abbrev irq_after : (ℕ → ℕ) → Bool
irq_after reg = bit_set (raise_bit (drop_bit (reg spif_status_index) 0) 0) 0

shr_zero : (x : ℕ) → shr x 0 ≡ x
shr_zero x = omega arith

module _ (contents : ℕ → ℕ) (size : ℕ) (word : size < 2 ^ 32) where
  access-at_rest :
      (reg : ℕ → ℕ) (a : ℕ) (irq : Bool)
      → bit_and (reg spif_setup_index) 3 ≡ 2
      → a + 4 ≤ size
      → access (at_rest 3 reg contents size a irq)
        ≡ ok (
            at_rest 3
              (reg_after reg 0x1F00 (shr (big_endian contents a) 0))
              contents
              size
              (a + 4)
              (irq_after reg))
  unfolding access reg_wr write_switch start_access check_int thread_flash respond respond_word
      finish flash_word
  access-at_rest reg a irq selected inside =
      let inside' : leb (a + 4) size ≡ true = ground arith in
      let small : (a + 4) % 2 ^ 32 ≡ a + 4 = omega arith in
      rw selected (rw inside' (rw selected (rw small refl)))

  read_words-words_from :
      (n : ℕ) (reg : ℕ → ℕ) (a : ℕ) (irq : Bool)
      → bit_and (reg spif_setup_index) 3 ≡ 2
      → a + 4 * n ≤ size
      → read_words n (at_rest 3 reg contents size a irq) ≡ ok (words_from contents a n)
  unfolding read_words words_from reg_rd
  read_words-words_from zero reg a irq selected inside = refl
  read_words-words_from (suc n) reg a irq selected inside =
      rw (access-at_rest reg a irq selected (omega arith)) (
        rw
          (read_words-words_from n (reg_after reg 0x1F00 (shr (big_endian contents a) 0)) (a + 4)
            (irq_after reg) selected (omega arith))
          (ap (λ w. ok (w ∷ words_from contents (a + 4) n)) (shr_zero (big_endian contents a))))

  command-at_rest :
      (reg : ℕ → ℕ) (address last : ℕ) (irq : Bool)
      → bit_and (reg spif_setup_index) 3 ≡ 2
      → address < 2 ^ 24
      → address % 4 ≡ 0
      → command address (at_rest 0 reg contents size last irq)
        ≡ ok (
            at_rest 3
              (reg_after (update reg spif_tx_data_index (3 * 2 ^ 24 + address)) 0x1F20 0)
              contents
              size
              address
              (irq_after reg))
  unfolding command reg_wr write_switch start_access check_int thread_flash receive extra_bits
      respond respond_word finish
  command-at_rest reg address last irq selected bounded aligned =
      let sent : bit_and (3 * 2 ^ 24 + address) 0x00FFFFFF ≡ address =
        bit_and_low 24 (3 * 2 ^ 24 + address) ∙ omega arith in
      let opcode : shr (3 * 2 ^ 24 + address) 24 % 2 ^ 8 ≡ 3 = omega arith in
      let low : bit_and address 3 ≡ 0 = bit_and_low 2 address ∙ aligned in
      let kept : u32 (address + 0) ≡ address = omega arith in
      rw selected (rw opcode (rw sent (rw low (rw selected (rw kept refl)))))

-- A command to read at an aligned address, sent to a selected flash that waits for one, and then an
-- access for each of n words inside the flash give exactly the words of the flash from that address
-- on, in order, the byte at the lower address the higher in each.
pub command-read_words :
    (contents : ℕ → ℕ) (size : ℕ) (reg : ℕ → ℕ) (address last : ℕ) (irq : Bool) (n : ℕ)
    → size < 2 ^ 32
    → bit_and (reg spif_setup_index) 3 ≡ 2
    → address < 2 ^ 24
    → address % 4 ≡ 0
    → address + 4 * n ≤ size
    → (command address (at_rest 0 reg contents size last irq) >>= read_words n)
      ≡ ok (words_from contents address n)
command-read_words contents size reg address last irq n word selected bounded aligned inside =
    rw (command-at_rest contents size word reg address last irq selected bounded aligned)
      (read_words-words_from contents size word n _ address _ selected inside)

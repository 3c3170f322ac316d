-- ===== src/Peripheral/Words.antt =====
-- Word accesses to a plain register file through its socket.
use open_socemu.Base.{
  ℕ, ◌*◌, ◌/◌, ◌^◌, ◌<◌, ◌≡◌, refl, ok, bit_and, ◌==◌, update, ltb, true, u32, arith, Result, ◌>>=◌,
  ◌∙◌, ◌≤◌, if◌then◌else◌,
}
use open_socemu.Base.Masks.{bit_and_low}
use open_socemu.Tlm.{Payload, IsReady, b_trans, b_wr_word, b_rd_word, word_sanity}
use open_socemu.Peripheral.{Registers, slave_b_transport, registers, reg_rd, reg_wr}

-- A master writes a word and reads one; the result is the word read.
unfoldable pub write_read {ℓ} :
    {S : Type ℓ} → Registers S → Payload → ℕ → ℕ → ℕ → ℕ → S → Result (ℕ × S)
write_read r t addr value addr' old s = do
  (t', s') ← b_wr_word (slave_b_transport r) t addr value s
  (t'', s'') ← b_rd_word (slave_b_transport r) t' addr' old s'
  ok (t''.data_word, s'')

-- In a register file of n registers, n at most 2 ^ 30, a master with its defaults that writes a word
-- to the register i and reads the register j succeeds: it reads the word when j is i, and else what
-- the register j held, and the register i alone has changed.
pub registers-write_read :
    (n i j value old : ℕ) (t : Payload) (reg : ℕ → ℕ)
    → IsReady t
    → i < n
    → j < n
    → n ≤ 2 ^ 30
    → write_read (registers n) t (4 * i) value (4 * j) old reg
      ≡ ok (if j == i then value else reg j, update reg i value)
unfolding write_read b_wr_word b_rd_word b_trans word_sanity slave_b_transport registers reg_rd
    reg_wr
registers-write_read n i j value old t reg ready hi hj hn =
    rw
      (
        ready.width,
        ready.no_mask,
        aligned i,
        aligned j,
        word i hi,
        word j hj,
        index i,
        index j,
        inside i hi,
        inside j hj,
      )
      refl
  where
    aligned : (k : ℕ) → bit_and (4 * k) 3 ≡ 0
    aligned k = bit_and_low 2 (4 * k) ∙ omega arith

    index : (k : ℕ) → 4 * k / 4 ≡ k
    index k = omega arith

    word : (k : ℕ) → k < n → u32 (4 * k) ≡ 4 * k
    word k h = omega (arith, hn)

    inside : (k : ℕ) → k < n → ltb k n ≡ true
    inside k h = ground arith

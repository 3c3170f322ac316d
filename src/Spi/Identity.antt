-- ===== src/Spi/Identity.antt =====
-- The identity that the Spi reads, against the one that the Spif reads.
use open_socemu.Base.{
  ℕ, ◌+◌, ◌-◌, ◌^◌, ◌%◌, ◌<◌, ◌≤◌, ◌≡◌, refl, true, false, ◌==◌, ltb, leb, some, shr, arith, ◌>>=◌,
  Bool-cases, inl, inr, sym,
}
use open_socemu.Spi.{
  Spi, places, identity, thread_flash, check_int, reg_rd, sck_count, data_length, is_read_id,
}
use open_socemu.Spi.Regs.{spi_tx_data_index}
use open_socemu.Spif.{Spif, receive, extra_bits, respond, respond_id, finish}

abbrev ended : Spi → Spi
ended s = record s { active = false; event = false }

-- Fewer clocks than bits sent: a shift by more than 31 places.
few_clocks :
    (s : Spi)
    → ltb (sck_count s + 1) (data_length s) ≡ true
    → (k : ℕ) × (places (ended s) ≡ some k) × (ltb k 32 ≡ false)
unfolding places
few_clocks s few = (31 + data_length s - sck_count s, ground arith, ground arith)

-- As many clocks as bits sent, or more: the places left beside the bits of the answer.
more_clocks :
    (s : Spi)
    → ltb (sck_count s + 1) (data_length s) ≡ false
    → sck_count s + 1 ≤ data_length s + 32
    → (n : ℕ) × (n ≡ sck_count s + 1 - data_length s)
      × (places (ended s) ≡ some (32 - n))
      × (ltb (32 - n) 32 ≡ ltb 0 n)
      × (leb n 32 ≡ true)
unfolding places
more_clocks s more short =
    (sck_count s + 1 - data_length s, refl, grind arith, ground arith, ground arith)

-- With the same registers, a READ ID of at most 32 clocks after the bits sent, which finds the Spif
-- waiting for a command, leaves the same to read at every offset in both blocks, or ends both in the
-- same way.
pub thread_flash-same :
    (s : Spi) (t : Spif) (offset : ℕ)
    → t.reg ≡ s.reg
    → t.flash.opcode ≡ 0
    → s.reg spi_tx_data_index < 2 ^ 32
    → is_read_id (shr (s.reg spi_tx_data_index) 24) ≡ true
    → sck_count s + 1 ≤ data_length s + 32
    → (thread_flash s >>= reg_rd offset)
      ≡ (open_socemu.Spif.thread_flash t >>= open_socemu.Spif.reg_rd offset)
unfolding thread_flash reg_rd identity extra_bits respond_id open_socemu.Spif.thread_flash
    open_socemu.Spif.reg_rd receive respond finish check_int open_socemu.Spif.check_int
thread_flash-same s t offset same fresh bounded read_id short =
    let byte : shr (s.reg spi_tx_data_index) 24 % 2 ^ 8 ≡ shr (s.reg spi_tx_data_index) 24 =
      omega arith in
    rw read_id (
      rw fresh (
        rw same (
          rw byte (
            rw read_id (elim (Bool-cases (data_length s == 32)) [
              | inr wrong ↦ rw wrong refl
              | inl right ↦ rw right (
                  rw read_id (elim (Bool-cases (ltb (sck_count s + 1) (data_length s))) [
                    | inl few ↦
                        let (k, shifted, far) = few_clocks s few in
                        rw few (rw shifted (rw far refl))
                    | inr more ↦
                        let (n, count, shifted, edge, fits) = more_clocks s more short in
                        rw more (
                          rw (sym count) (
                            rw shifted (
                              rw edge (
                                rw fits (elim (Bool-cases (ltb 0 n)) [
                                  | inl answered ↦ rw answered refl
                                  | inr none_left ↦ rw none_left refl
                                ])))))
                  ]))
            ])))))

-- ===== src/Peripheral/Plain.antt =====
-- The blocks that are register files and no more: Gpio and Reserved of src/tlm_blocks/Mc13224v, and
-- Pl061 of src/tlm_blocks/Arm/PrimeCells/Pl061/Pl061.h. Each overrides both methods.
use open_socemu.Base.{ℕ, ◌/◌, ◌≡◌, refl, update, ltb, Result, ok, assertion, check, ◌>>◌}
use open_socemu.Peripheral.{Registers, reg_rd, reg_wr, registers}

abbrev reg_gpio_count : ℕ
reg_gpio_count = 26

abbrev reg_reserved_count : ℕ
reg_reserved_count = 9

abbrev reg_pl061_count : ℕ
reg_pl061_count = 1024

unfoldable gpio_rd : ℕ → (ℕ → ℕ) → Result (ℕ × (ℕ → ℕ))
gpio_rd offset reg = do
  let index = offset / 4
  check (ltb index reg_gpio_count) assertion
  let result = reg index
  ok (result, reg)

unfoldable gpio_wr : ℕ → ℕ → (ℕ → ℕ) → Result (ℕ → ℕ)
gpio_wr offset value reg = do
  let index = offset / 4
  check (ltb index reg_gpio_count) assertion
  ok (update reg index value)

unfoldable gpio_registers : Registers (ℕ → ℕ)
gpio_registers = record { reg_rd = gpio_rd; reg_wr = gpio_wr }

unfoldable reserved_rd : ℕ → (ℕ → ℕ) → Result (ℕ × (ℕ → ℕ))
reserved_rd offset reg = do
  let index = offset / 4
  check (ltb index reg_reserved_count) assertion
  let result = reg index
  ok (result, reg)

unfoldable reserved_wr : ℕ → ℕ → (ℕ → ℕ) → Result (ℕ → ℕ)
reserved_wr offset value reg = do
  let index = offset / 4
  check (ltb index reg_reserved_count) assertion
  ok (update reg index value)

unfoldable reserved_registers : Registers (ℕ → ℕ)
reserved_registers = record { reg_rd = reserved_rd; reg_wr = reserved_wr }

unfoldable pl061_rd : ℕ → (ℕ → ℕ) → Result (ℕ × (ℕ → ℕ))
pl061_rd offset reg = do
  let index = offset / 4
  check (ltb index reg_pl061_count) assertion
  let result = reg index
  ok (result, reg)

unfoldable pl061_wr : ℕ → ℕ → (ℕ → ℕ) → Result (ℕ → ℕ)
pl061_wr offset value reg = do
  let index = offset / 4
  check (ltb index reg_pl061_count) assertion
  ok (update reg index value)

unfoldable pl061_registers : Registers (ℕ → ℕ)
pl061_registers = record { reg_rd = pl061_rd; reg_wr = pl061_wr }

-- The overrides of the three blocks are the methods of the template at their counts.
plain-registers :
    (gpio_registers ≡ registers reg_gpio_count)
    × (reserved_registers ≡ registers reg_reserved_count)
    × (pl061_registers ≡ registers reg_pl061_count)
unfolding gpio_registers reserved_registers pl061_registers registers reg_rd reg_wr gpio_rd gpio_wr
    reserved_rd reserved_wr pl061_rd pl061_wr
plain-registers = (refl, refl, refl)

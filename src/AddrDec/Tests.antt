-- ===== src/AddrDec/Tests.antt =====
-- Runs of the address decoder, and its theorems at a concrete memory map.
use open_socemu.Base.{
  ℕ, ltb, if◌then◌else◌, ◌+◌, ◌-◌, ◌^◌, ◌≡◌, refl, true, false, none, some, List, [], ◌∷◌, ok,
  fault, assertion, arith,
}
use open_socemu.AddrDec.{
  Range, AddrDec, new, overlaps, any_overlap, check_range, bind, unlink, find_range,
  slave_b_transport, Piece,
}
use open_socemu.AddrDec.Forward.{Reach, start, bound, IsMapped, Reach-IsMapped, forward-accessed}
use open_socemu.AddrDec.{
  slave_dbg_transport, dbg_loop, next_piece, serve_piece, find_next_closest_range, closest_loop,
  forwarded, filled, slave_get_direct_mem_ptr, granted, bus_m_invalidate_direct_mem_ptr,
}
use open_socemu.AddrDec.Debug.{IsTiled, slave_dbg_transport-IsTiled}

abbrev ram : Range
ram = record { start = 0x1000; stop = 0x2000; target = 7 }

abbrev uart : Range
uart = record { start = 0x4000; stop = 0x4020; target = 3 }

abbrev wide : ℕ
wide = 2 ^ 64 - 1

abbrev one_slave : AddrDec
one_slave = record { head = ram ∷ []; mask = wide; num_slaves = 1 }

abbrev two_slaves : AddrDec
two_slaves = record { head = uart ∷ ram ∷ []; mask = wide; num_slaves = 2 }

binds_ram : bind 7 0x1000 0x2000 (new wide) ≡ ok (false, one_slave)
unfolding bind check_range any_overlap new
binds_ram = refl

binds_uart : bind 3 0x4000 0x4020 one_slave ≡ ok (false, two_slaves)
unfolding bind check_range any_overlap overlaps
binds_uart = refl

refusals :
    (bind 9 0x1800 0x3000 two_slaves ≡ ok (true, two_slaves))
    × (bind 9 0x1802 0x3000 two_slaves ≡ fault assertion)
    × (slave_b_transport 0x1010 two_slaves
        ≡ (some (7, 0x10), record { head = ram ∷ uart ∷ []; mask = wide; num_slaves = 2 }))
    × (slave_b_transport 0x9000 two_slaves ≡ (none, two_slaves))
unfolding bind check_range any_overlap overlaps slave_b_transport find_range unlink
refusals = (refl, refl, refl, refl)

two_slaves-Reach : Reach wide two_slaves
two_slaves-Reach = bound 3 0x4000 0x4020 (bound 7 0x1000 0x2000 start binds_ram) binds_uart

Reach-IsMapped_example : IsMapped two_slaves
Reach-IsMapped_example = Reach-IsMapped two_slaves-Reach

forward-accessed_example :
    (slave_b_transport 0x4004 (slave_b_transport 0x1010 two_slaves).1).0
    ≡ (slave_b_transport 0x4004 two_slaves).0
forward-accessed_example = forward-accessed 0x4004 0x1010 two_slaves-Reach

abbrev whole_answers : ℕ → ℕ → ℕ → ℕ
whole_answers target inner n = n

hole_at : (find_range 0x3ff0 (uart ∷ [])).0 ≡ none
unfolding find_range unlink
hole_at = refl

abbrev debugged : AddrDec
debugged = record { head = ram ∷ uart ∷ []; mask = wide; num_slaves = 2 }

-- A run over both ranges and beyond, where the targets answer at most 8 bytes.
abbrev eight_answers : ℕ → ℕ → ℕ → ℕ
eight_answers target inner n = if ltb n 8 then n else 8

pieces_run :
    (slave_dbg_transport eight_answers 0x1FF0 20 debugged
      ≡ some (forwarded 7 0xFF0 8 ∷ forwarded 7 0xFF8 8 ∷ filled 4 ∷ [], debugged))
unfolding slave_dbg_transport dbg_loop next_piece serve_piece find_next_closest_range closest_loop
    find_range unlink
pieces_run = refl

slave_dbg_transport-IsTiled_example :
    (pieces : List Piece) × (last : List Range) × (slave_dbg_transport whole_answers 0x4000 16
        debugged
      ≡ some (pieces, record debugged { head = last }))
    × IsTiled debugged.head 0x4000 16 pieces
slave_dbg_transport-IsTiled_example =
    slave_dbg_transport-IsTiled whole_answers (λ target inner n pos. (pos, omega arith)) 0x4000 16
      debugged (omega arith)

direct_runs :
    (slave_get_direct_mem_ptr (λ target inner. (true, inner, inner + 3)) 0x1010 (0, 0) two_slaves
      ≡ (true, (0x1010, 0x1013), debugged))
    × (slave_get_direct_mem_ptr (λ target inner. (true, 0, 1)) 0x9000 (5, 6) two_slaves
        ≡ (false, (5, 6), two_slaves))
    × (bus_m_invalidate_direct_mem_ptr ram 0 0x10 ≡ (0x1000, 0x1010))
unfolding slave_get_direct_mem_ptr granted find_range unlink bus_m_invalidate_direct_mem_ptr
direct_runs = (refl, refl, refl)

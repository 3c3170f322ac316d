-- ===== src/AddrDec.antt =====
-- The address decoder of src/tlm_blocks/Generic/AddrDec/AddrDec.h.
-- The chained list from `m_head` is a list; the socket of a range is its target's number. What
-- a target does with a forwarded transaction is not the decoder's, except the count of bytes
-- that its debug transport returns, which is an argument.
pub mod Order
pub mod Found
pub mod Forward
pub mod Debug
mod Tests
use open_socemu.Base.{
  ℕ, zero, suc, ◌+◌, ◌-◌, ◌%◌, ◌^◌, Bool, true, false, not, ◌&&◌, ◌||◌, Option, none, some, List,
  [], ◌∷◌, bit_and, ltb, leb, ◌==◌, if◌then◌else◌, Result, fault, ok, assertion, check, ◌>>=◌, ◌>>◌,
  sub32,
}

pub record Range : Type 0 where
  pub start : ℕ
  pub stop : ℕ
  pub target : ℕ

pub record AddrDec : Type 0 where
  pub head : List Range
  pub mask : ℕ
  pub num_slaves : ℕ

unfoldable pub new : ℕ → AddrDec
new mask = record { head = []; mask = mask; num_slaves = 0 }

-- The test of the loop of `check_range`, for one range.
unfoldable pub overlaps : ℕ → ℕ → Range → Bool
overlaps start stop rover =
    if ltb start rover.start then ltb rover.start stop else ltb start rover.stop

unfoldable pub any_overlap : ℕ → ℕ → List Range → Bool
any_overlap start stop [] = false
any_overlap start stop (rover ∷ rest) = overlaps start stop rover || any_overlap start stop rest

-- True is an error.
unfoldable pub check_range : ℕ → ℕ → AddrDec → Result Bool
check_range start stop s = do
  check (bit_and start 3 == 0) assertion
  check (bit_and stop 3 == 0) assertion
  check (ltb start stop) assertion
  check (bit_and start (2 ^ 64 - 1 - s.mask) == 0) assertion
  check (bit_and stop (2 ^ 64 - 1 - s.mask) == 0) assertion
  ok (any_overlap start stop s.head)

unfoldable pub bind : ℕ → ℕ → ℕ → AddrDec → Result (Bool × AddrDec)
bind target start stop s = do
  conflict ← check_range start stop s
  if conflict
      then ok (true, s)
      else ok (
        false,
        record s {
          head = record { start = start; stop = stop; target = target } ∷ s.head;
          num_slaves = s.num_slaves + 1;
        },
      )

abbrev pub within : ℕ → Range → Bool
within address r = leb r.start address && ltb address r.stop

-- The range that an address belongs to, and the chain without it.
unfoldable pub unlink : ℕ → List Range → Option (Range × List Range)
unlink address [] = none
unlink address (rover ∷ rest) =
    let later : Option (Range × List Range) = elim (unlink address rest) [
      | none ↦ none
      | some (found, others) ↦ some (found, rover ∷ others)
    ] in
    if within address rover then some (rover, rest) else later

-- The range found is moved to the head of the chain.
unfoldable pub find_range : ℕ → List Range → Option Range × List Range
find_range address chain = elim (unlink address chain) [
  | none ↦ (none, chain)
  | some (found, others) ↦ (some found, found ∷ others)
]

-- The loop of `find_next_closest_range`, with the closest range so far.
unfoldable pub closest_loop : ℕ → Option Range → List Range → Option Range
closest_loop address closest [] = closest
closest_loop address closest (rover ∷ rest) =
    closest_loop address
      (if ltb address rover.start
        then (elim closest [
          | none ↦ none
          | some c ↦ if ltb (rover.start - address) (c.start - address) then some rover else some c
        ])
        else closest)
      rest

unfoldable pub find_next_closest_range : ℕ → List Range → Option Range
find_next_closest_range address chain = closest_loop address none chain

-- What the blocking transport forwards: the target and the address in it; none is
-- TLM_ADDRESS_ERROR_RESPONSE. The subtraction is on 64 bits.
unfoldable pub slave_b_transport : ℕ → AddrDec → Option (ℕ × ℕ) × AddrDec
slave_b_transport address s =
    let (found, chain) = find_range (bit_and address s.mask) s.head in
    (
      elim found [ none ↦ none | some r ↦ some (r.target, (address + 2 ^ 64 - r.start) % 2 ^ 64) ],
      record s { head = chain },
    )

-- The window of a range found, by what its target answers for the address in it: the status, and the
-- first and the last address. Without a range the window is left alone.
unfoldable pub granted : (ℕ → ℕ → Bool × ℕ × ℕ) → ℕ → ℕ × ℕ → Option Range → Bool × (ℕ × ℕ)
granted targets address window none = (false, window)
granted targets address window (some r) =
    let (status, first, last) = targets r.target ((address + 2 ^ 64 - r.start) % 2 ^ 64) in
    (status, ((r.start + first) % 2 ^ 64, (r.start + last) % 2 ^ 64))

unfoldable pub slave_get_direct_mem_ptr :
    (ℕ → ℕ → Bool × ℕ × ℕ) → ℕ → ℕ × ℕ → AddrDec → Bool × (ℕ × ℕ) × AddrDec
slave_get_direct_mem_ptr targets address window s =
    let (found, chain) = find_range (bit_and address s.mask) s.head in
    let (status, window') = granted targets address window found in
    (status, window', record s { head = chain })

-- The window that is passed back to the initiator, for the range whose target withdraws its own.
unfoldable pub bus_m_invalidate_direct_mem_ptr : Range → ℕ → ℕ → ℕ × ℕ
bus_m_invalidate_direct_mem_ptr r start_range end_range =
    ((r.start + start_range) % 2 ^ 64, (r.start + end_range) % 2 ^ 64)

-- A piece of a debug access: forwarded to a target, or filled with 0xFF.
pub data Piece : Type 0 where
  forwarded : ℕ → ℕ → ℕ → Piece
  filled : ℕ → Piece

-- How the piece at an address is served, with the range that holds the address if there is one,
-- and what its target's debug transport returns for an inner address and a length.
unfoldable pub serve_piece :
    (ℕ → ℕ → ℕ → ℕ) → ℕ → ℕ → Option Range → List Range → Piece × ℕ × List Range
serve_piece transport_dbg addr len (some r) chain =
    let read_len = transport_dbg r.target (addr - r.start) len in
    (forwarded r.target (addr - r.start) read_len, read_len, chain)
serve_piece transport_dbg addr len none chain =
    let read_len : ℕ = elim (find_next_closest_range addr chain) [
      | none ↦ len
      | some c ↦ if ltb len (c.start - addr) then len else c.start - addr
    ] in
    (filled read_len, read_len, chain)

unfoldable pub next_piece : (ℕ → ℕ → ℕ → ℕ) → ℕ → ℕ → List Range → Piece × ℕ × List Range
next_piece transport_dbg addr len chain =
    let (found, chain') = find_range addr chain in serve_piece transport_dbg addr len found chain'

-- The loop of `slave_dbg_transport`: the pieces in order, or none when the fuel runs out. The
-- length is a `uint32_t`.
unfoldable pub dbg_loop :
    (ℕ → ℕ → ℕ → ℕ) → ℕ → ℕ → ℕ → List Range → Option (List Piece × List Range)
dbg_loop transport_dbg zero addr len chain = none
dbg_loop transport_dbg (suc fuel) addr len chain =
    let (piece, read_len, chain') = next_piece transport_dbg addr len chain in
    let rest : Option (List Piece × List Range) =
      dbg_loop transport_dbg fuel ((addr + read_len) % 2 ^ 64) (sub32 len read_len) chain' in
    if len == 0
    then some ([], chain)
    else elim rest [ none ↦ none | some (pieces, last) ↦ some (piece ∷ pieces, last) ]

-- The debug transport of the decoder, with enough fuel for its loop: its pieces and the state
-- after it. The count that it returns is the length.
unfoldable pub slave_dbg_transport :
    (ℕ → ℕ → ℕ → ℕ) → ℕ → ℕ → AddrDec → Option (List Piece × AddrDec)
slave_dbg_transport transport_dbg init_addr init_len s =
    elim (dbg_loop transport_dbg (init_len + 1) (bit_and init_addr s.mask) init_len s.head) [
      | none ↦ none
      | some (pieces, last) ↦ some (pieces, record s { head = last })
    ]

-- ===== src/AddrDec/Debug.antt =====
-- The debug transport of the address decoder: its loop, and the bytes that it fills.
use open_socemu.Base.{
  ℕ, zero, suc, ◌+◌, ◌-◌, ◌%◌, ◌^◌, ◌<◌, ◌≤◌, ◌≡◌, refl, sym, subst, inl, inr, none, some, List, [],
  ◌∷◌, ltb, ◌==◌, arith, Bool-cases, sub32, bit_and, true, false, Option-cases,
}
use open_socemu.AddrDec.Order.{In}
use open_socemu.AddrDec.Found.{find_range-none, find_range-some, searched-In, In-searched}
use open_socemu.AddrDec.{
  within, Range, find_range, closest_loop, find_next_closest_range, Piece, forwarded, filled,
  serve_piece, next_piece, dbg_loop, AddrDec, slave_dbg_transport,
}

closest_loop-none : (address : ℕ) (chain : List Range) → closest_loop address none chain ≡ none
unfolding closest_loop
closest_loop-none address [] = refl
closest_loop-none address (r ∷ rs) = elim (Bool-cases (ltb address r.start)) [
  | inl above ↦ rw above (closest_loop-none address rs)
  | inr below ↦ rw below (closest_loop-none address rs)
]

serve_piece_hole :
    (transport_dbg : ℕ → ℕ → ℕ → ℕ) (addr len : ℕ) (chain : List Range)
    → serve_piece transport_dbg addr len none chain ≡ (filled len, len, chain)
unfolding serve_piece find_next_closest_range
serve_piece_hole transport_dbg addr len chain = rw (closest_loop-none addr chain) refl

-- Where no range holds the address of a debug access, `find_next_closest_range` returns NULL, and
-- all that is left of the access is filled, whatever ranges the chain holds.
pub next_piece_hole :
    (transport_dbg : ℕ → ℕ → ℕ → ℕ) (addr len : ℕ) (chain : List Range)
    → (find_range addr chain).0 ≡ none
    → (find_next_closest_range addr (find_range addr chain).1 ≡ none)
      × (next_piece transport_dbg addr len chain ≡ (filled len, len, (find_range addr chain).1))
unfolding next_piece find_next_closest_range
next_piece_hole transport_dbg addr len chain hole = (
  closest_loop-none addr (find_range addr chain).1,
  rw hole (serve_piece_hole transport_dbg addr len (find_range addr chain).1),
)

abbrev pub piece_length : Piece → ℕ
piece_length (forwarded target inner len) = len
piece_length (filled len) = len

-- Two chains of the same ranges.
abbrev SameRanges : List Range → List Range → Type 0
SameRanges chain chain' =
    ((r : Range) → In r chain' → In r chain) × ((r : Range) → In r chain → In r chain')

-- Where a piece that starts at an address belongs: to a range of the chain that holds the address, at
-- the offset in it, or to no range.
abbrev pub IsPlaced : List Range → ℕ → Piece → Type 0
IsPlaced chain addr (forwarded target inner n) =
    (r : Range) × In r chain
    × (within addr r ≡ true)
    × (target ≡ r.target)
    × (r.start + inner ≡ addr)
IsPlaced chain addr (filled n) = (r : Range) → In r chain → within addr r ≡ false

-- The pieces make up len bytes from the address on: each belongs where it starts, and the next one
-- starts at its end.
abbrev pub IsTiled : List Range → ℕ → ℕ → List Piece → Type 0
IsTiled chain addr len [] = len ≡ 0
IsTiled chain addr len (p ∷ ps) =
    IsPlaced chain addr p
    × (0 < piece_length p)
    × (piece_length p ≤ len)
    × IsTiled chain ((addr + piece_length p) % 2 ^ 64) (len - piece_length p) ps

-- What a target may answer to a debug access.
abbrev pub IsAnswering : (ℕ → ℕ → ℕ → ℕ) → Type 0
IsAnswering transport_dbg =
    (target inner n : ℕ)
    → 0 < n
    → (0 < transport_dbg target inner n) × (transport_dbg target inner n ≤ n)

-- How a piece of an access of len bytes and the count it is given agree.
abbrev IsNext : List Range → ℕ → ℕ → Piece × ℕ × List Range → Type 0
IsNext chain addr len (piece, read_len, chain') =
    (piece_length piece ≡ read_len)
    × (0 < read_len)
    × (read_len ≤ len)
    × IsPlaced chain addr piece
    × SameRanges chain chain'

next_piece-IsNext :
    (transport_dbg : ℕ → ℕ → ℕ → ℕ) (addr len : ℕ) (chain : List Range)
    → IsAnswering transport_dbg
    → 0 < len
    → IsNext chain addr len (next_piece transport_dbg addr len chain)
unfolding next_piece serve_piece
next_piece-IsNext transport_dbg addr len chain answers pos =
    let same : SameRanges chain (find_range addr chain).1 =
      (λ r i. searched-In addr chain r i, λ r i. In-searched addr chain r i) in
    elim (Option-cases (find_range addr chain).0) [
      | inl nothing ↦
          (let whole : IsNext chain addr len (filled len, len, (find_range addr chain).1) =
              (refl, pos, omega arith, find_range-none addr chain nothing, same) in
            rw nothing (
              subst (IsNext chain addr len)
                (sym (serve_piece_hole transport_dbg addr len (find_range addr chain).1)) whole))
      | inr (r, found) ↦
          (let (i, hit) = find_range-some addr chain r found in
            let (some_bytes, fits) = answers r.target (addr - r.start) len pos in
            rw found (refl, some_bytes, fits, (r, i, hit, refl, ground arith), same))
    ]

IsPlaced-same :
    (chain chain' : List Range) (addr : ℕ) (p : Piece)
    → SameRanges chain chain'
    → IsPlaced chain' addr p
    → IsPlaced chain addr p
IsPlaced-same chain chain' addr (forwarded target inner n) same (r, i, hit, to, at) =
    (r, same.0 r i, hit, to, at)
IsPlaced-same chain chain' addr (filled n) same h = λ r i. h r (same.1 r i)

IsTiled-same :
    (chain chain' : List Range) (addr len : ℕ) (ps : List Piece)
    → SameRanges chain chain'
    → IsTiled chain' addr len ps
    → IsTiled chain addr len ps
IsTiled-same chain chain' addr len [] same h = h
IsTiled-same chain chain' addr len (p ∷ ps) same (placed, pos, fits, rest) = (
  IsPlaced-same chain chain' addr p same placed,
  pos,
  fits,
  IsTiled-same chain chain' ((addr + piece_length p) % 2 ^ 64) (len - piece_length p) ps same rest,
)

dbg_loop-IsTiled :
    (transport_dbg : ℕ → ℕ → ℕ → ℕ)
    → IsAnswering transport_dbg
    → (fuel addr len : ℕ) (chain : List Range) → len < fuel
    → len < 2 ^ 32
    → (pieces : List Piece) × (last : List Range) × (dbg_loop transport_dbg fuel addr len chain
        ≡ some (pieces, last))
      × IsTiled chain addr len pieces
unfolding dbg_loop
dbg_loop-IsTiled dbg answers zero addr len chain enough word = absurd (omega arith)
dbg_loop-IsTiled dbg answers (suc fuel) addr len chain enough word = elim (Bool-cases (len == 0)) [
  | inl done ↦ ([], chain, rw done refl, ground arith)
  | inr more ↦
      (let (piece, read_len, chain') = next_piece dbg addr len chain in
        let (sized, pos, fits, placed, same) =
          next_piece-IsNext dbg addr len chain answers (ground arith) in
        let left : sub32 len read_len ≡ len - read_len = omega arith in
        let (pieces, last, runs, tiled) =
          dbg_loop-IsTiled dbg answers fuel ((addr + read_len) % 2 ^ 64) (sub32 len read_len) chain'
            (omega arith) (omega arith) in
        let after =
          IsTiled-same chain chain' ((addr + read_len) % 2 ^ 64) (len - read_len) pieces same
            (subst (λ k. IsTiled chain' ((addr + read_len) % 2 ^ 64) k pieces) left tiled) in
        (
          piece ∷ pieces,
          last,
          rw (more, runs) refl,
          (
            placed,
            omega arith,
            omega arith,
            subst (λ k. IsTiled chain ((addr + k) % 2 ^ 64) (len - k) pieces) (sym sized) after,
          ),
        ))
]

-- When every target answers a debug access of n bytes with a count from 1 to n, a debug access of
-- fewer than 2 ^ 32 bytes ends, and its pieces make up all its bytes in order, from the masked address
-- on: each piece is forwarded to the target of a range that holds the address at which the piece
-- starts, at the offset of that address in the range, or it is filled when no range holds that
-- address; and the next piece starts where it ends.
pub slave_dbg_transport-IsTiled :
    (transport_dbg : ℕ → ℕ → ℕ → ℕ)
    → IsAnswering transport_dbg
    → (init_addr init_len : ℕ) (s : AddrDec) → init_len < 2 ^ 32
    → (pieces : List Piece) × (last : List Range) × (slave_dbg_transport transport_dbg init_addr
          init_len s
        ≡ some (pieces, record s { head = last }))
      × IsTiled s.head (bit_and init_addr s.mask) init_len pieces
unfolding slave_dbg_transport
slave_dbg_transport-IsTiled dbg answers init_addr init_len s word =
    let (pieces, last, runs, tiled) =
      dbg_loop-IsTiled dbg answers (init_len + 1) (bit_and init_addr s.mask) init_len s.head
        (omega arith) word in
    (pieces, last, rw (runs, slave_dbg_transport) refl, tiled)

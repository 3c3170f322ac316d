-- ===== src/Gdb/Hex.antt =====
-- Bytes as hexadecimal digits, and back.
use open_socemu.Base.{
  ℕ, zero, suc, ◌+◌, ◌-◌, ◌*◌, ◌/◌, ◌%◌, ◌&&◌, List, [], ◌∷◌, bit_or, leb, if◌then◌else◌, Result,
  ok, fault, undefined, ◌>>=◌,
}
use open_socemu.Gdb.{tohex}

abbrev pub fromhex : ℕ → ℕ
fromhex v =
    if leb b'0' v && leb v b'9'
    then v - b'0'
    else if leb b'A' v && leb v b'F'
    then v - b'A' + 10
    else if leb b'a' v && leb v b'f'
    then v - b'a' + 10
    else 0

unfoldable pub memtohex : List ℕ → List ℕ
memtohex [] = []
memtohex (c ∷ mem) = tohex (c / 16) ∷ tohex (c % 16) ∷ memtohex mem

-- The bytes of the first digits, two to a byte. Behind the end of the packet the
-- source reads the zero that ends the text and what earlier packets left in the buffer: no value here.
unfoldable pub hextomem : List ℕ → ℕ → Result (List ℕ)
hextomem buf zero = ok []
hextomem (h ∷ l ∷ buf) (suc len) = do
  mem ← hextomem buf len
  ok (bit_or (fromhex h * 16) (fromhex l) ∷ mem)
hextomem buf (suc len) = fault undefined

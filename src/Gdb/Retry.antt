-- ===== src/Gdb/Retry.antt =====
-- The answers to a packet that the server sends.
use mathlib.Core.List.{append-nil, append_assoc}
use open_socemu.Base.{
  ℕ, zero, suc, ◌<◌, ◌≡◌, refl, ap, ◌∙◌, true, false, List, [], ◌∷◌, ◌++◌, leb, ◌==◌, arith,
}
use open_socemu.Base.Lists.{length, All}
use open_socemu.Gdb.{Server, Arrival, byte, packet, await_ack, put_packet}

-- Answers that ask for the packet again: ASCII, and no plus.
abbrev pub AsksAgain : List ℕ → Type 0
AsksAgain refusals = All (λ c. (c < 128) × ((c == b'+') ≡ false)) refusals

-- The answers, and after them a plus and what follows it.
unfoldable pub answers : List ℕ → List Arrival → List Arrival
answers [] rest = byte b'+' ∷ rest
answers (c ∷ refusals) rest = byte c ∷ answers refusals rest

unfoldable pub copies : ℕ → List ℕ → List ℕ
copies zero buf = []
copies (suc n) buf = buf ++ copies n buf

await_ack-answers :
    (again refusals : List ℕ) (rest : List Arrival) (sent : List ℕ)
    → AsksAgain refusals
    → await_ack again (answers refusals rest) sent ≡ (rest, sent ++ copies (length refusals) again)
unfolding await_ack answers copies
await_ack-answers again [] rest sent h = rw (append-nil sent) refl
await_ack-answers again (c ∷ refusals) rest sent ((ascii, other), h) =
    let low : leb 128 c ≡ false = ground arith in
    rw low (
      rw other (
        await_ack-answers again refusals rest (sent ++ again) h
        ∙ ap (λ l. (rest, l)) (append_assoc sent again (copies (length refusals) again))))

-- A packet is sent once, and once more for each ASCII byte that comes back before a plus. The answers
-- are taken, and what follows the plus is left.
pub put_packet-answers :
    {Cpu : Type 0} (buf refusals : List ℕ) (rest : List Arrival) (s : Server Cpu)
    → s.connected ≡ true
    → AsksAgain refusals
    → put_packet buf (record s { arrivals = answers refusals rest })
      ≡ record s { arrivals = rest; sent = s.sent ++ copies (suc (length refusals)) (packet buf) }
unfolding put_packet copies
put_packet-answers buf refusals rest s here h = rw here (
    rw (await_ack-answers (packet buf) refusals rest (s.sent ++ packet buf) h)
      (rw (append_assoc s.sent (packet buf) (copies (length refusals) (packet buf))) refl))

-- ===== src/IntLine.antt =====
-- An interrupt line: IntMaster of src/tlm_blocks/Generic/IntMaster/IntMaster.h bound to IntSlave of
-- src/tlm_blocks/Generic/IntSlave/IntSlave.h.
use open_socemu.Base.{
  ℕ, Bool, true, false, ltb, ◌==◌, if◌then◌else◌, nonzero, Result, ok, assertion, check, ◌>>=◌,
  ◌>>◌,
}
use open_socemu.Tlm.{
  Payload, Transport, read_command, write_command, ignore_command, is_write, incomplete_response,
  ok_response, word_sanity, int_set, int_clr,
}
pub mod Wire
mod Tests

pub record IntMaster : Type 0 where
  pub master_b_pl : Payload

-- The payload of the constructor; the fields that it leaves have the defaults of TLM-2.
unfoldable pub new : IntMaster
new = record {
  master_b_pl = record {
    command = ignore_command;
    address = 0;
    data_word = 0;
    data_length = 0;
    streaming_width = 4;
    has_byte_enable = false;
    response = incomplete_response;
  };
}

unfoldable pub set {ℓ} : {S : Type ℓ} → Transport S → IntMaster → S → Result (IntMaster × S)
set master_socket m s = do
  (t, s') ← int_set master_socket m.master_b_pl s
  ok (record { master_b_pl = t }, s')

unfoldable pub clear {ℓ} : {S : Type ℓ} → Transport S → IntMaster → S → Result (IntMaster × S)
clear master_socket m s = do
  (t, s') ← int_clr master_socket m.master_b_pl s
  ok (record { master_b_pl = t }, s')

-- The slave with the object that its owner pointer leads to.
pub record IntSlave {ℓ} (A : Type ℓ) : Type ℓ where
  pub owner : A
  pub state : Bool

-- The two methods of the owner are applied to the opaque pointer.
unfoldable pub slave_b_transport {ℓ} :
    {A : Type ℓ} → (A → Result A) → (A → Result A) → Transport (IntSlave A)
slave_b_transport set_cb clear_cb t s = do
  word_sanity t
  check (is_write t.command) assertion
  check (t.address == 0) assertion
  check (ltb t.data_word 2) assertion
  owner ← if nonzero t.data_word then set_cb s.owner else clear_cb s.owner
  ok (record t { response = ok_response }, record { owner = owner; state = nonzero t.data_word })

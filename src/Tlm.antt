-- ===== src/Tlm.antt =====
-- The transactions of src/utils/utils.h: the checks of a word transaction and the macros that send
-- one. The byte-enable pointer is either null or not. A response is what the target has left in the
-- transaction: the code sets only the incomplete and the OK response, and the first is an error.
use open_socemu.Base.{
  ℕ, Bool, true, false, not, ◌||◌, bit_and, ◌==◌, Result, ok, assertion, check, ◌≡◌, ◌>>=◌, ◌>>◌,
}

pub data Command : Type 0 where
  read_command write_command ignore_command : Command

pub data Response : Type 0 where
  incomplete_response ok_response : Response

pub record Payload : Type 0 where
  pub command : Command
  pub address : ℕ
  pub data_word : ℕ
  pub data_length : ℕ
  pub streaming_width : ℕ
  pub has_byte_enable : Bool
  pub response : Response

abbrev pub is_read : Command → Bool
is_read read_command = true
is_read write_command = false
is_read ignore_command = false

abbrev pub is_write : Command → Bool
is_write read_command = false
is_write write_command = true
is_write ignore_command = false

abbrev pub is_response_ok : Response → Bool
is_response_ok incomplete_response = false
is_response_ok ok_response = true

-- TLM_WORD_SANITY
unfoldable pub word_sanity : Payload → Result (Unit {0})
word_sanity t = do
  check (bit_and t.address 3 == 0) assertion
  check (not t.has_byte_enable) assertion
  check (t.data_length == 4) assertion
  check (t.streaming_width == 4) assertion
  check (is_write t.command || is_read t.command) assertion

-- The payload of a master that has set its defaults.
pub record IsReady (t : Payload) : Type 0 where
  pub width : t.streaming_width ≡ 4
  pub no_mask : t.has_byte_enable ≡ false

-- What a socket does with a transaction, for the block of type S behind it.
abbrev pub Transport {ℓ} : Type ℓ → Type ℓ
Transport S = Payload → S → Result (Payload × S)

-- TLM_B_TRANS, with the transaction as it was left by the last one.
unfoldable pub b_trans {ℓ} :
    {S : Type ℓ} → Transport S → Payload → Command → ℕ → ℕ → ℕ → S → Result (Payload × S)
b_trans b_transport t command addr word length s = do
  (t', s') ←
      b_transport
        (record t {
          command = command;
          address = addr;
          data_word = word;
          data_length = length;
          response = incomplete_response;
        })
        s
  check (is_response_ok t'.response) assertion
  ok (t', s')

-- TLM_B_WR_WORD and TLM_B_RD_WORD
unfoldable pub b_wr_word {ℓ} :
    {S : Type ℓ} → Transport S → Payload → ℕ → ℕ → S → Result (Payload × S)
b_wr_word b_transport t addr word s = b_trans b_transport t write_command addr word 4 s

unfoldable pub b_rd_word {ℓ} :
    {S : Type ℓ} → Transport S → Payload → ℕ → ℕ → S → Result (Payload × S)
b_rd_word b_transport t addr word s = b_trans b_transport t read_command addr word 4 s

-- TLM_INT_SET and TLM_INT_CLR
unfoldable pub int_set {ℓ} : {S : Type ℓ} → Transport S → Payload → S → Result (Payload × S)
int_set b_transport t s = b_wr_word b_transport t 0 1 s

unfoldable pub int_clr {ℓ} : {S : Type ℓ} → Transport S → Payload → S → Result (Payload × S)
int_clr b_transport t s = b_wr_word b_transport t 0 0 s

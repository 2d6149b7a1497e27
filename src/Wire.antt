-- ===== src/Wire.antt =====
-- src/protocol/protocol_ssh_helper.h and .cpp: the message envelope, and the reader and writer of
-- the agent protocol's primitive values. `data` of the source is `bytes` here; `size_t` has 64 bits
-- and `uint32_t` 32, and both wrap around.
pub mod Words
pub mod Reader
pub mod Writer
pub mod RoundTrip
pub mod Safety
mod Tests
use ssh_agent_bridge.Base.{ℕ, ◌^◌, ◌*◌, ◌≡◌, ◌<◌, List, length, All}

abbrev pub Bytes : Type 0
Bytes = List ℕ

abbrev pub IsByte : ℕ → Type 0
IsByte b = b < 256

abbrev pub u32_mod : ℕ
u32_mod = 2 ^ 32

abbrev pub size_mod : ℕ
size_mod = 2 ^ 64

-- The reply callback of the source is the dispatcher's business, and no reader or writer uses it.
pub record SshMessageEnvelope : Type 0 where
  pub length : ℕ
  pub bytes : Bytes

abbrev pub max_message_size : ℕ
max_message_size = 256 * 1024

abbrev pub header_size : ℕ
header_size = 4

-- What every user of an envelope relies on: the length field is the size of the vector.
pub record IsWellFormed (e : SshMessageEnvelope) : Type 0 where
  pub sized : e.length ≡ length e.bytes
  pub fits : e.length < u32_mod
  pub in_range : All IsByte e.bytes

-- ===== src/Wire/Writer.antt =====
-- `SshAgentMessageBufferWriter`: each operation returns the changed envelope.
use ssh_agent_bridge.Base.{ℕ, ◌+◌, ◌%◌, Bool, [], ◌∷◌, ◌++◌, length, if◌then◌else◌}
use ssh_agent_bridge.Wire.{Bytes, SshMessageEnvelope, u32_mod}
use ssh_agent_bridge.Wire.Words.{store_le, byte_swap}

-- Append to the vector, and add to the 32-bit length.
abbrev pub append : Bytes → SshMessageEnvelope → SshMessageEnvelope
append bs e = record { length = (e.length + length bs) % u32_mod; bytes = e.bytes ++ bs }

unfoldable pub init : SshMessageEnvelope → SshMessageEnvelope
init e = record { length = 0; bytes = [] }

unfoldable pub write_byte : ℕ → SshMessageEnvelope → SshMessageEnvelope
write_byte b e = append (b ∷ []) e

pub write_bool : Bool → SshMessageEnvelope → SshMessageEnvelope
write_bool b e = append ((if b then 1 else 0) ∷ []) e

unfoldable pub write_uint32 : ℕ → SshMessageEnvelope → SshMessageEnvelope
write_uint32 v e = append (store_le 4 (byte_swap 4 v)) e

pub write_uint64 : ℕ → SshMessageEnvelope → SshMessageEnvelope
write_uint64 v e = append (store_le 8 (byte_swap 8 v)) e

-- The size is cast to 32 bits.
unfoldable pub write_string : Bytes → SshMessageEnvelope → SshMessageEnvelope
write_string s e = append s (write_uint32 (length s % u32_mod) e)

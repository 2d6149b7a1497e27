-- ===== src/Wire/Tests.antt =====
-- Readers and writers on concrete messages.
use ssh_agent_bridge.Base.{◌≡◌, refl, [], ◌∷◌, arith}
use ssh_agent_bridge.Wire.{SshMessageEnvelope, IsWellFormed}
use ssh_agent_bridge.Wire.Reader.{
  SshAgentMessageBufferReader, refused, fault, read_uint32, read_string, step_back,
}
use ssh_agent_bridge.Wire.Writer.{write_string, write_uint32}
use ssh_agent_bridge.Wire.Words.{store_le, byte_swap}
use ssh_agent_bridge.Wire.Safety.{read_uint32_after_truncated}

abbrev empty : SshMessageEnvelope
empty = record { length = 0; bytes = [] }

write_string-abc :
    write_string (97 ∷ 98 ∷ 99 ∷ []) empty
    ≡ record { length = 7; bytes = 0 ∷ 0 ∷ 0 ∷ 3 ∷ 97 ∷ 98 ∷ 99 ∷ [] }
unfolding write_string write_uint32 byte_swap store_le
write_string-abc = refl

-- A length prefix of which one byte has come.
abbrev cut_short : SshMessageEnvelope
cut_short = record { length = 1; bytes = 7 ∷ [] }

cut_short-IsWellFormed : IsWellFormed cut_short
cut_short-IsWellFormed = record { sized = refl; fits = omega arith; in_range = omega arith }

abbrev cut_reader : SshAgentMessageBufferReader
cut_reader = record { envelope = cut_short; next = 0 }

read_uint32_after_truncated_example :
    (read_string cut_reader ≡ refused (step_back cut_reader))
    × (read_uint32 (step_back cut_reader) ≡ fault)
read_uint32_after_truncated_example =
    read_uint32_after_truncated cut_reader cut_short-IsWellFormed (omega arith) (omega arith)
      (omega arith)

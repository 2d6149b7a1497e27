-- ===== src/Agent/Generic.antt =====
-- `SshAgentMessageGenericSuccess`, `SshAgentMessageGenericFailure` and
-- `SshAgentMessageRequestIdentities`: messages that are their ID and nothing else.
use ssh_agent_bridge.Base.{ℕ, ◌==◌, if◌then◌else◌}
use ssh_agent_bridge.Wire.{SshMessageEnvelope}
use ssh_agent_bridge.Wire.Reader.{
  SshAgentMessageBufferReader, ReadResult, done, refused, and_then, read_byte,
}
use ssh_agent_bridge.Wire.Writer.{write_byte}

unfoldable pub from_buffer : ℕ → SshAgentMessageBufferReader → ReadResult (Unit {0})
from_buffer id r = and_then (read_byte r) λ b r1. if b == id then done tt r1 else refused r1

unfoldable pub to_buffer : ℕ → SshMessageEnvelope → SshMessageEnvelope
to_buffer id m = write_byte id m

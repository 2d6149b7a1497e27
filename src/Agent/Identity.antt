-- ===== src/Agent/Identity.antt =====
-- `SshAgentIdentity`: a public key blob and its comment.
use ssh_agent_bridge.Wire.{Bytes, SshMessageEnvelope}
use ssh_agent_bridge.Wire.Reader.{
  SshAgentMessageBufferReader, ReadResult, done, and_then, read_string,
}
use ssh_agent_bridge.Wire.Writer.{write_string}

pub record SshAgentIdentity : Type 0 where
  pub blob : Bytes
  pub comment : Bytes

unfoldable pub from_buffer : SshAgentMessageBufferReader → ReadResult SshAgentIdentity
from_buffer r = and_then (read_string r) λ blob r1.
    and_then (read_string r1) λ comment r2. done (record { blob = blob; comment = comment }) r2

unfoldable pub to_buffer : SshAgentIdentity → SshMessageEnvelope → SshMessageEnvelope
to_buffer k m = write_string k.comment (write_string k.blob m)

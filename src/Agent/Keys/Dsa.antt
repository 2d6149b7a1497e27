-- ===== src/Agent/Keys/Dsa.antt =====
-- `SshAgentDsaKey`.
use ssh_agent_bridge.Wire.{Bytes, SshMessageEnvelope}
use ssh_agent_bridge.Wire.Reader.{
  SshAgentMessageBufferReader, ReadResult, done, and_then, read_string,
}
use ssh_agent_bridge.Wire.Writer.{write_string}

pub record SshAgentDsaKey : Type 0 where
  pub p : Bytes
  pub q : Bytes
  pub g : Bytes
  pub y : Bytes
  pub x : Bytes

unfoldable pub from_buffer : SshAgentMessageBufferReader → ReadResult SshAgentDsaKey
from_buffer r = and_then (read_string r) λ p r1. and_then (read_string r1) λ q r2.
    and_then (read_string r2) λ g r3. and_then (read_string r3) λ y r4.
      and_then (read_string r4) λ x r5. done (record { p = p; q = q; g = g; y = y; x = x }) r5

unfoldable pub to_buffer : SshAgentDsaKey → SshMessageEnvelope → SshMessageEnvelope
to_buffer k m =
    write_string k.x (write_string k.y (write_string k.g (write_string k.q (write_string k.p m))))

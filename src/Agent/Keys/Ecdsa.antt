-- ===== src/Agent/Keys/Ecdsa.antt =====
-- `SshAgentEcdsaKey`.
use ssh_agent_bridge.Wire.{Bytes, SshMessageEnvelope}
use ssh_agent_bridge.Wire.Reader.{
  SshAgentMessageBufferReader, ReadResult, done, and_then, read_string,
}
use ssh_agent_bridge.Wire.Writer.{write_string}

pub record SshAgentEcdsaKey : Type 0 where
  pub ecdsa_curve_name : Bytes
  pub q : Bytes
  pub d : Bytes

unfoldable pub from_buffer : SshAgentMessageBufferReader → ReadResult SshAgentEcdsaKey
from_buffer r = and_then (read_string r) λ ecdsa_curve_name r1. and_then (read_string r1) λ q r2.
    and_then (read_string r2)
      λ d r3. done (record { ecdsa_curve_name = ecdsa_curve_name; q = q; d = d }) r3

unfoldable pub to_buffer : SshAgentEcdsaKey → SshMessageEnvelope → SshMessageEnvelope
to_buffer k m = write_string k.d (write_string k.q (write_string k.ecdsa_curve_name m))

-- ===== src/Agent/Keys/Ed25519.antt =====
-- `SshAgentEd25519Key`.
use ssh_agent_bridge.Wire.{Bytes, SshMessageEnvelope}
use ssh_agent_bridge.Wire.Reader.{
  SshAgentMessageBufferReader, ReadResult, done, and_then, read_string,
}
use ssh_agent_bridge.Wire.Writer.{write_string}

pub record SshAgentEd25519Key : Type 0 where
  pub enc_a : Bytes
  pub k_enc_a : Bytes

unfoldable pub from_buffer : SshAgentMessageBufferReader → ReadResult SshAgentEd25519Key
from_buffer r = and_then (read_string r) λ enc_a r1.
    and_then (read_string r1) λ k_enc_a r2. done (record { enc_a = enc_a; k_enc_a = k_enc_a }) r2

unfoldable pub to_buffer : SshAgentEd25519Key → SshMessageEnvelope → SshMessageEnvelope
to_buffer k m = write_string k.k_enc_a (write_string k.enc_a m)

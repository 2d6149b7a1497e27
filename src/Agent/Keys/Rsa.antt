-- ===== src/Agent/Keys/Rsa.antt =====
-- `SshAgentRsaKey`.
use ssh_agent_bridge.Wire.{Bytes, SshMessageEnvelope}
use ssh_agent_bridge.Wire.Reader.{
  SshAgentMessageBufferReader, ReadResult, done, and_then, read_string,
}
use ssh_agent_bridge.Wire.Writer.{write_string}

pub record SshAgentRsaKey : Type 0 where
  pub n : Bytes
  pub e : Bytes
  pub d : Bytes
  pub iqmp : Bytes
  pub p : Bytes
  pub q : Bytes

unfoldable pub from_buffer : SshAgentMessageBufferReader → ReadResult SshAgentRsaKey
from_buffer r = and_then (read_string r) λ n r1. and_then (read_string r1) λ e r2.
    and_then (read_string r2) λ d r3. and_then (read_string r3) λ iqmp r4.
      and_then (read_string r4) λ p r5.
        and_then (read_string r5)
          λ q r6. done (record { n = n; e = e; d = d; iqmp = iqmp; p = p; q = q }) r6

unfoldable pub to_buffer : SshAgentRsaKey → SshMessageEnvelope → SshMessageEnvelope
to_buffer k m = write_string k.q (
    write_string k.p
      (write_string k.iqmp (write_string k.d (write_string k.e (write_string k.n m)))))

-- ===== src/Agent/Answer.antt =====
-- `SshAgentMessageRequestIdentitiesAnswer`: the list of keys that an agent holds.
use ssh_agent_bridge.Base.{ℕ, zero, suc, ◌%◌, List, [], ◌∷◌, ◌==◌, if◌then◌else◌, length}
use ssh_agent_bridge.Wire.{SshMessageEnvelope, u32_mod}
use ssh_agent_bridge.Wire.Reader.{
  SshAgentMessageBufferReader, ReadResult, done, refused, and_then, read_byte, read_uint32,
}
use ssh_agent_bridge.Wire.Writer.{write_byte, write_uint32}
use ssh_agent_bridge.Agent.{ssh2_agent_identities_answer}
use ssh_agent_bridge.Agent.Identity
use ssh_agent_bridge.Agent.Identity.{SshAgentIdentity}

pub record SshAgentMessageRequestIdentitiesAnswer : Type 0 where
  pub identities : List SshAgentIdentity

-- The loop: `count` rounds from here.
unfoldable pub read_identities :
    ℕ → SshAgentMessageBufferReader → ReadResult (List SshAgentIdentity)
read_identities zero r = done [] r
read_identities (suc count) r =
    and_then (Identity.from_buffer r)
      λ i r1. and_then (read_identities count r1) λ is r2. done (i ∷ is) r2

unfoldable pub read_counted :
    SshAgentMessageBufferReader → ReadResult SshAgentMessageRequestIdentitiesAnswer
read_counted r =
    and_then (read_uint32 r)
      λ count r1. and_then (read_identities count r1) λ is r2. done (record { identities = is }) r2

unfoldable pub from_buffer :
    SshAgentMessageBufferReader → ReadResult SshAgentMessageRequestIdentitiesAnswer
unfolding read_counted
from_buffer r =
    and_then (read_byte r)
      λ id r1. if id == ssh2_agent_identities_answer then read_counted r1 else refused r1

unfoldable pub write_identities : List SshAgentIdentity → SshMessageEnvelope → SshMessageEnvelope
write_identities [] m = m
write_identities (i ∷ is) m = write_identities is (Identity.to_buffer i m)

unfoldable pub to_buffer :
    SshAgentMessageRequestIdentitiesAnswer → SshMessageEnvelope → SshMessageEnvelope
unfolding write_identities
to_buffer a m =
    write_identities a.identities
      (write_uint32 (length a.identities % u32_mod) (write_byte ssh2_agent_identities_answer m))

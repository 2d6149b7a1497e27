-- ===== src/Agent/Tests.antt =====
-- Messages and keys on concrete values.
use ssh_agent_bridge.Base.{◌≡◌, refl, List, [], ◌∷◌, arith}
use ssh_agent_bridge.Wire.{SshMessageEnvelope}
use ssh_agent_bridge.Wire.Reader.{open_reader}
use ssh_agent_bridge.Wire.Writer.{init, write_string, write_uint32, write_byte}
use ssh_agent_bridge.Wire.Words.{store_le, byte_swap}
use ssh_agent_bridge.Wire.RoundTrip.{Reads}
use ssh_agent_bridge.Wire.Safety.{IsSafe}
use ssh_agent_bridge.Agent.Identity.{SshAgentIdentity}
use ssh_agent_bridge.Agent.Identity
use ssh_agent_bridge.Agent.Answer
use ssh_agent_bridge.Agent.RoundTrip.{IsSendable, from_buffer-to_buffer}
use ssh_agent_bridge.Agent.Safety.{from_buffer-IsSafe}
use ssh_agent_bridge.Agent.Keys.Dsa
use ssh_agent_bridge.Agent.Keys.Dsa.{SshAgentDsaKey}
use ssh_agent_bridge.Agent.Keys.Ecdsa
use ssh_agent_bridge.Agent.Keys.Ecdsa.{SshAgentEcdsaKey}
use ssh_agent_bridge.Agent.Keys.Ed25519
use ssh_agent_bridge.Agent.Keys.Ed25519.{SshAgentEd25519Key}
use ssh_agent_bridge.Agent.Keys.Rsa
use ssh_agent_bridge.Agent.Keys.Rsa.{SshAgentRsaKey}
use ssh_agent_bridge.Agent.Keys.RoundTrip.{from_buffer-to_buffer_keys}

abbrev empty : SshMessageEnvelope
empty = record { length = 0; bytes = [] }

abbrev two_keys : List SshAgentIdentity
two_keys =
    record { blob = 1 ∷ 2 ∷ []; comment = 97 ∷ [] } ∷ record { blob = 3 ∷ []; comment = [] } ∷ []

two_keys-IsSendable : IsSendable two_keys
unfolding store_le byte_swap
two_keys-IsSendable = record { in_range = omega arith; fits = omega arith }

two_keys-bytes : Answer.to_buffer (record { identities = two_keys }) empty ≡ record {
  length = 25;
  bytes =
      12 ∷ 0 ∷ 0 ∷ 0 ∷ 2 ∷ 0 ∷ 0 ∷ 0 ∷ 2 ∷ 1 ∷ 2 ∷ 0 ∷ 0 ∷ 0 ∷ 1 ∷ 97 ∷ 0 ∷ 0 ∷ 0 ∷ 1 ∷ 3 ∷ 0 ∷ 0
      ∷ 0 ∷ 0 ∷ [];
}
unfolding Answer.to_buffer Identity.to_buffer write_string write_uint32 write_byte byte_swap
    store_le
two_keys-bytes = refl

from_buffer-to_buffer_example :
    Reads
      (Answer.from_buffer
        (open_reader (Answer.to_buffer (record { identities = two_keys }) (init empty))))
      (record { identities = two_keys })
      []
from_buffer-to_buffer_example = from_buffer-to_buffer two_keys empty two_keys-IsSendable

-- An answer that promises a key and does not have it.
abbrev broken : SshMessageEnvelope
broken = record { length = 6; bytes = 12 ∷ 0 ∷ 0 ∷ 0 ∷ 1 ∷ 0 ∷ [] }

from_buffer-IsSafe_example : IsSafe broken (Answer.from_buffer (open_reader broken))
from_buffer-IsSafe_example =
    from_buffer-IsSafe broken (record { sized = refl; fits = omega arith; in_range = omega arith })

abbrev dsa : SshAgentDsaKey
dsa = record { p = 1 ∷ []; q = 2 ∷ []; g = []; y = 4 ∷ []; x = 5 ∷ 6 ∷ [] }

abbrev ecdsa : SshAgentEcdsaKey
ecdsa = record { ecdsa_curve_name = 110 ∷ []; q = 2 ∷ []; d = 3 ∷ [] }

abbrev ed25519 : SshAgentEd25519Key
ed25519 = record { enc_a = 9 ∷ []; k_enc_a = 8 ∷ 7 ∷ [] }

abbrev rsa : SshAgentRsaKey
rsa = record { n = 1 ∷ []; e = 3 ∷ []; d = 5 ∷ []; iqmp = 7 ∷ []; p = 11 ∷ []; q = 13 ∷ [] }

from_buffer-to_buffer_keys_example :
    Reads (Dsa.from_buffer (open_reader (Dsa.to_buffer dsa (init empty)))) dsa []
    × Reads (Ecdsa.from_buffer (open_reader (Ecdsa.to_buffer ecdsa (init empty)))) ecdsa []
    × Reads (Ed25519.from_buffer (open_reader (Ed25519.to_buffer ed25519 (init empty)))) ed25519 []
    × Reads (Rsa.from_buffer (open_reader (Rsa.to_buffer rsa (init empty)))) rsa []
unfolding store_le byte_swap
from_buffer-to_buffer_keys_example =
    from_buffer-to_buffer_keys dsa ecdsa ed25519 rsa empty
      (record { in_range = omega arith; fits = omega arith })
      (record { in_range = omega arith; fits = omega arith })
      (record { in_range = omega arith; fits = omega arith })
      (record { in_range = omega arith; fits = omega arith })

-- ===== src/Agent.antt =====
-- src/protocol/protocol_ssh_agent.h and .cpp: the messages of the agent protocol and the key
-- formats, each with `FromBuffer` and `ToBuffer`. A refused read of the source leaves the fields
-- already read in the object; every caller in the source drops the object then, and so does
-- `refused` here. This file has the message numbers.
pub mod Identity
pub mod Generic
pub mod Answer
pub mod Keys
pub mod Strings
pub mod RoundTrip
pub mod Safety
mod Tests
use ssh_agent_bridge.Base.{ℕ}

abbrev pub ssh_agent_failure : ℕ
ssh_agent_failure = 5

abbrev pub ssh_agent_success : ℕ
ssh_agent_success = 6

abbrev pub ssh2_agentc_request_identities : ℕ
ssh2_agentc_request_identities = 11

abbrev pub ssh2_agent_identities_answer : ℕ
ssh2_agent_identities_answer = 12

abbrev pub ssh2_agentc_sign_request : ℕ
ssh2_agentc_sign_request = 13

abbrev pub ssh2_agent_sign_response : ℕ
ssh2_agent_sign_response = 14

abbrev pub ssh2_agentc_add_identity : ℕ
ssh2_agentc_add_identity = 17

abbrev pub ssh2_agentc_remove_identity : ℕ
ssh2_agentc_remove_identity = 18

abbrev pub ssh2_agentc_remove_all_identities : ℕ
ssh2_agentc_remove_all_identities = 19

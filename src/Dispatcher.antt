-- ===== src/Dispatcher.antt =====
-- src/message_dispatcher.h and .cpp, and the interface of src/protocol/client_base.h: requests are
-- answered from the upstream agents. This file has the handlers; `Worker` has the worker thread.
-- `W` is the state of the world behind the clients: a handler asks them in order and threads it
-- through. `none` is a read outside a vector (`data[0]` of an empty one).
pub mod Forward
pub mod Identities
pub mod Safety
pub mod Worker
mod Tests
use ssh_agent_bridge.Base.{
  ℕ, Bool, true, false, ◌&&◌, List, [], ◌∷◌, ◌++◌, map, Option, none, some, ltb, ◌==◌,
  if◌then◌else◌, head?,
}
use ssh_agent_bridge.Base.Faults.{◌>>=◌}
use ssh_agent_bridge.Wire.{Bytes, SshMessageEnvelope}
use ssh_agent_bridge.Wire.Reader.{ReadResult, done, refused, fault, open_reader}
use ssh_agent_bridge.Wire.Writer.{init}
use ssh_agent_bridge.Agent.{
  ssh_agent_failure, ssh_agent_success, ssh2_agentc_request_identities,
  ssh2_agent_identities_answer, ssh2_agentc_sign_request, ssh2_agent_sign_response,
  ssh2_agentc_add_identity, ssh2_agentc_remove_identity, ssh2_agentc_remove_all_identities,
}
use ssh_agent_bridge.Agent.Generic
use ssh_agent_bridge.Agent.Identity.{SshAgentIdentity}
use ssh_agent_bridge.Agent.Answer
use ssh_agent_bridge.Agent.Answer.{SshAgentMessageRequestIdentitiesAnswer}

-- What `SendSshMessage` leaves: its result, the message it was given, and the world.
pub record Sent (W : Type 0) : Type 0 where
  pub status : Bool
  pub message : SshMessageEnvelope
  pub world : W

pub record ProtocolClientBase (W : Type 0) : Type 0 where
  pub name : List ℕ
  pub send_ssh_message : SshMessageEnvelope → W → Sent W

pub record MessageDispatcher (W : Type 0) : Type 0 where
  pub clients : List (ProtocolClientBase W)
  pub mangle_comment_flag : Bool

-- A handler's result, the envelope it was given, and the world.
pub record Handled (W : Type 0) : Type 0 where
  pub status : Bool
  pub envelope : SshMessageEnvelope
  pub world : W

module _ {W : Type 0} where
  unfoldable pub add_client : ProtocolClientBase W → MessageDispatcher W → MessageDispatcher W
  add_client c d = record d { clients = d.clients ++ c ∷ [] }

  unfoldable pub set_key_comment_mangling : Bool → MessageDispatcher W → MessageDispatcher W
  set_key_comment_mangling flag d = record d { mangle_comment_flag = flag }

  -- `status && tmpMessage.length > 0 && tmpMessage.data[0] == code`
  unfoldable pub is_reply : ℕ → Sent W → Option Bool
  is_reply code s =
      if s.status && ltb 0 s.message.length
      then (head? s.message.bytes >>= λ first. some (first == code))
      else some false

  -- The envelope rewritten as a message that is only its ID.
  unfoldable pub reply_with : ℕ → SshMessageEnvelope → W → Handled W
  unfolding Generic.to_buffer
  reply_with id e w = record { status = true; envelope = Generic.to_buffer id (init e); world = w }

  -- The loop that the handlers of single replies have: the first client that replies with `code`
  -- is believed, and the others are not asked.
  unfoldable pub ask_in_turn :
      ℕ → List (ProtocolClientBase W) → SshMessageEnvelope → W → Option (Handled W)
  unfolding is_reply reply_with
  ask_in_turn code [] e w = some (reply_with ssh_agent_failure e w)
  ask_in_turn code (c ∷ cs) e w =
      let s = c.send_ssh_message e w in
      do
        found ← is_reply code s
        let rest = ask_in_turn code cs e s.world
        if found
            then some (record { status = true; envelope = s.message; world = s.world })
            else rest

  unfoldable pub handle_add_identity :
      MessageDispatcher W → SshMessageEnvelope → W → Option (Handled W)
  handle_add_identity d e w = ask_in_turn ssh_agent_success d.clients e w

  unfoldable pub handle_remove_identity :
      MessageDispatcher W → SshMessageEnvelope → W → Option (Handled W)
  handle_remove_identity d e w = ask_in_turn ssh_agent_success d.clients e w

  unfoldable pub handle_sign_request :
      MessageDispatcher W → SshMessageEnvelope → W → Option (Handled W)
  handle_sign_request d e w = ask_in_turn ssh2_agent_sign_response d.clients e w

  -- Every client gets a copy of the request, and its reply is dropped.
  unfoldable pub broadcast : List (ProtocolClientBase W) → SshMessageEnvelope → W → W
  broadcast [] e w = w
  broadcast (c ∷ cs) e w = broadcast cs e (c.send_ssh_message e w).world

  unfoldable pub handle_remove_all_identity :
      MessageDispatcher W → SshMessageEnvelope → W → Option (Handled W)
  unfolding broadcast reply_with
  handle_remove_all_identity d e w = some (reply_with ssh_agent_success e (broadcast d.clients e w))

  unfoldable pub handle_unsupported_request : SshMessageEnvelope → W → Option (Handled W)
  unfolding reply_with
  handle_unsupported_request e w = some (reply_with ssh_agent_failure e w)

-- The identities with the client's name behind the comment, in brackets.
unfoldable pub mangle : Bool → Bytes → List SshAgentIdentity → List SshAgentIdentity
mangle false name is = is
mangle true name is =
    map
      (λ i. record {
        blob = i.blob;
        comment = ((i.comment ++ b' ' ∷ b'[' ∷ []) ++ name) ++ b']' ∷ [];
      })
      is

-- `WideStringToUtf8String` calls the system: it is a parameter.
module _ {W : Type 0} (wide_string_to_utf8_string : List ℕ → Bytes) where
  -- What one reply adds to the answer: nothing if it cannot be read.
  unfoldable pub partial_answer :
      Bool
      → ProtocolClientBase W
      → ReadResult SshAgentMessageRequestIdentitiesAnswer
      → Option (List SshAgentIdentity)
  unfolding mangle
  partial_answer flag c (done a r) =
      some (mangle flag (wide_string_to_utf8_string c.name) a.identities)
  partial_answer flag c (refused r) = some []
  partial_answer flag c fault = none

  unfoldable pub collect :
      Bool
      → List (ProtocolClientBase W)
      → SshMessageEnvelope
      → W
      → List SshAgentIdentity
      → Option (List SshAgentIdentity × W)
  unfolding is_reply partial_answer
  collect flag [] e w ans = some (ans, w)
  collect flag (c ∷ cs) e w ans =
      let s = c.send_ssh_message e w in
      do
        found ← is_reply ssh2_agent_identities_answer s
        more ←
            if found
            then partial_answer flag c (Answer.from_buffer (open_reader s.message))
            else some []
        collect flag cs e s.world (ans ++ more)

  unfoldable pub handle_identities_request :
      MessageDispatcher W → SshMessageEnvelope → W → Option (Handled W)
  unfolding collect
  handle_identities_request d e w = do
    (ans, w') ← collect d.mangle_comment_flag d.clients e w []
    some (record {
      status = true;
      envelope = Answer.to_buffer (record { identities = ans }) (init e);
      world = w';
    })

  unfoldable pub dispatch : MessageDispatcher W → SshMessageEnvelope → W → ℕ → Option (Handled W)
  dispatch d e w type =
      if type == ssh2_agentc_add_identity
      then handle_add_identity d e w
      else if type == ssh2_agentc_remove_identity
      then handle_remove_identity d e w
      else if type == ssh2_agentc_remove_all_identities
      then handle_remove_all_identity d e w
      else if type == ssh2_agentc_request_identities
      then handle_identities_request d e w
      else if type == ssh2_agentc_sign_request
      then handle_sign_request d e w
      else handle_unsupported_request e w

  unfoldable pub process_request : MessageDispatcher W → SshMessageEnvelope → W → Option (Handled W)
  unfolding dispatch
  process_request d e w =
      if e.length == 0
      then some (record { status = false; envelope = e; world = w })
      else (head? e.bytes >>= λ type. dispatch d e w type)

-- ===== src/Dispatcher/Tests.antt =====
-- A dispatcher with two clients, one that fails and one that answers.
use ssh_agent_bridge.Base.{
  ℕ, ◌+◌, ◌<◌, ◌≡◌, refl, ◌⊎◌, true, false, List, [], ◌∷◌, ◌++◌, inl, some, length, All, arith,
}
use ssh_agent_bridge.Wire.{SshMessageEnvelope}
use ssh_agent_bridge.Wire.Reader.{open_reader}
use ssh_agent_bridge.Wire.RoundTrip.{Reads}
use ssh_agent_bridge.Wire.Words.{store_le, byte_swap}
use ssh_agent_bridge.Agent.{
  ssh_agent_success, ssh2_agentc_sign_request, ssh2_agent_sign_response,
  ssh2_agentc_request_identities, ssh2_agentc_remove_all_identities,
}
use ssh_agent_bridge.Agent.Identity.{SshAgentIdentity}
use ssh_agent_bridge.Agent.Answer
use ssh_agent_bridge.Agent.RoundTrip.{IsSendable}
use ssh_agent_bridge.Dispatcher.{ProtocolClientBase, MessageDispatcher, Handled, process_request}
use ssh_agent_bridge.Dispatcher.Forward.{
  IsWellBehaved, IsRelayed, sign_request, process_request-IsRelayed, process_request-remove_all,
}
use ssh_agent_bridge.Dispatcher.Identities.{Lists, listed, other, end, process_request-Lists}
use ssh_agent_bridge.Dispatcher.Safety.{process_request-total}

-- The world counts the exchanges.
abbrev down : ProtocolClientBase ℕ
down = record {
  name = [];
  send_ssh_message = λ e w. record { status = false; message = e; world = w + 1 };
}

abbrev answer : List ℕ → ProtocolClientBase ℕ
answer bs = record {
  name = 97 ∷ [];
  send_ssh_message = λ e w. record {
    status = true;
    message = record { length = length bs; bytes = bs };
    world = w + 1;
  };
}

abbrev with_answer : List ℕ → MessageDispatcher ℕ
with_answer bs = record { clients = down ∷ answer bs ∷ []; mangle_comment_flag = false }

abbrev request : ℕ → SshMessageEnvelope
request type = record { length = 1; bytes = type ∷ [] }

-- The client's name is written as its code units.
abbrev as_is : List ℕ → List ℕ
as_is s = s

abbrev a_signature : MessageDispatcher ℕ
a_signature = with_answer (ssh2_agent_sign_response ∷ 7 ∷ [])

down-IsWellBehaved : IsWellBehaved down
down-IsWellBehaved e w ok = cc

a_signature-IsWellBehaved : All IsWellBehaved a_signature.clients
a_signature-IsWellBehaved = (
  down-IsWellBehaved,
  (λ e w ok. record { sized = refl; fits = omega arith; in_range = omega arith }, tt),
)

process_request-IsRelayed_example :
    (h : Handled ℕ) × (process_request as_is a_signature (request ssh2_agentc_sign_request) 0
      ≡ some h)
    × IsRelayed ssh2_agent_sign_response (request ssh2_agentc_sign_request) a_signature.clients 0 h
process_request-IsRelayed_example =
    process_request-IsRelayed as_is a_signature (request ssh2_agentc_sign_request) 0
      ssh2_agentc_sign_request ssh2_agent_sign_response (sign_request refl refl) (omega arith) refl
      a_signature-IsWellBehaved

-- A client that fails and logs what it was sent.
abbrev Log : Type 0
Log = List (List ℕ × SshMessageEnvelope)

abbrev logging : ℕ → ProtocolClientBase Log
logging n = record {
  name = n ∷ [];
  send_ssh_message = λ e w. record { status = false; message = e; world = w ++ (n ∷ [], e) ∷ [] };
}

abbrev two_logging : MessageDispatcher Log
two_logging = record { clients = logging 97 ∷ logging 98 ∷ []; mangle_comment_flag = true }

abbrev remove_all : SshMessageEnvelope
remove_all = request ssh2_agentc_remove_all_identities

process_request-remove_all_example :
    (h : Handled Log) × (process_request as_is two_logging remove_all [] ≡ some h)
    × (h.status ≡ true)
    × (h.envelope ≡ record { length = 1; bytes = ssh_agent_success ∷ [] })
    × (h.world ≡ (97 ∷ [], remove_all) ∷ (98 ∷ [], remove_all) ∷ [])
process_request-remove_all_example =
    process_request-remove_all as_is two_logging remove_all [] (λ w. w)
      (λ e w. refl, (λ e w. refl, tt)) (omega arith) refl

process_request-total_example :
    (h : Handled ℕ) × (process_request as_is a_signature (request 27) 0 ≡ some h)
    × ((((request 27).length ≡ 0)
          × (h ≡ record { status = false; envelope = request 27; world = 0 }))
        ⊎ ((0 < (request 27).length) × (h.status ≡ true)))
process_request-total_example =
    process_request-total as_is a_signature (request 27) 0
      (record { sized = refl; fits = omega arith; in_range = omega arith })
      a_signature-IsWellBehaved

-- One client fails, the other, named `a`, has one key, with the comment `b`; an odd byte follows.
abbrev one_key : List SshAgentIdentity
one_key = record { blob = 5 ∷ []; comment = 98 ∷ [] } ∷ []

abbrev shown_key : List SshAgentIdentity
shown_key = record { blob = 5 ∷ []; comment = b'b' ∷ b' ' ∷ b'[' ∷ b'a' ∷ b']' ∷ [] } ∷ []

abbrev a_list : MessageDispatcher ℕ
a_list = record {
  clients =
      down ∷ answer (12 ∷ 0 ∷ 0 ∷ 0 ∷ 1 ∷ 0 ∷ 0 ∷ 0 ∷ 1 ∷ 5 ∷ 0 ∷ 0 ∷ 0 ∷ 1 ∷ 98 ∷ 77 ∷ []) ∷ [];
  mangle_comment_flag = true;
}

abbrev list_request : SshMessageEnvelope
list_request = request ssh2_agentc_request_identities

one_key-IsSendable : IsSendable one_key
unfolding store_le byte_swap
one_key-IsSendable = record { in_range = omega arith; fits = omega arith }

shown_key-IsSendable : IsSendable shown_key
unfolding store_le byte_swap
shown_key-IsSendable = record { in_range = omega arith; fits = omega arith }

a_list-Lists : Lists as_is true list_request a_list.clients 0 shown_key 2
unfolding store_le byte_swap
a_list-Lists =
    other (λ ok. cc) (λ r. cc)
      (listed one_key shown_key (77 ∷ []) refl
        (record { sized = refl; fits = omega arith; in_range = omega arith }) refl
        one_key-IsSendable (refl, inl (refl, refl), tt) end)

process_request-Lists_example :
    (h : Handled ℕ) × (process_request as_is a_list list_request 0 ≡ some h)
    × (h.status ≡ true)
    × (h.world ≡ 2)
    × Reads (Answer.from_buffer (open_reader h.envelope)) (record { identities = shown_key }) []
process_request-Lists_example =
    process_request-Lists as_is a_list list_request 0 2 shown_key a_list-Lists shown_key-IsSendable
      (omega arith) refl

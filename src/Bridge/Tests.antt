-- ===== src/Bridge/Tests.antt =====
-- An agent that signs, behind a socket, and the witnesses.
use ssh_agent_bridge.Base.{
  ℕ, zero, suc, ◌+◌, ◌≡◌, refl, sym, ap, true, List, [], ◌∷◌, append-nil, Option, some, All, arith,
}
use ssh_agent_bridge.Wire.{Bytes, SshMessageEnvelope}
use ssh_agent_bridge.Proxy.{ready, ProxyIoContext, Handshaken, new_context}
use ssh_agent_bridge.Proxy.Receive.{IsChunk}
use ssh_agent_bridge.Dispatcher.{MessageDispatcher, process_request}
use ssh_agent_bridge.Dispatcher.Forward.{sign_request}
use ssh_agent_bridge.Upstream.Channel.{rounds}
use ssh_agent_bridge.Upstream.Exchange.{frame}
use ssh_agent_bridge.Bridge.{Opened, Agent, answer, socket_client, serve}
use ssh_agent_bridge.Bridge.Relay.{
  IsRequest, Implements, Reaches, Answers, socket_client-Implements, process_request-answer,
}
use ssh_agent_bridge.Bridge.Serve.{IsServed, serve-answer}

abbrev signature : SshMessageEnvelope
signature = record { length = 2; bytes = 14 ∷ 9 ∷ [] }

abbrev signer : Agent
signer e = some signature

abbrev ones : ℕ → List (Option ℕ)
ones zero = []
ones (suc n) = some 1 ∷ ones n

rounds-ones : (n : ℕ) → rounds (ones n) ≡ n
rounds-ones zero = refl
rounds-ones (suc n) = ap suc (rounds-ones n)

abbrev connect : SshMessageEnvelope → Bytes → Opened Bytes
connect e w = record {
  connection = record {
    opens = true;
    writes = ones (4 + e.length);
    reads = ones 6;
    incoming = frame signature;
  };
  world = [];
}

reaches :
    (e : SshMessageEnvelope) (w : Bytes)
    → IsRequest e
    → Reaches (connect e w).connection e (signer e)
reaches e w z = record {
  opens = refl;
  sized = refl;
  small = omega arith;
  rest = [];
  coming = sym (append-nil (frame signature));
  writes = omega (arith, rounds-ones (4 + e.length));
  reads = omega (arith, rounds-ones 6);
}

signer_behind_socket : Implements (socket_client [] connect) signer
signer_behind_socket = socket_client-Implements [] connect signer reaches

abbrev bridge : MessageDispatcher Bytes
bridge = record { clients = socket_client [] connect ∷ []; mangle_comment_flag = true }

abbrev request : SshMessageEnvelope
request = record { length = 3; bytes = 13 ∷ 1 ∷ 2 ∷ [] }

sign_relayed :
    Answers (process_request (λ s. s) bridge request []) (answer 14 (signer ∷ []) request)
sign_relayed =
    process_request-answer (λ s. s) bridge (signer ∷ []) request [] 13 14
      (socket_client-Implements [] connect signer reaches, tt)
      (record { sized = refl; small = omega arith }) (omega arith) (sign_request refl refl) refl

abbrev at_once : ProxyIoContext → ℕ → Handshaken
at_once c transferred = record { is_done = true; context = c; effects = [] }

abbrev waiting : ProxyIoContext
waiting = record new_context { state = ready }

abbrev pieces : List Bytes
pieces = (13 ∷ 1 ∷ []) ∷ (2 ∷ []) ∷ []

pieces-IsChunk : All IsChunk pieces
pieces-IsChunk = ((omega arith, omega arith), ((omega arith, omega arith), tt))

serve-answer_example :
    IsServed
      (λ s. s)
      at_once
      bridge
      (serve (λ s. s) at_once bridge 3 pieces waiting [])
      (answer 14 (signer ∷ []) request)
serve-answer_example =
    serve-answer (λ s. s) at_once bridge (signer ∷ []) pieces waiting [] 13 14 3 refl pieces-IsChunk
      (omega arith) refl (sign_request refl refl)
      (socket_client-Implements [] connect signer reaches, tt) (omega arith) (omega arith)
      (omega arith)

-- ===== src/Bridge.antt =====
-- The parts put together: a connection of src/protocol/connection_manager/proxy.cpp reads a request, the worker of
-- src/message_dispatcher.cpp processes it with the clients, and the reply callback writes the answer.
-- The client of src/protocol/libassuan_socket_emulation/client.cpp is a client of the dispatcher.
pub mod Relay
pub mod Serve
mod Tests
use ssh_agent_bridge.Base.{
  ℕ, zero, suc, ◌+◌, ◌==◌, Bool, true, false, List, [], ◌∷◌, ◌++◌, Option, none, some, length,
  head?, if◌then◌else◌,
}
use ssh_agent_bridge.Base.Faults.{◌>>=◌}
use ssh_agent_bridge.Wire.{Bytes, SshMessageEnvelope}
use ssh_agent_bridge.Wire.RoundTrip.{be32}
use ssh_agent_bridge.Agent.{ssh_agent_failure}
use ssh_agent_bridge.Proxy.{
  ProxyIoContext, Handshaken, Effect, Step, do_io_completion, post_message_reply,
}
use ssh_agent_bridge.Proxy.Receive.{concat, run_reads}
use ssh_agent_bridge.Proxy.Send.{run_writes}
use ssh_agent_bridge.Dispatcher.{
  Sent, ProtocolClientBase, MessageDispatcher, Handled, process_request,
}
use ssh_agent_bridge.Upstream.{Connection, exchange_on_socket}

-- The connection that is opened for a request, and the world behind that.
pub record Opened (W : Type 0) : Type 0 where
  pub connection : Connection
  pub world : W

-- What serving one request leaves: the connection, what it asked of the system for the reply, and
-- the world.
pub record Served (W : Type 0) : Type 0 where
  pub context : ProxyIoContext
  pub effects : List Effect
  pub world : W

module _ {W : Type 0} where
  -- A `LibassuanSocketEmulationClient` by its name; each request opens a connection.
  unfoldable pub socket_client : Bytes → (SshMessageEnvelope → W → Opened W) → ProtocolClientBase W
  unfolding exchange_on_socket
  socket_client name connect = record {
    name = name;
    send_ssh_message = λ e w.
        let x = exchange_on_socket (connect e w).connection e in
        record { status = x.status; message = x.message; world = (connect e w).world };
  }

  module _ (utf8 : List ℕ → Bytes) (do_handshake : ProxyIoContext → ℕ → Handshaken)
      (d : MessageDispatcher W) where
    -- `ProcessRequest` on the message that was handed on, `PostMessageReply`, and at most `k` more
    -- writes.
    unfoldable pub reply_to : ℕ → ProxyIoContext → W → Option (Served W)
    unfolding process_request post_message_reply
    reply_to k c w = process_request utf8 d c.message w >>= λ h.
        let s = post_message_reply do_handshake true h.envelope h.status c in
        let t = run_writes do_handshake k s.context in
        some (record { context = t.context; effects = s.effects ++ t.effects; world = h.world })

    -- A request comes in, as a header and pieces, on a connection that is ready.
    unfoldable pub serve : ℕ → List Bytes → ProxyIoContext → W → Option (Served W)
    unfolding reply_to do_io_completion
    serve k ps c w =
        let asked = do_io_completion do_handshake true 0 c in
        let s = run_reads do_handshake (be32 (length (concat ps)) ∷ ps) asked.context in
        reply_to k s.context w

-- The abstract view: an agent is a function that answers a request, or does not.
abbrev pub Agent : Type 0
Agent = SshMessageEnvelope → Option SshMessageEnvelope

-- The first agent's answer that begins with `code`, or the failure message.
abbrev pub starts_with : ℕ → Option SshMessageEnvelope → Bool
starts_with code none = false
starts_with code (some r) = elim (head? r.bytes) [ none ↦ false | some b ↦ b == code ]

abbrev pub choose : ℕ → Option SshMessageEnvelope → SshMessageEnvelope → SshMessageEnvelope
choose code none later = later
choose code (some r) later = if starts_with code (some r) then r else later

abbrev pub answer : ℕ → List Agent → SshMessageEnvelope → SshMessageEnvelope
answer code [] e = record { length = 1; bytes = ssh_agent_failure ∷ [] }
answer code (a ∷ agents) e = choose code (a e) (answer code agents e)

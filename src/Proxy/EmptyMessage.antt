-- ===== src/Proxy/EmptyMessage.antt =====
-- A request of no bytes.
use ssh_agent_bridge.Base.{ℕ, ◌≡◌, refl, true, [], ◌∷◌, length, arith}
use ssh_agent_bridge.Wire.{header_size}
use ssh_agent_bridge.Wire.RoundTrip.{be32}
use ssh_agent_bridge.Proxy.{
  read_header, reads, faults, ProxyIoContext, Handshaken, do_io_completion, deliver,
}
use ssh_agent_bridge.Proxy.Receive.{read_header_lem}

-- From a connection that waits for a header: a client that sends the header of an empty message,
-- four bytes of zero, is let through by the test of the length; when the read of no bytes
-- completes, the source reads the first byte of the empty message for its log line.
pub empty_message_faults :
    (do_handshake : ProxyIoContext → ℕ → Handshaken) (c : ProxyIoContext)
    → c.state ≡ read_header
    → c.io_need_bytes ≡ header_size
    → c.message.bytes ≡ []
    → let s = do_io_completion do_handshake true (length (be32 0)) (deliver (be32 0) c) in
      (s.effects ≡ reads 0 ∷ [])
      × ((do_io_completion do_handshake true 0 s.context).effects ≡ faults ∷ [])
unfolding do_io_completion
empty_message_faults do_handshake c head need empty =
    rw (read_header_lem do_handshake 0 c head need (omega arith)) (refl, ground arith)

-- ===== src/Upstream/Answered.antt =====
-- An agent that answers is heard, however the system cuts what is sent and received.
use ssh_agent_bridge.Base.{
  ℕ, ◌+◌, ◌^◌, ◌≤◌, ◌<◌, ◌≡◌, refl, ◌∙◌, true, List, ◌++◌, append_assoc, Option, length, take,
  take-length, arith, lt→ltb, ltb,
}
use ssh_agent_bridge.Wire.{Bytes, SshMessageEnvelope, header_size}
use ssh_agent_bridge.Wire.Words.{byte_swap, length-store_le}
use ssh_agent_bridge.Wire.RoundTrip.{be32}
use ssh_agent_bridge.Upstream.{
  Connection, send_body, send_buffer, receive_buffer, receive_body, receive_reply,
  exchange_on_socket,
}
use ssh_agent_bridge.Upstream.Channel.{
  rounds, send_buffer-rounds, IsReceivedBy, receive_buffer-rounds,
}
use ssh_agent_bridge.Upstream.Exchange.{frame, host_length-be32, no_zeros}

length-be32 : (n : ℕ) → length (be32 n) ≡ 4
length-be32 n = length-store_le 4 (byte_swap 4 n)

module _ (c : Connection) (reply : SshMessageEnvelope) (rest : Bytes)
    (sized : reply.length ≡ length reply.bytes) (small : reply.length < 2 ^ 31)
    (coming : c.incoming ≡ frame reply ++ rest)
    (enough : header_size + reply.length ≤ rounds c.reads) where
  receive_body-answers :
      (script : List (Option ℕ)) (wire : Bytes)
      → length reply.bytes ≤ rounds script
      → receive_body script reply.length (reply.bytes ++ rest) wire
        ≡ record { status = true; message = reply; wire = wire }
  unfolding receive_body
  receive_body-answers script wire h =
      let r = receive_buffer-rounds script reply.bytes rest h in
      let n = length reply.bytes in
      rw
        (
          sized,
          r.done,
          r.whole,
          no_zeros reply.bytes n refl,
          lt→ltb n (2 ^ 31) (omega (arith, sized, small)),
        )
        refl

  receive_reply-answers :
      (old : ℕ) (wire : Bytes)
      → receive_reply c old wire ≡ record { status = true; message = reply; wire = wire }
  unfolding receive_reply
  receive_reply-answers old wire =
      let r : IsReceivedBy c.reads (be32 reply.length) (reply.bytes ++ rest)
          (receive_buffer c.reads 4 (be32 reply.length ++ (reply.bytes ++ rest))) =
        rw (length-be32 reply.length) at (
          receive_buffer-rounds c.reads (be32 reply.length) (reply.bytes ++ rest)
            (omega (arith, enough, length-be32 reply.length))) in
      let start : c.incoming ≡ be32 reply.length ++ (reply.bytes ++ rest) =
        coming ∙ append_assoc (be32 reply.length) reply.bytes rest in
      rw (start, r.done, r.whole, r.behind, host_length-be32 reply.length (omega (arith, small)))
        (receive_body-answers
          (receive_buffer c.reads 4 (be32 reply.length ++ (reply.bytes ++ rest))).script wire
          (omega (arith, sized, enough, r.left, length-be32 reply.length)))

  -- An agent that answers with a frame is heard: if the connection is open, the agent's stream begins
  -- with the frame of `reply`, and the system does not fail before it has moved a byte in as many
  -- calls as the two frames have bytes, then the exchange succeeds, the message is that reply, and the
  -- agent was sent the frame of the request. The lengths are those of the bytes, and the request
  -- and the reply are shorter than 2^31 bytes.
  pub exchange_on_socket-answers :
      (m : SshMessageEnvelope)
      → c.opens ≡ true
      → m.length ≡ length m.bytes
      → m.length < 2 ^ 31
      → header_size + m.length ≤ rounds c.writes
      → exchange_on_socket c m ≡ record { status = true; message = reply; wire = frame m }
  unfolding exchange_on_socket send_body
  exchange_on_socket-answers m opened m_sized m_small ready =
      let head =
        send_buffer-rounds c.writes (be32 m.length) (omega (arith, ready, length-be32 m.length)) in
      let script = (send_buffer c.writes (be32 m.length)).script in
      let whole : take m.length m.bytes ≡ m.bytes =
        take-length m.length m.bytes (omega (arith, m_sized)) in
      let body =
        send_buffer-rounds script m.bytes
          (omega (arith, m_sized, ready, head.left, length-be32 m.length)) in
      let one_int : ltb m.length (2 ^ 31) ≡ true = lt→ltb m.length (2 ^ 31) m_small in
      rw (opened, one_int, head.done, whole, body.done, head.whole, body.whole)
        (receive_reply-answers m.length (frame m))

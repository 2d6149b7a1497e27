-- ===== src/Bridge/Serve.antt =====
-- From the bytes of a request to the bytes of its answer.
use ssh_agent_bridge.Base.{
  ℕ, ◌-◌, ◌*◌, ◌<◌, ◌≤◌, ◌≡◌, refl, sym, subst, true, List, [], ◌∷◌, ◌++◌, Option, some, length,
  head?, All, arith,
}
use ssh_agent_bridge.Wire.{Bytes, SshMessageEnvelope, max_message_size}
use ssh_agent_bridge.Wire.RoundTrip.{be32}
use ssh_agent_bridge.Proxy.{
  ready, wait_reply, ProxyIoContext, Handshaken, do_io_completion, post_message_reply,
}
use ssh_agent_bridge.Proxy.Receive.{concat, IsChunk, run_reads, run_reads-message}
use ssh_agent_bridge.Proxy.Send.{run_writes, Sends, run_writes-Sends}
use ssh_agent_bridge.Dispatcher.{MessageDispatcher, process_request}
use ssh_agent_bridge.Dispatcher.Forward.{IsForwarded}
use ssh_agent_bridge.Upstream.Exchange.{frame}
use ssh_agent_bridge.Bridge.{Agent, answer, Served, reply_to, serve}
use ssh_agent_bridge.Bridge.Relay.{AllImplement, Answers, process_request-answer}

module _ {W : Type 0} (utf8 : List ℕ → Bytes) (do_handshake : ProxyIoContext → ℕ → Handshaken)
    (d : MessageDispatcher W) where
  -- A request is served: a result is there, and the frame of `r` went out to the client.
  pub record IsServed (o : Option (Served W)) (r : SshMessageEnvelope) : Type 0 where
    pub served : Served W
    pub returns : o ≡ some served
    pub sends :
        Sends do_handshake (record { context = served.context; effects = served.effects }) (frame r)

  reply_to-IsServed :
      (k : ℕ) (c : ProxyIoContext) (w : W) (r : SshMessageEnvelope)
      → c.state ≡ wait_reply
      → Answers (process_request utf8 d c.message w) r
      → 0 < length r.bytes
      → length r.bytes < 2 * 1024 * 1024 * 1024 - 4
      → length r.bytes < k
      → IsServed (reply_to utf8 do_handshake d k c w) r
  unfolding reply_to post_message_reply
  reply_to-IsServed k c w r waits a some_bytes small enough =
      let s = do_io_completion do_handshake true 0 (record c { message = r }) in
      let t = run_writes do_handshake k s.context in
      record {
        served = record {
          context = t.context;
          effects = s.effects ++ t.effects;
          world = a.handled.world;
        };
        returns = rw (a.returns, a.good, a.is_answer) refl;
        sends =
            run_writes-Sends do_handshake (record c { message = r }) k waits some_bytes small
              enough;
      }

-- The bridge is the abstract relay between a client and the agents. On a connection that is ready, let
-- a request of 1 to 256 * 1024 bytes come in as a header in one read and a body in any pieces, that
-- asks to add a key, to remove one or to sign. If each client of the dispatcher implements its agent,
-- and the answer of the relay is not empty and shorter than 2^31 - 4 bytes, then the request is served,
-- and what goes out to the client is the frame of that answer, once and in order; the connection
-- then asks for the next header. The system is taken to complete each write whole, in as many rounds
-- as the answer has bytes, and one more.
pub serve-answer :
    {W : Type 0} (utf8 : List ℕ → Bytes) (do_handshake : ProxyIoContext → ℕ → Handshaken)
    (d : MessageDispatcher W) (agents : List Agent) (ps : List Bytes) (c : ProxyIoContext) (w : W)
    (type code k : ℕ)
    → c.state ≡ ready
    → All IsChunk ps
    → length (concat ps) ≤ max_message_size
    → head? (concat ps) ≡ some type
    → IsForwarded type code
    → AllImplement d.clients agents
    → let r = answer code agents (record { length = length (concat ps); bytes = concat ps }) in
      0 < length r.bytes
      → length r.bytes < 2 * 1024 * 1024 * 1024 - 4
      → length r.bytes < k
      → IsServed utf8 do_handshake d (serve utf8 do_handshake d k ps c w) r
unfolding serve
serve-answer utf8 do_handshake d agents ps c w type code k is_ready pieces small first f implement
      some_bytes r_small enough =
    let e : SshMessageEnvelope = record { length = length (concat ps); bytes = concat ps } in
    let some_request : 0 < length (concat ps) = not_empty (concat ps) first in
    let received = (run_reads-message do_handshake ps c is_ready pieces some_request small).1 in
    let s =
      run_reads do_handshake (be32 (length (concat ps)) ∷ ps)
        (do_io_completion do_handshake true 0 c).context in
    let a =
      process_request-answer utf8 d agents e w type code implement
        (record { sized = refl; small = omega (arith, small) }) some_request f first in
    reply_to-IsServed utf8 do_handshake d k s.context w (answer code agents e) received.waits
      (subst (λ m. Answers (process_request utf8 d m w) (answer code agents e))
        (sym received.message_is) a)
      some_bytes r_small enough
  where
    not_empty : (bs : Bytes) → head? bs ≡ some type → 0 < length bs
    not_empty [] h = absurd (no_first h)
      where
        no_first : head? {A = ℕ} [] ≡ some type → ⊥
        no_first h = cc
    not_empty (b ∷ bs) h = omega arith

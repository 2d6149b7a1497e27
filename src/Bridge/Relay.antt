-- ===== src/Bridge/Relay.antt =====
-- The dispatcher with clients that reach agents gives the answer of the abstract relay.
use ssh_agent_bridge.Base.{
  ℕ, ◌+◌, ◌^◌, ◌<◌, ◌≤◌, ◌≡◌, refl, sym, subst, Bool, true, false, List, [], ◌∷◌, ◌++◌, Option,
  none, some, length, lt→ltb, head?, arith, ◌==◌, ltb, if◌then◌else◌,
}
use ssh_agent_bridge.Base.Faults.{◌>>=◌}
use ssh_agent_bridge.Wire.{Bytes, header_size, SshMessageEnvelope}
use ssh_agent_bridge.Wire.Writer.{init, write_byte}
use ssh_agent_bridge.Agent.Generic
use ssh_agent_bridge.Upstream.{Connection, exchange_on_socket}
use ssh_agent_bridge.Upstream.Channel.{rounds}
use ssh_agent_bridge.Upstream.Exchange.{frame}
use ssh_agent_bridge.Upstream.Answered.{exchange_on_socket-answers}
use ssh_agent_bridge.Dispatcher.{
  Sent, ProtocolClientBase, MessageDispatcher, Handled, is_reply, reply_with, ask_in_turn,
  process_request,
}
use ssh_agent_bridge.Dispatcher.Forward.{IsForwarded, process_request-forwards}
use ssh_agent_bridge.Bridge.{Opened, Agent, answer, choose, starts_with, socket_client}

-- An answer that is a message.
abbrev pub IsSized : SshMessageEnvelope → Type 0
IsSized e = e.length ≡ length e.bytes

-- A request whose length is that of its bytes, and fits in an `int`.
pub record IsRequest (e : SshMessageEnvelope) : Type 0 where
  pub sized : IsSized e
  pub small : e.length < 2 ^ 31

first_byte :
    (code n : ℕ) (bs : Bytes)
    → n ≡ length bs
    → (if ltb 0 n then (head? bs >>= λ first. some (first == code)) else some false)
      ≡ some (starts_with code (some (record { length = n; bytes = bs })))
first_byte code n [] e = let t : ltb 0 n ≡ false = ground arith in rw t refl
first_byte code n (b ∷ bs) e = rw (lt→ltb 0 n (omega (arith, e))) refl

-- The connection brings the answer `r` to `e`: it comes in as a frame of fewer than 2^31 bytes, and the
-- system moves a byte in each of enough calls.
pub record Brings (c : Connection) (e r : SshMessageEnvelope) : Type 0 where
  pub opens : c.opens ≡ true
  pub sized : IsSized r
  pub small : r.length < 2 ^ 31
  pub rest : Bytes
  pub coming : c.incoming ≡ frame r ++ rest
  pub writes : header_size + e.length ≤ rounds c.writes
  pub reads : header_size + r.length ≤ rounds c.reads

-- An agent that does not answer cannot be connected to.
abbrev pub Reaches : Connection → SshMessageEnvelope → Option SshMessageEnvelope → Type 0
Reaches c e none = c.opens ≡ false
Reaches c e (some r) = Brings c e r

module _ {W : Type 0} where
  -- What an exchange with a client leaves is what the agent answers.
  abbrev pub Leaves : Sent W → Option SshMessageEnvelope → Type 0
  Leaves s none = s.status ≡ false
  Leaves s (some r) = (s.status ≡ true) × (s.message ≡ r) × IsSized r

  abbrev pub Implements : ProtocolClientBase W → Agent → Type 0
  Implements c a =
      (e : SshMessageEnvelope) (w : W) → IsRequest e → Leaves (c.send_ssh_message e w) (a e)

  abbrev pub AllImplement : List (ProtocolClientBase W) → List Agent → Type 0
  AllImplement [] [] = Unit
  AllImplement (c ∷ cs) (a ∷ agents) = Implements c a × AllImplement cs agents
  AllImplement _ _ = ⊥

  -- A `LibassuanSocketEmulationClient` implements an agent, if each connection that it opens for a
  -- request reaches it.
  pub socket_client-Implements :
      (name : Bytes) (connect : SshMessageEnvelope → W → Opened W) (a : Agent)
      → ((e : SshMessageEnvelope) (w : W) → IsRequest e → Reaches (connect e w).connection e (a e))
      → Implements (socket_client name connect) a
  unfolding socket_client
  socket_client-Implements name connect a h e w z = of_answer (a e) (h e w z)
    where
      of_answer :
          (o : Option SshMessageEnvelope)
          → Reaches (connect e w).connection e o
          → Leaves ((socket_client name connect).send_ssh_message e w) o
      of_answer none closed = rw (closed, exchange_on_socket) refl
      of_answer (some r) b =
          rw
            (exchange_on_socket-answers (connect e w).connection r b.rest b.sized b.small b.coming
              b.reads e b.opens z.sized z.small b.writes)
            (refl, refl, b.sized)

  -- A handler that answers with `r`.
  pub record Answers (o : Option (Handled W)) (r : SshMessageEnvelope) : Type 0 where
    pub handled : Handled W
    pub returns : o ≡ some handled
    pub good : handled.status ≡ true
    pub is_answer : handled.envelope ≡ r

  is_reply-starts_with :
      (code : ℕ) (s : Sent W) (o : Option SshMessageEnvelope)
      → Leaves s o
      → is_reply code s ≡ some (starts_with code o)
  unfolding is_reply
  is_reply-starts_with code s none h = rw h refl
  is_reply-starts_with code s (some r) (good, same, sized) =
      rw (good, same) (first_byte code r.length r.bytes sized)

  -- One round of the loop, and of the abstract relay.
  step :
      (code : ℕ) (s : Sent W) (o : Option SshMessageEnvelope)
      → Leaves s o
      → {rest : Option (Handled W)} {later : SshMessageEnvelope} → Answers rest later
      → Answers
          (if starts_with code o
            then some (record { status = true; envelope = s.message; world = s.world })
            else rest)
          (choose code o later)
  step code s none h k = k
  step code s (some r) h {rest} {later} k = by_test (starts_with code (some r))
    where
      by_test :
          (b : Bool)
          → Answers
              (if b
                then some (record { status = true; envelope = s.message; world = s.world })
                else rest)
              (if b then r else later)
      by_test true = record { handled = _; returns = refl; good = refl; is_answer = h.1 }
      by_test false = k

  ask_in_turn-Answers :
      (code : ℕ) (cs : List (ProtocolClientBase W)) (agents : List Agent) (e : SshMessageEnvelope)
      (w : W)
      → AllImplement cs agents
      → IsRequest e
      → Answers (ask_in_turn code cs e w) (answer code agents e)
  unfolding ask_in_turn reply_with Generic.to_buffer write_byte init
  ask_in_turn-Answers code [] [] e w i z = record {
    handled = _;
    returns = refl;
    good = refl;
    is_answer = refl;
  }
  ask_in_turn-Answers code (c ∷ cs) (a ∷ agents) e w i z =
      let s = c.send_ssh_message e w in
      rw (is_reply-starts_with code s (a e) (i.0 e w z))
        (step code s (a e) (i.0 e w z) (ask_in_turn-Answers code cs agents e s.world i.1 z))
  ask_in_turn-Answers code [] (a ∷ agents) e w i z = absurd i
  ask_in_turn-Answers code (c ∷ cs) [] e w i z = absurd i

-- The dispatcher implements the abstract relay. If each client leaves, for any request of fewer than
-- 2^31 bytes and in any world, what its agent answers, then a request to add a key, to remove one or to sign gets a result, and this
-- is the answer of the first agent in order whose answer begins with the success code (for signing,
-- the code of a signature), or the failure message if there is none. The request's length is that of
-- its bytes and below 2^31, and the clients and the agents correspond one to one.
pub process_request-answer :
    {W : Type 0} (utf8 : List ℕ → Bytes) (d : MessageDispatcher W) (agents : List Agent)
    (e : SshMessageEnvelope) (w : W) (type code : ℕ)
    → AllImplement d.clients agents
    → IsRequest e
    → 0 < e.length
    → IsForwarded type code
    → head? e.bytes ≡ some type
    → Answers (process_request utf8 d e w) (answer code agents e)
process_request-answer utf8 d agents e w type code i z some_length f first =
    subst (λ o. Answers o (answer code agents e))
      (sym (process_request-forwards utf8 d e w type code f some_length first))
      (ask_in_turn-Answers code d.clients agents e w i z)

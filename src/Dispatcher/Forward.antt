-- ===== src/Dispatcher/Forward.antt =====
-- Requests that one agent answers: adding a key, removing one, and signing; and removing all
-- keys, which every agent is asked for.
use ssh_agent_bridge.Base.{
  ℕ, ◌<◌, ◌≡◌, refl, ap, ◌∙◌, ◌⊎◌, inl, inr, true, false, List, [], ◌∷◌, ◌++◌, some, length, lt→ltb,
  ◌==◌, ==→eq, head?, All, Bool-cases, arith, map, append-nil, append_assoc,
}
use ssh_agent_bridge.Wire.{SshMessageEnvelope, IsWellFormed}
use ssh_agent_bridge.Wire.Writer.{init, write_byte}
use ssh_agent_bridge.Agent.{
  ssh_agent_failure, ssh_agent_success, ssh2_agentc_sign_request, ssh2_agent_sign_response,
  ssh2_agentc_add_identity, ssh2_agentc_remove_identity, ssh2_agentc_remove_all_identities,
}
use ssh_agent_bridge.Agent.Generic
use ssh_agent_bridge.Dispatcher.{
  Sent, ProtocolClientBase, MessageDispatcher, Handled, is_reply, reply_with, ask_in_turn,
  broadcast, process_request, dispatch, handle_add_identity, handle_remove_identity,
  handle_sign_request, handle_remove_all_identity,
}

module _ {W : Type 0} where
  -- What a client promises: a successful exchange leaves a well-formed reply.
  abbrev pub IsWellBehaved : ProtocolClientBase W → Type 0
  IsWellBehaved c =
      (e : SshMessageEnvelope) (w : W)
      → (c.send_ssh_message e w).status ≡ true
      → IsWellFormed (c.send_ssh_message e w).message

  -- The exchange succeeded, and the reply's first byte is `code`.
  abbrev pub Replies : ℕ → Sent W → Type 0
  Replies code s = (s.status ≡ true) × (0 < s.message.length) × (head? s.message.bytes ≡ some code)

  pub is_reply-total :
      (code : ℕ) (s : Sent W)
      → (s.status ≡ true → IsWellFormed s.message)
      → ((is_reply code s ≡ some true) × Replies code s)
        ⊎ ((is_reply code s ≡ some false) × ¬ (Replies code s))
  unfolding is_reply
  is_reply-total code s w = of_status (Bool-cases s.status)
    where
      of_bytes :
          (bs : List ℕ)
          → s.message.bytes ≡ bs
          → s.status ≡ true
          → s.message.length ≡ length bs
          → ((is_reply code s ≡ some true) × Replies code s)
            ⊎ ((is_reply code s ≡ some false) × ¬ (Replies code s))
      of_bytes [] e good size = inr (ground arith, λ r. omega (arith, r.1))
      of_bytes (b ∷ bs) e good size = elim (Bool-cases (b == code)) [
        | inl same ↦ inl (
          ground (arith, lt→ltb 0 s.message.length),
          (good, omega arith, rw e (ap some (==→eq b code same))),
        )
        | inr other ↦ inr (ground (arith, lt→ltb 0 s.message.length), λ r. ground arith)
      ]

      of_status :
          (s.status ≡ true) ⊎ (s.status ≡ false)
          → ((is_reply code s ≡ some true) × Replies code s)
            ⊎ ((is_reply code s ≡ some false) × ¬ (Replies code s))
      of_status (inl good) = of_bytes s.message.bytes refl good (w good).sized
      of_status (inr bad) = inr (rw bad refl, λ r. cc)

  -- No client of the list replies with `code`, each asked in the world that the last one left.
  abbrev pub NoneReplies : ℕ → SshMessageEnvelope → List (ProtocolClientBase W) → W → Type 0
  NoneReplies code e [] w = Unit
  NoneReplies code e (c ∷ cs) w =
      ¬ (Replies code (c.send_ssh_message e w))
      × NoneReplies code e cs (c.send_ssh_message e w).world

  -- `h` is the reply of the first client that replies with `code`; those behind it are not asked.
  pub record IsFirstReply (code : ℕ) (e : SshMessageEnvelope) (cs : List (ProtocolClientBase W))
      (w : W) (h : Handled W) : Type 0 where
    pub before : List (ProtocolClientBase W)
    pub client : ProtocolClientBase W
    pub after : List (ProtocolClientBase W)
    pub split : cs ≡ before ++ client ∷ after
    pub silent : NoneReplies code e before w
    pub replies : Replies code (client.send_ssh_message e (broadcast before e w))
    pub status_is : h.status ≡ true
    pub envelope_is : h.envelope ≡ (client.send_ssh_message e (broadcast before e w)).message
    pub world_is : h.world ≡ (client.send_ssh_message e (broadcast before e w)).world

  -- `h` is the one-byte message `id`, and the world is the one that asking every client leaves.
  pub record IsAnswered (id : ℕ) (e : SshMessageEnvelope) (cs : List (ProtocolClientBase W)) (w : W)
      (h : Handled W) : Type 0 where
    pub status_is : h.status ≡ true
    pub envelope_is : h.envelope ≡ record { length = 1; bytes = id ∷ [] }
    pub world_is : h.world ≡ broadcast cs e w

  abbrev pub IsRelayed :
      ℕ → SshMessageEnvelope → List (ProtocolClientBase W) → W → Handled W → Type 0
  IsRelayed code e cs w h =
      IsFirstReply code e cs w h ⊎ (NoneReplies code e cs w × IsAnswered ssh_agent_failure e cs w h)

  reply_with-IsAnswered :
      (id : ℕ) (e : SshMessageEnvelope) (cs : List (ProtocolClientBase W)) (w : W)
      → IsAnswered id e cs w (reply_with id e (broadcast cs e w))
  unfolding reply_with Generic.to_buffer write_byte init
  reply_with-IsAnswered id e cs w = record { status_is = refl; envelope_is = refl; world_is = refl }

  -- A client that does not reply is passed over.
  IsRelayed-cons :
      (code : ℕ) (e : SshMessageEnvelope) (c : ProtocolClientBase W)
      (cs : List (ProtocolClientBase W)) (w : W) (h : Handled W)
      → ¬ (Replies code (c.send_ssh_message e w))
      → IsRelayed code e cs (c.send_ssh_message e w).world h
      → IsRelayed code e (c ∷ cs) w h
  unfolding broadcast
  IsRelayed-cons code e c cs w h miss (inl f) = inl (record {
    before = c ∷ f.before;
    client = f.client;
    after = f.after;
    split = ap (◌∷◌ c) f.split;
    silent = (miss, f.silent);
    replies = f.replies;
    status_is = f.status_is;
    envelope_is = f.envelope_is;
    world_is = f.world_is;
  })
  IsRelayed-cons code e c cs w h miss (inr (silent, a)) = inr (
    (miss, silent),
    record { status_is = a.status_is; envelope_is = a.envelope_is; world_is = a.world_is },
  )

  pub ask_in_turn-IsRelayed :
      (code : ℕ) (e : SshMessageEnvelope) (cs : List (ProtocolClientBase W)) (w : W)
      → All IsWellBehaved cs
      → (h : Handled W) × (ask_in_turn code cs e w ≡ some h) × IsRelayed code e cs w h
  unfolding ask_in_turn broadcast
  ask_in_turn-IsRelayed code e [] w ok = (
    reply_with ssh_agent_failure e w,
    refl,
    inr (tt, reply_with-IsAnswered ssh_agent_failure e [] w),
  )
  ask_in_turn-IsRelayed code e (c ∷ cs) w ok =
      let s = c.send_ssh_message e w in
      elim (is_reply-total code s (ok.0 e w)) [
        | inl (hit, r) ↦ (
          record { status = true; envelope = s.message; world = s.world },
          rw hit,
          inl (record {
            before = [];
            client = c;
            after = cs;
            split = refl;
            silent = tt;
            replies = r;
            status_is = refl;
            envelope_is = refl;
            world_is = refl;
          }),
        )
        | inr (miss, r) ↦
            let (h, e', relayed) = ask_in_turn-IsRelayed code e cs s.world ok.1 in
            (h, rw miss e', IsRelayed-cons code e c cs w h r relayed)
      ]

-- The request types that one agent answers, with the reply that tells success.
pub data IsForwarded : ℕ → ℕ → Type 0 where
  add_identity :
      {type code : ℕ}
      → type ≡ ssh2_agentc_add_identity
      → code ≡ ssh_agent_success
      → IsForwarded type code
  remove_identity :
      {type code : ℕ}
      → type ≡ ssh2_agentc_remove_identity
      → code ≡ ssh_agent_success
      → IsForwarded type code
  sign_request :
      {type code : ℕ}
      → type ≡ ssh2_agentc_sign_request
      → code ≡ ssh2_agent_sign_response
      → IsForwarded type code

module _ {W : Type 0} (log : W → List (List ℕ × SshMessageEnvelope)) where
  -- The client leaves its name and the message at the end of the log.
  abbrev pub IsLogged : ProtocolClientBase W → Type 0
  IsLogged c =
      (e : SshMessageEnvelope) (w : W)
      → log (c.send_ssh_message e w).world ≡ log w ++ (c.name, e) ∷ []

  broadcast-log :
      (e : SshMessageEnvelope) (cs : List (ProtocolClientBase W)) (w : W)
      → All IsLogged cs
      → log (broadcast cs e w) ≡ log w ++ map (λ c. (c.name, e)) cs
  unfolding broadcast
  broadcast-log e [] w logged = rw append-nil refl
  broadcast-log e (c ∷ cs) w logged =
      broadcast-log e cs (c.send_ssh_message e w).world logged.1
      ∙ rw (logged.0 e w) (append_assoc (log w) ((c.name, e) ∷ []) _)

module _ {W : Type 0} (utf8 : List ℕ → List ℕ) (d : MessageDispatcher W) (e : SshMessageEnvelope)
    (w : W) where
  pub process_request-dispatch :
      (type : ℕ)
      → 0 < e.length
      → head? e.bytes ≡ some type
      → process_request utf8 d e w ≡ dispatch utf8 d e w type
  unfolding process_request
  process_request-dispatch type h first = ground arith

  -- These requests go to the loop over the clients.
  pub process_request-forwards :
      (type code : ℕ)
      → IsForwarded type code
      → 0 < e.length
      → head? e.bytes ≡ some type
      → process_request utf8 d e w ≡ ask_in_turn code d.clients e w
  unfolding dispatch handle_add_identity handle_remove_identity handle_sign_request
  process_request-forwards type code (add_identity t c) some_length first =
      rw c (process_request-dispatch _ some_length (rw t at first))
  process_request-forwards type code (remove_identity t c) some_length first =
      rw c (process_request-dispatch _ some_length (rw t at first))
  process_request-forwards type code (sign_request t c) some_length first =
      rw c (process_request-dispatch _ some_length (rw t at first))

  -- A non-empty request to add a key, to remove one or to sign, where each client whose exchange
  -- succeeds leaves a well-formed message, is answered by the first client, in order, that replies
  -- with success (for signing, with a signature): its reply is the answer, and the clients behind
  -- it are not asked. If no client does, all are asked and the answer is the failure message.
  pub process_request-IsRelayed :
      (type code : ℕ)
      → IsForwarded type code
      → 0 < e.length
      → head? e.bytes ≡ some type
      → All IsWellBehaved d.clients
      → (h : Handled W) × (process_request utf8 d e w ≡ some h) × IsRelayed code e d.clients w h
  unfolding dispatch handle_add_identity handle_remove_identity handle_sign_request
  process_request-IsRelayed type code f some_length first ok =
      let (h, e', r) = ask_in_turn-IsRelayed code e d.clients w ok in
      (h, process_request-forwards type code f some_length first ∙ e', r)

  -- A non-empty request to remove all keys is answered with success, and each client gets it exactly
  -- once, in the order of the clients, whatever they reply. This is stated for a world that is the log of
  -- what the clients were sent: each appends its name and the message that it is given.
  pub process_request-remove_all :
      (log : W → List (List ℕ × SshMessageEnvelope))
      → All (IsLogged log) d.clients
      → 0 < e.length
      → head? e.bytes ≡ some ssh2_agentc_remove_all_identities
      → (h : Handled W) × (process_request utf8 d e w ≡ some h)
        × (h.status ≡ true)
        × (h.envelope ≡ record { length = 1; bytes = ssh_agent_success ∷ [] })
        × (log h.world ≡ log w ++ map (λ c. (c.name, e)) d.clients)
  unfolding dispatch handle_remove_all_identity
  process_request-remove_all log logged some_length first =
      let a = reply_with-IsAnswered ssh_agent_success e d.clients w in
      (
        reply_with ssh_agent_success e (broadcast d.clients e w),
        process_request-dispatch _ some_length first,
        a.status_is,
        a.envelope_is,
        ap log a.world_is ∙ broadcast-log log e d.clients w logged,
      )

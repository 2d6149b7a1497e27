-- ===== src/Dispatcher/Safety.antt =====
-- The dispatcher answers every well-formed request, and reads no message outside its bytes.
use ssh_agent_bridge.Base.{
  ℕ, ◌<◌, ◌≡◌, refl, ◌∙◌, inl, inr, ◌⊎◌, Bool, true, false, List, [], ◌∷◌, ◌++◌, Option, some,
  length, head?, ◌==◌, All, arith, if◌then◌else◌, ap,
}
use ssh_agent_bridge.Wire.{Bytes, SshMessageEnvelope, IsWellFormed}
use ssh_agent_bridge.Wire.Reader.{ReadResult, done, refused, fault, open_reader}
use ssh_agent_bridge.Wire.Writer.{init}
use ssh_agent_bridge.Wire.Safety.{IsSafe}
use ssh_agent_bridge.Agent.{
  ssh2_agent_identities_answer, ssh2_agentc_request_identities, ssh2_agentc_sign_request,
  ssh2_agentc_add_identity, ssh2_agentc_remove_identity, ssh2_agentc_remove_all_identities,
}
use ssh_agent_bridge.Agent.Identity.{SshAgentIdentity}
use ssh_agent_bridge.Agent.Answer
use ssh_agent_bridge.Agent.Answer.{SshAgentMessageRequestIdentitiesAnswer}
use ssh_agent_bridge.Agent.Safety.{from_buffer-IsSafe}
use ssh_agent_bridge.Dispatcher.{
  ProtocolClientBase, MessageDispatcher, Handled, ask_in_turn, broadcast, reply_with,
  partial_answer, collect, process_request, dispatch, handle_add_identity, handle_remove_identity,
  handle_sign_request, handle_remove_all_identity, handle_identities_request,
  handle_unsupported_request,
}
use ssh_agent_bridge.Dispatcher.Forward.{
  IsWellBehaved, is_reply-total, ask_in_turn-IsRelayed, process_request-dispatch,
}

module _ {W : Type 0} (utf8 : List ℕ → Bytes) where
  partial_answer-total :
      (flag : Bool) (c : ProtocolClientBase W) (e : SshMessageEnvelope)
      (m : ReadResult SshAgentMessageRequestIdentitiesAnswer)
      → IsSafe e m
      → (is : List SshAgentIdentity) × (partial_answer utf8 flag c m ≡ some is)
  unfolding partial_answer
  partial_answer-total flag c e (done a r) safe = (_, refl)
  partial_answer-total flag c e (refused r) safe = ([], refl)
  partial_answer-total flag c e fault safe = absurd safe

  -- The merged list is built whatever the clients send, each being asked once.
  collect-total :
      (flag : Bool) (cs : List (ProtocolClientBase W)) (e : SshMessageEnvelope) (w : W)
      (ans : List SshAgentIdentity)
      → All IsWellBehaved cs
      → (is : List SshAgentIdentity) × (collect utf8 flag cs e w ans ≡ some (is, broadcast cs e w))
  unfolding collect broadcast
  collect-total flag [] e w ans ok = (ans, refl)
  collect-total flag (c ∷ cs) e w ans ok =
      let s = c.send_ssh_message e w in
      elim (is_reply-total ssh2_agent_identities_answer s (ok.0 e w)) [
        | inl (hit, r) ↦
            let (more, got) =
              partial_answer-total flag c s.message (Answer.from_buffer (open_reader s.message))
                (from_buffer-IsSafe s.message (ok.0 e w r.0)) in
            let (is, rest) = collect-total flag cs e s.world (ans ++ more) ok.1 in
            (is, rw (hit, got) rest)
        | inr (miss, _) ↦
            let (is, rest) = collect-total flag cs e s.world (ans ++ []) ok.1 in (is, rw miss rest)
      ]

  -- The handler returns, and with a status of success.
  abbrev Succeeds : Option (Handled W) → Type 0
  Succeeds o = (h : Handled W) × (o ≡ some h) × (h.status ≡ true)

  if-Succeeds :
      (b : Bool) (x y : Option (Handled W))
      → Succeeds x
      → Succeeds y
      → Succeeds (if b then x else y)
  if-Succeeds true x y p q = p
  if-Succeeds false x y p q = q

  ask_in_turn-Succeeds :
      (code : ℕ) (cs : List (ProtocolClientBase W)) (e : SshMessageEnvelope) (w : W)
      → All IsWellBehaved cs
      → Succeeds (ask_in_turn code cs e w)
  ask_in_turn-Succeeds code cs e w ok =
      let (h, got, relayed) = ask_in_turn-IsRelayed code e cs w ok in
      (h, got, elim relayed [ inl f ↦ f.status_is | inr (_, a) ↦ a.status_is ])

  identities-Succeeds :
      (d : MessageDispatcher W) (e : SshMessageEnvelope) (w : W)
      → All IsWellBehaved d.clients
      → Succeeds (handle_identities_request utf8 d e w)
  unfolding handle_identities_request
  identities-Succeeds d e w ok =
      let (is, got) = collect-total d.mangle_comment_flag d.clients e w [] ok in
      (
        record {
          status = true;
          envelope = Answer.to_buffer (record { identities = is }) (init e);
          world = broadcast d.clients e w;
        },
        rw got,
        refl,
      )

  dispatch-Succeeds :
      (d : MessageDispatcher W) (e : SshMessageEnvelope) (w : W) (type : ℕ)
      → All IsWellBehaved d.clients
      → Succeeds (dispatch utf8 d e w type)
  unfolding dispatch handle_add_identity handle_remove_identity handle_sign_request
      handle_remove_all_identity handle_unsupported_request reply_with
  dispatch-Succeeds d e w type ok =
      if-Succeeds (type == ssh2_agentc_add_identity) _ _ (ask_in_turn-Succeeds _ d.clients e w ok) (
        if-Succeeds (type == ssh2_agentc_remove_identity) _ _
          (ask_in_turn-Succeeds _ d.clients e w ok)
          (if-Succeeds (type == ssh2_agentc_remove_all_identities) _ _ (_, refl, refl)
            (if-Succeeds (type == ssh2_agentc_request_identities) _ _ (identities-Succeeds d e w ok)
              (if-Succeeds (type == ssh2_agentc_sign_request) _ _
                (ask_in_turn-Succeeds _ d.clients e w ok) (_, refl, refl)))))

  -- A well-formed request gets a result from the dispatcher, with no read outside a vector on the
  -- way, whatever well-formed messages the clients send: the empty message gets status false and is
  -- left as it was, and any other gets status true.
  pub process_request-total :
      (d : MessageDispatcher W) (e : SshMessageEnvelope) (w : W)
      → IsWellFormed e
      → All IsWellBehaved d.clients
      → (h : Handled W) × (process_request utf8 d e w ≡ some h)
        × (((e.length ≡ 0) × (h ≡ record { status = false; envelope = e; world = w }))
            ⊎ ((0 < e.length) × (h.status ≡ true)))
  unfolding process_request
  process_request-total d e w wf ok = of_bytes e.bytes refl
    where
      of_bytes :
          (bs : Bytes)
          → e.bytes ≡ bs
          → (h : Handled W) × (process_request utf8 d e w ≡ some h)
            × (((e.length ≡ 0) × (h ≡ record { status = false; envelope = e; world = w }))
                ⊎ ((0 < e.length) × (h.status ≡ true)))
      of_bytes [] eq =
          let none_left : e.length ≡ 0 = omega (arith, wf.sized, ap length eq) in
          (record { status = false; envelope = e; world = w }, ground arith, inl (none_left, refl))
      of_bytes (b ∷ bs) eq =
          let some_left : 0 < e.length = omega (arith, wf.sized, ap length eq) in
          let (h, got, good) = dispatch-Succeeds d e w b ok in
          (
            h,
            process_request-dispatch utf8 d e w b some_left (ap head? eq) ∙ got,
            inr (some_left, good),
          )

-- ===== src/Dispatcher/Identities.antt =====
-- Listing keys: the lists of all agents, one behind the other, each comment marked with its source.
use ssh_agent_bridge.Base.{
  ℕ, ◌<◌, ◌≡◌, refl, sym, ap, subst, ◌∙◌, ◌⊎◌, inl, inr, Bool, true, false, List, [], ◌∷◌, ◌++◌,
  append_assoc, append-nil, some, head?, length, arith,
}
use ssh_agent_bridge.Wire.{Bytes, SshMessageEnvelope, IsWellFormed}
use ssh_agent_bridge.Wire.Reader.{SshAgentMessageBufferReader, done, refused, open_reader}
use ssh_agent_bridge.Wire.Writer.{init}
use ssh_agent_bridge.Wire.RoundTrip.{Rest, Reads, open_reader-Rest}
use ssh_agent_bridge.Agent.{ssh2_agent_identities_answer, ssh2_agentc_request_identities}
use ssh_agent_bridge.Agent.Identity.{SshAgentIdentity}
use ssh_agent_bridge.Agent.Answer
use ssh_agent_bridge.Agent.RoundTrip.{
  answer_bytes, IsSendable, from_buffer-Reads, from_buffer-to_buffer,
}
use ssh_agent_bridge.Dispatcher.{
  Sent, ProtocolClientBase, MessageDispatcher, Handled, is_reply, mangle, partial_answer, collect,
  handle_identities_request, process_request, dispatch,
}
use ssh_agent_bridge.Dispatcher.Forward.{Replies, is_reply-total, process_request-dispatch}

module _ (flag : Bool) where
  -- The comment that a client's key is shown with: its own, and behind it, if the flag is set, a blank
  -- and the client's name in brackets.
  abbrev pub IsCommented : Bytes → Bytes → Bytes → Type 0
  IsCommented name own shown =
      ((flag ≡ true) × (shown ≡ own ++ (b' ' ∷ b'[' ∷ name ++ b']' ∷ [])))
      ⊎ ((flag ≡ false) × (shown ≡ own))

  -- Each key of the client is shown, in order, with its blob and such a comment, and no other is.
  abbrev pub AreShown : Bytes → List SshAgentIdentity → List SshAgentIdentity → Type 0
  AreShown name [] [] = Unit
  AreShown name (i ∷ is) (j ∷ js) =
      (j.blob ≡ i.blob) × IsCommented name i.comment j.comment × AreShown name is js
  AreShown name _ _ = ⊥

mangle-AreShown :
    (flag : Bool) (name : Bytes) (mine shown : List SshAgentIdentity)
    → AreShown flag name mine shown
    → mangle flag name mine ≡ shown
unfolding mangle
mangle-AreShown flag name [] (j ∷ js) h = absurd h
mangle-AreShown flag name (i ∷ is) [] h = absurd h
mangle-AreShown true name [] [] h = refl
mangle-AreShown false name [] [] h = refl
mangle-AreShown true name (i ∷ is) (j ∷ js) (b, inl (t, c), rest) =
    let tail = mangle-AreShown true name is js rest in
    let start : ((i.comment ++ b' ' ∷ b'[' ∷ []) ++ name) ++ b']' ∷ [] ≡ j.comment =
      append_assoc (i.comment ++ b' ' ∷ b'[' ∷ []) name (b']' ∷ [])
      ∙ append_assoc i.comment (b' ' ∷ b'[' ∷ []) (name ++ b']' ∷ [])
      ∙ sym c in
    λ k. (record { blob = sym b k; comment = start k }) ∷ tail k
mangle-AreShown false name (i ∷ is) (j ∷ js) (b, inr (t, c), rest) =
    let tail = mangle-AreShown false name is js rest in
    λ k. (record { blob = sym b k; comment = sym c k }) ∷ tail k
mangle-AreShown true name (i ∷ is) (j ∷ js) (b, inr (t, c), rest) = absurd (cc)
mangle-AreShown false name (i ∷ is) (j ∷ js) (b, inl (t, c), rest) = absurd (cc)

module _ {W : Type 0} (utf8 : List ℕ → Bytes) (flag : Bool) (e : SshMessageEnvelope) where
  -- `Lists cs w is w'`: asked in order from the world `w`, the clients leave `w'`, and `is` has, in
  -- order, what each one contributes: the list that it sent, as it is shown (whatever follows the list
  -- in its answer is left unread), or nothing if it failed, or replied with another message, or with an
  -- answer whose list cannot be read.
  pub data Lists : List (ProtocolClientBase W) → W → List SshAgentIdentity → W → Type 0 where
    end : {w : W} → Lists [] w [] w
    listed :
        {c : ProtocolClientBase W} {cs : List (ProtocolClientBase W)} {w w' : W}
        {is : List SshAgentIdentity} (mine shown : List SshAgentIdentity) (behind : Bytes)
        → (c.send_ssh_message e w).status ≡ true
        → IsWellFormed (c.send_ssh_message e w).message
        → (c.send_ssh_message e w).message.bytes ≡ answer_bytes mine ++ behind
        → IsSendable mine
        → AreShown flag (utf8 c.name) mine shown
        → Lists cs (c.send_ssh_message e w).world is w'
        → Lists (c ∷ cs) w (shown ++ is) w'
    other :
        {c : ProtocolClientBase W} {cs : List (ProtocolClientBase W)} {w w' : W}
        {is : List SshAgentIdentity}
        → ((c.send_ssh_message e w).status ≡ true → IsWellFormed (c.send_ssh_message e w).message)
        → ¬ (Replies ssh2_agent_identities_answer (c.send_ssh_message e w))
        → Lists cs (c.send_ssh_message e w).world is w'
        → Lists (c ∷ cs) w is w'
    garbled :
        {c : ProtocolClientBase W} {cs : List (ProtocolClientBase W)} {w w' : W}
        {is : List SshAgentIdentity} (r : SshAgentMessageBufferReader)
        → ((c.send_ssh_message e w).status ≡ true → IsWellFormed (c.send_ssh_message e w).message)
        → Replies ssh2_agent_identities_answer (c.send_ssh_message e w)
        → Answer.from_buffer (open_reader (c.send_ssh_message e w).message) ≡ refused r
        → Lists cs (c.send_ssh_message e w).world is w'
        → Lists (c ∷ cs) w is w'

  -- A reply that holds an answer is a reply, and is read.
  answered :
      (s : Sent W) (mine : List SshAgentIdentity) (behind : Bytes)
      → s.status ≡ true
      → IsWellFormed s.message
      → s.message.bytes ≡ answer_bytes mine ++ behind
      → IsSendable mine
      → (r : SshAgentMessageBufferReader) × (is_reply ssh2_agent_identities_answer s ≡ some true)
        × (Answer.from_buffer (open_reader s.message) ≡ done (record { identities = mine }) r)
  answered s mine behind good w same ok =
      let (r, read, _) =
        from_buffer-Reads mine behind (open_reader s.message) ok
          (subst (Rest (open_reader s.message)) same (open_reader-Rest s.message w)) in
      elim (is_reply-total ssh2_agent_identities_answer s (λ _. w)) [
        | inl (hit, _) ↦ (r, hit, read)
        | inr (_, silent) ↦
            absurd (silent (good, omega (arith, w.sized, ap length same), ap head? same))
      ]

  collect-Lists :
      {cs : List (ProtocolClientBase W)} {w w' : W} {is : List SshAgentIdentity}
      (ans : List SshAgentIdentity)
      → Lists cs w is w'
      → collect utf8 flag cs e w ans ≡ some (ans ++ is, w')
  unfolding collect partial_answer
  collect-Lists ans end = rw append-nil
  collect-Lists ans (listed {c} {cs} {w} {is = is} mine shown behind good wf same ok marked rest) =
      let (r, hit, read) = answered (c.send_ssh_message e w) mine behind good wf same ok in
      rw (hit, read, mangle-AreShown flag (utf8 c.name) mine shown marked)
        (collect-Lists (ans ++ shown) rest ∙ rw append_assoc)
  collect-Lists ans (other {c} {w = w} wf not_reply rest) =
      elim (is_reply-total ssh2_agent_identities_answer (c.send_ssh_message e w) wf) [
        | inl (_, r) ↦ absurd (not_reply r)
        | inr (miss, _) ↦ rw (miss, append-nil) (collect-Lists ans rest)
      ]
  collect-Lists ans (garbled {c} {w = w} r wf reply bad rest) =
      elim (is_reply-total ssh2_agent_identities_answer (c.send_ssh_message e w) wf) [
        | inl (hit, _) ↦ rw (hit, bad, append-nil) (collect-Lists ans rest)
        | inr (_, silent) ↦ absurd (silent reply)
      ]

module _ {W : Type 0} (utf8 : List ℕ → Bytes) (d : MessageDispatcher W) (e : SshMessageEnvelope)
    (w w' : W) (is : List SshAgentIdentity) where
  -- A non-empty request for the list of keys asks every client once, in order, and its answer is
  -- read back as the lists of all clients, one behind the other: each key has its blob, and its
  -- comment with a blank and the client's name in brackets behind it if mangling is on, as it was
  -- otherwise; bytes behind the list in a client's answer are ignored; a client that fails, or sends
  -- another message or an answer whose list cannot be read, adds nothing, and no client's failure
  -- hides another's keys. Replies of exchanges that succeed are well-formed, and the merged answer
  -- must be shorter than 2 ^ 32 bytes.
  pub process_request-Lists :
      Lists utf8 d.mangle_comment_flag e d.clients w is w'
      → IsSendable is
      → 0 < e.length
      → head? e.bytes ≡ some ssh2_agentc_request_identities
      → (h : Handled W) × (process_request utf8 d e w ≡ some h)
        × (h.status ≡ true)
        × (h.world ≡ w')
        × Reads (Answer.from_buffer (open_reader h.envelope)) (record { identities = is }) []
  unfolding dispatch handle_identities_request
  process_request-Lists lists ok some_length first = (
    record {
      status = true;
      envelope = Answer.to_buffer (record { identities = is }) (init e);
      world = w';
    },
    process_request-dispatch utf8 d e w _ some_length first
        ∙ rw (collect-Lists utf8 d.mangle_comment_flag e [] lists) refl,
    refl,
    refl,
    from_buffer-to_buffer is e ok,
  )

-- ===== src/Wsl2Helper/Stream/Copy.antt =====
-- What is received from one socket is sent to the other.
use ssh_agent_bridge.Base.{
  ◌≡◌, ◌≢◌, refl, sym, ap, ◌∙◌, ◌⊎◌, inl, inr, Bool, true, false, not, List, [], ◌∷◌, ◌++◌,
  append_assoc, append-nil, if◌then◌else◌, drop,
}
use ssh_agent_bridge.Wire.{Bytes}
use ssh_agent_bridge.Wsl2Helper.Stream.{
  SendResult, sends, interrupted, failed, Ending, ends, waits_to_send, waits, send_buffer, Receipt,
  no_receipt, receipt, Effect, received, sent, shuts_read, shuts_write, Trace, before, pass_on,
  drain, gracefully_hup, Polled, Poll, poll_interrupted, poll_failed, poll_none, polls,
  handle_input, handle_polled, do_forward, forward,
}
use ssh_agent_bridge.Wsl2Helper.Stream.Sending.{IsSent, send_buffer-IsSent}

abbrev pub received_from : Bool → List Effect → Bytes
received_from j [] = []
received_from false (received false bs ∷ es) = bs ++ received_from false es
received_from true (received true bs ∷ es) = bs ++ received_from true es
received_from j (_ ∷ es) = received_from j es

abbrev pub sent_to : Bool → List Effect → Bytes
sent_to j [] = []
sent_to false (sent false bs ∷ es) = bs ++ sent_to false es
sent_to true (sent true bs ∷ es) = bs ++ sent_to true es
sent_to j (_ ∷ es) = sent_to j es

-- What went to the other socket is the front of what came from `i`, and all of it if the loop ended
-- well, or waits for input.
pub record IsCopied (t : Trace) (i : Bool) : Type 0 where
  pub rest : Bytes
  pub front : sent_to (not i) t.effects ++ rest ≡ received_from i t.effects
  pub whole : (t.ending ≡ ends true) ⊎ (t.ending ≡ waits) → rest ≡ []

abbrev AreCopied : Trace → Type 0
AreCopied t = IsCopied t false × IsCopied t true

nothing-AreCopied : (e : Ending) → AreCopied (record { effects = []; ending = e })
nothing-AreCopied e = (
  record { rest = []; front = refl; whole = λ h. refl },
  record { rest = []; front = refl; whole = λ h. refl },
)

-- All was sent, and it goes on.
more-AreCopied :
    (i : Bool) (bs : Bytes) (k : Trace)
    → AreCopied k
    → AreCopied (before (received i bs ∷ sent (not i) bs ∷ []) k)
more-AreCopied false bs k (f, t) = (
  record {
    rest = f.rest;
    front = append_assoc bs (sent_to true k.effects) f.rest ∙ ap (λ x. bs ++ x) f.front;
    whole = f.whole;
  },
  record { rest = t.rest; front = t.front; whole = t.whole },
)
more-AreCopied true bs k (f, t) = (
  record { rest = f.rest; front = f.front; whole = f.whole },
  record {
    rest = t.rest;
    front = append_assoc bs (sent_to false k.effects) t.rest ∙ ap (λ x. bs ++ x) t.front;
    whole = t.whole;
  },
)

-- A part was sent, and it is over.
last-AreCopied :
    (i : Bool) (bs wire rest : Bytes) (e : Ending)
    → wire ++ rest ≡ bs
    → ((e ≡ ends true) ⊎ (e ≡ waits) → rest ≡ [])
    → AreCopied (record { effects = received i bs ∷ sent (not i) wire ∷ []; ending = e })
last-AreCopied false bs wire rest e split none_left = (
  record {
    rest = rest;
    front = ap (λ x. x ++ rest) (append-nil wire) ∙ split ∙ sym (append-nil bs);
    whole = none_left;
  },
  record { rest = []; front = refl; whole = λ h. refl },
)
last-AreCopied true bs wire rest e split none_left = (
  record { rest = []; front = refl; whole = λ h. refl },
  record {
    rest = rest;
    front = ap (λ x. x ++ rest) (append-nil wire) ∙ split ∙ sym (append-nil bs);
    whole = none_left;
  },
)

-- `SendBuffer` never waits for input.
send_buffer-ending :
    (script : List SendResult) (bs : Bytes) → (send_buffer script bs).ending ≢ waits
unfolding send_buffer
send_buffer-ending script [] = λ e. cc
send_buffer-ending [] (b ∷ bs) = λ e. cc
send_buffer-ending (sends n ∷ script) (b ∷ bs) = send_buffer-ending script (drop n (b ∷ bs))
send_buffer-ending (interrupted ∷ script) (b ∷ bs) = send_buffer-ending script (b ∷ bs)
send_buffer-ending (failed ∷ script) (b ∷ bs) = λ e. cc

pass_on-AreCopied :
    (i : Bool) (bs : Bytes) (script : List SendResult) (k : Trace)
    → AreCopied k
    → AreCopied (pass_on i bs script k)
unfolding pass_on
pass_on-AreCopied i bs script k copied = of_ending (send_buffer script bs).ending refl
  where
    out : IsSent bs (send_buffer script bs)
    out = send_buffer-IsSent script bs

    wire : Bytes
    wire = (send_buffer script bs).wire

    of_ending :
        (e : Ending) → (send_buffer script bs).ending ≡ e → AreCopied (pass_on i bs script k)
    of_ending (ends true) eq =
        let all_sent : wire ≡ bs = sym (append-nil wire) ∙ rw (out.whole eq) at out.front in
        rw (eq, all_sent) (more-AreCopied i bs k copied)
    of_ending (ends false) eq =
        rw eq (last-AreCopied i bs wire out.rest (ends false) out.front (λ h. never h))
      where
        never : (ends false ≡ ends true) ⊎ (ends false ≡ waits) → out.rest ≡ []
        never (inl h) = cc
        never (inr h) = cc
    of_ending waits_to_send eq =
        rw eq (last-AreCopied i bs wire out.rest waits_to_send out.front (λ h. never h))
      where
        never : (waits_to_send ≡ ends true) ⊎ (waits_to_send ≡ waits) → out.rest ≡ []
        never (inl h) = cc
        never (inr h) = cc
    of_ending waits eq = absurd (send_buffer-ending script bs eq)

drain-AreCopied :
    (i : Bool) (rs : List Receipt) (k : Trace) → AreCopied k → AreCopied (drain i rs k)
unfolding drain
drain-AreCopied i [] k copied = nothing-AreCopied waits
drain-AreCopied i (no_receipt ∷ rs) k copied = copied
drain-AreCopied i (receipt [] script ∷ rs) k copied = copied
drain-AreCopied i (receipt (b ∷ bs) script ∷ rs) k copied =
    pass_on-AreCopied i (b ∷ bs) script (drain i rs k) (drain-AreCopied i rs k copied)

-- A shutdown moves no byte.
shut-AreCopied :
    (i j : Bool) (k : Trace)
    → AreCopied k
    → AreCopied (before (shuts_read i ∷ shuts_write j ∷ []) k)
shut-AreCopied i j k (f, t) = (
  record { rest = f.rest; front = f.front; whole = f.whole },
  record { rest = t.rest; front = t.front; whole = t.whole },
)

gracefully_hup-AreCopied :
    (i : Bool) (mine others : List Receipt) → AreCopied (gracefully_hup i mine others)
unfolding gracefully_hup
gracefully_hup-AreCopied i mine others = drain-AreCopied i mine _ (
    shut-AreCopied i (not i) _ (
      drain-AreCopied (not i) others _
        (shut-AreCopied (not i) i _ (nothing-AreCopied (ends true)))))

if-AreCopied : (b : Bool) (s t : Trace) → AreCopied s → AreCopied t → AreCopied (if b then s else t)
if-AreCopied true s t h k = h
if-AreCopied false s t h k = k

module _ (on_hup : Bool → Trace) (hup_copied : (i : Bool) → AreCopied (on_hup i)) where
  handle_input-AreCopied :
      (i : Bool) (r : Receipt) (k : Trace) → AreCopied k → AreCopied (handle_input on_hup i r k)
  unfolding handle_input
  handle_input-AreCopied i no_receipt k copied = nothing-AreCopied (ends false)
  handle_input-AreCopied i (receipt [] script) k copied = hup_copied i
  handle_input-AreCopied i (receipt (b ∷ bs) script) k copied =
      pass_on-AreCopied i (b ∷ bs) script k copied

  handle_polled-AreCopied :
      (i : Bool) (p : Polled) (k : Trace) → AreCopied k → AreCopied (handle_polled on_hup i p k)
  unfolding handle_polled
  handle_polled-AreCopied i p k copied =
      if-AreCopied p.has_error _ _ (nothing-AreCopied (ends false)) (
        if-AreCopied p.has_input _ _ (handle_input-AreCopied i p.input k copied)
          (if-AreCopied p.has_hup _ _ (hup_copied i) copied))

  do_forward-AreCopied : (ps : List Poll) → AreCopied (do_forward on_hup ps)
  unfolding do_forward
  do_forward-AreCopied [] = nothing-AreCopied waits
  do_forward-AreCopied (poll_interrupted ∷ ps) = do_forward-AreCopied ps
  do_forward-AreCopied (poll_failed ∷ ps) = nothing-AreCopied (ends false)
  do_forward-AreCopied (poll_none ∷ ps) = do_forward-AreCopied ps
  do_forward-AreCopied (polls p q ∷ ps) =
      handle_polled-AreCopied false p _ (handle_polled-AreCopied true q _ (do_forward-AreCopied ps))

-- Whatever the sockets deliver and whatever `poll`, `recv` and `send` answer: at every point, the
-- bytes that went to one socket are the front of the bytes that came from the other, in order and
-- once; and they are all of them while the helper waits in `poll` or `recv`, and when it has ended
-- by a graceful hang-up.
pub forward-IsCopied :
    (last : Bool → List Receipt) (ps : List Poll) (i : Bool) → IsCopied (forward last ps) i
unfolding forward
forward-IsCopied last ps false =
    (do_forward-AreCopied (λ i. gracefully_hup i (last i) (last (not i)))
      (λ i. gracefully_hup-AreCopied i (last i) (last (not i))) ps).0
forward-IsCopied last ps true =
    (do_forward-AreCopied (λ i. gracefully_hup i (last i) (last (not i)))
      (λ i. gracefully_hup-AreCopied i (last i) (last (not i))) ps).1

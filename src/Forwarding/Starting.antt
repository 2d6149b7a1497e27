-- ===== src/Forwarding/Starting.antt =====
-- The start of a forwarded connection, behind its handshake.
use ssh_agent_bridge.Base.{ℕ, ◌≡◌, refl, Bool, true, false, List, [], ◌∷◌, Option, some}
use ssh_agent_bridge.Wire.{Bytes}
use ssh_agent_bridge.Proxy.{max_buffer_size}
use ssh_agent_bridge.Forwarding.{
  hand_shake, established, destroyed, ForwardIoContext, reads, cancels_io, removes_context, Step,
  Handshaken, dispose, dispose_at, check_end, is_shutdown, issue, forward_ready, forward_at,
  do_forward, is_destroyed, target_of, prepare_peer, start_peer, establish, start_forward,
  connect_peer, finish_handshake, do_io_completion, do_io_completion_at,
}

abbrev pub issued_of : Bool → Bool → Bool → Bool
issued_of one two false = one
issued_of one two true = two

abbrev pub in_handshake : ForwardIoContext → ForwardIoContext
in_handshake c = record c { context_state = hand_shake }

-- The outcomes of the start, by which of the two first reads the system accepts.
pub record IsStarted (start : Bool → Bool → Step) : Type 0 where
  pub both : (start true true).context.context_state ≡ established
  pub both_read :
      (start true true).effects ≡ reads false max_buffer_size ∷ reads true max_buffer_size ∷ []
  pub none_left : (two : Bool) → (start false two).context.context_state ≡ destroyed
  pub one_read :
      (two : Bool)
      → (start false two).effects ≡ reads false max_buffer_size ∷ cancels_io ∷ removes_context ∷ []
  pub revived : (start true false).context.context_state ≡ established
  pub removed :
      (start true false).effects
      ≡ reads false max_buffer_size ∷ reads true max_buffer_size ∷ cancels_io ∷ removes_context ∷ []

-- When the handshake is done, the listener has a target, and the target is connected to and its handle
-- associated, then the first reads are issued. If both are accepted, the connection is established.
-- If that of the first peer is refused, it is destroyed and removed, and the second is not issued. If
-- only that of the second peer is refused, the connection is removed from the list, and is established
-- all the same.
pub do_io_completion-IsStarted :
    (do_handshake : ForwardIoContext → ℕ → Handshaken) (targets : List (ℕ × Bytes))
    (connects : Bytes → Bool) (listener : ℕ) (handle_is_socket : Bool) (target : Bytes)
    (c c' : ForwardIoContext) (n : ℕ) (which : Option Bool)
    → do_handshake (in_handshake c) n
      ≡ record { is_done = true; context = in_handshake c'; effects = [] }
    → target_of listener targets ≡ some target
    → connects target ≡ true
    → IsStarted (λ one two.
      do_io_completion do_handshake targets connects true listener handle_is_socket which
        (issued_of one two)
        n
        (in_handshake c))
unfolding do_io_completion do_io_completion_at finish_handshake connect_peer prepare_peer
    start_forward start_peer establish do_forward forward_at forward_ready issue dispose dispose_at
    check_end is_shutdown is_destroyed
do_io_completion-IsStarted do_handshake targets connects listener handle_is_socket target c c' n
      which d t k =
    record {
      both = rw (d, t, k) refl;
      both_read = rw (d, t, k) refl;
      none_left = λ two. rw (d, t, k) refl;
      one_read = λ two. rw (d, t, k) refl;
      revived = rw (d, t, k) refl;
      removed = rw (d, t, k) refl;
    }

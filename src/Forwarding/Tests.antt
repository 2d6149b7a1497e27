-- ===== src/Forwarding/Tests.antt =====
-- A connection whose first peer sends three bytes and is then gone.
use ssh_agent_bridge.Wire.{Bytes}
use ssh_agent_bridge.Forwarding.Copying.{
  Copied, begins, asks, takes_in, puts_out, delivered, IsWhole, Copied-IsWhole,
}
use ssh_agent_bridge.Forwarding.Starting.{
  issued_of, in_handshake, IsStarted, do_io_completion-IsStarted,
}
use ssh_agent_bridge.Base.{ℕ, some, none, refl, arith, ◌+◌, ◌≡◌, true, false, List, [], ◌∷◌, ◌++◌}
use ssh_agent_bridge.Forwarding.{
  ready, established, Peer, ForwardIoContext, Effect, Handshaken, peer, do_forward, target_of,
  do_io_completion,
}
use ssh_agent_bridge.Forwarding.Disposal.{removals, live, Steps, none_yet, forwards, Steps-removals}

abbrev idle : Peer
idle = record {
  state = ready;
  is_socket = true;
  need_transfer = 0;
  buffer_offset = 0;
  buffer = 1 ∷ 2 ∷ 3 ∷ [];
}

abbrev fresh : ForwardIoContext
fresh = record { context_state = established; first = idle; second = idle }

abbrev asked : ForwardIoContext
asked = (do_forward false true 0 fresh).context

abbrev refused : ForwardIoContext
refused = (do_forward false false 3 asked).context

abbrev early_effects : List Effect
early_effects =
    (do_forward false true 0 fresh).effects ++ (do_forward false false 3 asked).effects ++ []

early_effects-Steps : Steps fresh early_effects refused
unfolding do_forward
early_effects-Steps = forwards false true 0 (forwards false false 3 none_yet)

Steps-removals_example : removals early_effects + live refused ≡ live fresh
Steps-removals_example = Steps-removals fresh refused early_effects early_effects-Steps

-- The first peer sends two bytes; one of them is written, and then the other one.
two_bytes :
    Copied false
      (do_forward false true 1
        (do_forward false true 1 (delivered false true (7 ∷ 8 ∷ []) asked).context).context).context
      (8 ∷ [])
      (7 ∷ 8 ∷ [])
      (7 ∷ 8 ∷ [])
unfolding do_forward
two_bytes =
    puts_out true 1
      (puts_out true 1
        (takes_in true (7 ∷ 8 ∷ []) (asks true 0 (begins {c = fresh} refl) refl) refl) refl
        (omega arith))
      refl (omega arith)

Copied-IsWhole_example :
    IsWhole
      (peer false
        (do_forward false true 1
          (do_forward false true 1
            (delivered false true (7 ∷ 8 ∷ []) asked).context).context).context)
      (8 ∷ [])
      (7 ∷ 8 ∷ [])
      (7 ∷ 8 ∷ [])
Copied-IsWhole_example =
    Copied-IsWhole false
      (do_forward false true 1
        (do_forward false true 1 (delivered false true (7 ∷ 8 ∷ []) asked).context).context).context
      (8 ∷ []) (7 ∷ 8 ∷ []) (7 ∷ 8 ∷ []) two_bytes

abbrev at_once : ForwardIoContext → ℕ → Handshaken
at_once c n = record { is_done = true; context = c; effects = [] }

abbrev to_gpg : List (ℕ × Bytes)
to_gpg = (1, 103 ∷ []) ∷ (2, 115 ∷ []) ∷ []

to_gpg-second : target_of 2 to_gpg ≡ some (115 ∷ [])
unfolding target_of
to_gpg-second = refl

do_io_completion-IsStarted_example : IsStarted (λ one two.
    do_io_completion at_once to_gpg
      (λ t. true)
      true
      2
      true
      none
      (issued_of one two)
      0
      (in_handshake fresh))
do_io_completion-IsStarted_example =
    do_io_completion-IsStarted at_once to_gpg (λ t. true) 2 true (115 ∷ []) fresh fresh 0 none refl
      to_gpg-second refl

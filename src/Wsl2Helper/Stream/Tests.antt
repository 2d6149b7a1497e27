-- ===== src/Wsl2Helper/Stream/Tests.antt =====
-- Short exchanges.
use ssh_agent_bridge.Base.{◌≡◌, refl, Bool, true, false, List, [], ◌∷◌, arith}
use ssh_agent_bridge.Wsl2Helper.Stream.{
  SendResult, sends, interrupted, ends, send_buffer, Receipt, receipt, Poll, poll_interrupted,
  polls, forward, gracefully_hup, drain, pass_on,
}
use ssh_agent_bridge.Wsl2Helper.Stream.Sending.{send_buffer-rounds}
use ssh_agent_bridge.Wsl2Helper.Stream.Copy.{IsCopied, forward-IsCopied}
use ssh_agent_bridge.Wsl2Helper.Stream.HangUp.{HungUp, gracefully_hup-HungUp}

abbrev slow : List SendResult
slow = sends 2 ∷ interrupted ∷ sends 1 ∷ sends 1 ∷ []

slowly_sent :
    send_buffer slow (1 ∷ 2 ∷ 3 ∷ []) ≡ record { wire = 1 ∷ 2 ∷ 3 ∷ []; ending = ends true }
slowly_sent = send_buffer-rounds slow (1 ∷ 2 ∷ 3 ∷ []) (omega arith)

-- One socket sends three bytes and hangs up; the other one has two more.
abbrev mine : List Receipt
mine = receipt (4 ∷ []) slow ∷ receipt [] [] ∷ []

abbrev others : List Receipt
others = receipt (5 ∷ 6 ∷ []) slow ∷ receipt [] [] ∷ []

abbrev last : Bool → List Receipt
last false = mine
last true = others

abbrev events : List Poll
events =
    poll_interrupted
    ∷ polls
        (record {
          has_error = false;
          has_input = true;
          has_hup = false;
          input = receipt (1 ∷ 2 ∷ []) slow;
        })
        (record { has_error = false; has_input = false; has_hup = false; input = receipt [] [] })
    ∷ polls (record { has_error = false; has_input = false; has_hup = true; input = receipt [] [] })
        (record { has_error = false; has_input = false; has_hup = false; input = receipt [] [] })
    ∷ []

forward-IsCopied_example : IsCopied (forward last events) false
forward-IsCopied_example = forward-IsCopied last events false

hang_up-done : (gracefully_hup false mine others).ending ≡ ends true
unfolding gracefully_hup drain pass_on send_buffer
hang_up-done = refl

hung_up : HungUp false (gracefully_hup false mine others)
hung_up = gracefully_hup-HungUp false mine others hang_up-done

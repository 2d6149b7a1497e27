-- ===== src/Wsl2Helper/Stream/Sending.antt =====
-- `SendBuffer` sends the buffer.
use ssh_agent_bridge.Base.{
  ℕ, zero, suc, ◌≤◌, ◌≡◌, refl, ap, ◌∙◌, true, List, [], ◌∷◌, ◌++◌, append_assoc, length, take,
  drop, take-append-drop, length-drop, arith,
}
use ssh_agent_bridge.Wire.{Bytes}
use ssh_agent_bridge.Wsl2Helper.Stream.{
  SendResult, sends, interrupted, failed, ends, Outgoing, send_buffer,
}

-- What went out is the front of the buffer, and all of it if the result is true.
pub record IsSent (bs : Bytes) (s : Outgoing) : Type 0 where
  pub rest : Bytes
  pub front : s.wire ++ rest ≡ bs
  pub whole : s.ending ≡ ends true → rest ≡ []

pub send_buffer-IsSent : (script : List SendResult) (bs : Bytes) → IsSent bs (send_buffer script bs)
unfolding send_buffer
send_buffer-IsSent script [] = record { rest = []; front = refl; whole = λ e. refl }
send_buffer-IsSent [] (b ∷ bs) = record { rest = b ∷ bs; front = refl; whole = λ e. cc }
send_buffer-IsSent (sends n ∷ script) (b ∷ bs) =
    let r = send_buffer-IsSent script (drop n (b ∷ bs)) in
    record {
      rest = r.rest;
      front =
          append_assoc (take n (b ∷ bs)) (send_buffer script (drop n (b ∷ bs))).wire r.rest
          ∙ ap (λ t. take n (b ∷ bs) ++ t) r.front
          ∙ take-append-drop n (b ∷ bs);
      whole = r.whole;
    }
send_buffer-IsSent (interrupted ∷ script) (b ∷ bs) = send_buffer-IsSent script (b ∷ bs)
send_buffer-IsSent (failed ∷ script) (b ∷ bs) = record {
  rest = b ∷ bs;
  front = refl;
  whole = λ e. cc;
}

-- How often the system takes at least a byte.
abbrev pub rounds : List SendResult → ℕ
rounds [] = 0
rounds (sends zero ∷ script) = rounds script
rounds (sends (suc n) ∷ script) = suc (rounds script)
rounds (interrupted ∷ script) = rounds script
rounds (failed ∷ script) = 0

-- As long as the system fails no call, however few bytes it takes and however often it interrupts:
-- as many calls that take a byte as the buffer has are enough to send the whole buffer, and the
-- result is true.
pub send_buffer-rounds :
    (script : List SendResult) (bs : Bytes)
    → length bs ≤ rounds script
    → send_buffer script bs ≡ record { wire = bs; ending = ends true }
unfolding send_buffer
send_buffer-rounds script [] h = refl
send_buffer-rounds [] (b ∷ bs) h = absurd (omega arith)
send_buffer-rounds (sends zero ∷ script) (b ∷ bs) h = send_buffer-rounds script (b ∷ bs) h
send_buffer-rounds (sends (suc n) ∷ script) (b ∷ bs) h =
    rw (send_buffer-rounds script (drop n bs) (omega (arith, length-drop n bs)))
      (ap (λ t. record { wire = b ∷ t; ending = ends true }) (take-append-drop n bs))
send_buffer-rounds (interrupted ∷ script) (b ∷ bs) h = send_buffer-rounds script (b ∷ bs) h
send_buffer-rounds (failed ∷ script) (b ∷ bs) h = absurd (omega arith)

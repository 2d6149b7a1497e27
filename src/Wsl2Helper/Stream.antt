-- ===== src/Wsl2Helper/Stream.antt =====
-- `SendBuffer`, `DoForward` and `GracefullyHup` of wsl2_helper/main.cpp. What the system answers to the
-- calls is given as a script, one entry for each call; where the script ends, the last call still
-- waits. The effects, oldest first, say what the sockets see.
pub mod Copy
pub mod Sending
pub mod HangUp
mod Tests
use ssh_agent_bridge.Base.{
  ℕ, zero, suc, ◌-◌, Bool, true, false, not, ◌&&◌, List, [], ◌∷◌, ◌++◌, length, take, drop, min,
  ltb, ◌==◌, if◌then◌else◌,
}
use ssh_agent_bridge.Wire.{Bytes}

-- The answer of `send` to `n` bytes: so many were taken, `EINTR`, or another error.
pub data SendResult : Type 0 where
  sends : ℕ → SendResult
  interrupted failed : SendResult

-- How far a call got: it ended with `true` or `false`, or it waits in `send`, or elsewhere.
pub data Ending : Type 0 where
  ends : Bool → Ending
  waits_to_send waits : Ending

pub record Outgoing : Type 0 where
  pub wire : Bytes
  pub ending : Ending

abbrev pub put : Bytes → Outgoing → Outgoing
put bs s = record { wire = bs ++ s.wire; ending = s.ending }

-- `SendBuffer` on the bytes that are left; `send` takes no more than it is given.
unfoldable pub send_buffer : List SendResult → Bytes → Outgoing
send_buffer script [] = record { wire = []; ending = ends true }
send_buffer [] (b ∷ bs) = record { wire = []; ending = waits_to_send }
send_buffer (sends n ∷ script) (b ∷ bs) =
    put (take n (b ∷ bs)) (send_buffer script (drop n (b ∷ bs)))
send_buffer (interrupted ∷ script) (b ∷ bs) = send_buffer script (b ∷ bs)
send_buffer (failed ∷ script) (b ∷ bs) = record { wire = []; ending = ends false }

-- The answer of `recv`: an error, or bytes (none at the end of the stream); with the script of the
-- `SendBuffer` that follows.
pub data Receipt : Type 0 where
  no_receipt : Receipt
  receipt : Bytes → List SendResult → Receipt

-- `false` is the socket of index 0.
pub data Effect : Type 0 where
  received : Bool → Bytes → Effect
  sent : Bool → Bytes → Effect
  shuts_read shuts_write : Bool → Effect

-- The effects of a loop, and how it ended: for `DoForward` and `GracefullyHup`, `ends b` is a return.
pub record Trace : Type 0 where
  pub effects : List Effect
  pub ending : Ending

abbrev pub before : List Effect → Trace → Trace
before es t = record { effects = es ++ t.effects; ending = t.ending }

-- What is received from `i` is sent to the other; `k` goes on if all was sent.
unfoldable pub pass_on : Bool → Bytes → List SendResult → Trace → Trace
unfolding send_buffer
pass_on i bs script k = of_ending (send_buffer script bs).ending
  where
    of_ending : Ending → Trace
    of_ending (ends true) =
        before (received i bs ∷ sent (not i) (send_buffer script bs).wire ∷ []) k
    of_ending e = record {
      effects = received i bs ∷ sent (not i) (send_buffer script bs).wire ∷ [];
      ending = e;
    }

-- The `do` loop of `GracefullyHup` that reads `i` to its end; `k` is what stands behind it.
unfoldable pub drain : Bool → List Receipt → Trace → Trace
unfolding pass_on
drain i [] k = record { effects = []; ending = waits }
drain i (no_receipt ∷ rs) k = k
drain i (receipt [] script ∷ rs) k = k
drain i (receipt (b ∷ bs) script ∷ rs) k = pass_on i (b ∷ bs) script (drain i rs k)

-- `GracefullyHup`: `i` is read to its end, and then the other one.
unfoldable pub gracefully_hup : Bool → List Receipt → List Receipt → Trace
unfolding drain
gracefully_hup i mine others = drain i mine (
    before (shuts_read i ∷ shuts_write (not i) ∷ []) (
      drain (not i) others
        (record { effects = shuts_read (not i) ∷ shuts_write i ∷ []; ending = ends true })))

-- `revents` of one socket, with the `recv` that follows on `POLLIN`.
pub record Polled : Type 0 where
  pub has_error : Bool
  pub has_input : Bool
  pub has_hup : Bool
  pub input : Receipt

-- The answer of `poll`: an error with `EINTR` or another one, no socket, or both sockets' events.
pub data Poll : Type 0 where
  poll_interrupted poll_failed poll_none : Poll
  polls : Polled → Polled → Poll

module _ (on_hup : Bool → Trace) where
  unfoldable pub handle_input : Bool → Receipt → Trace → Trace
  unfolding pass_on
  handle_input i no_receipt k = record { effects = []; ending = ends false }
  handle_input i (receipt [] script) k = on_hup i
  handle_input i (receipt (b ∷ bs) script) k = pass_on i (b ∷ bs) script k

  -- The body of the loop over the two sockets, for one of them.
  unfoldable pub handle_polled : Bool → Polled → Trace → Trace
  unfolding handle_input
  handle_polled i p k =
      if p.has_error
      then record { effects = []; ending = ends false }
      else if p.has_input
      then handle_input i p.input k
      else if p.has_hup
      then on_hup i
      else k

  -- `DoForward`, with what `GracefullyHup` does on each socket.
  unfoldable pub do_forward : List Poll → Trace
  unfolding handle_polled
  do_forward [] = record { effects = []; ending = waits }
  do_forward (poll_interrupted ∷ ps) = do_forward ps
  do_forward (poll_failed ∷ ps) = record { effects = []; ending = ends false }
  do_forward (poll_none ∷ ps) = do_forward ps
  do_forward (polls p q ∷ ps) = handle_polled false p (handle_polled true q (do_forward ps))

-- The two sockets: what `recv` answers behind the hang-up of one of them, and before it.
unfoldable pub forward : (Bool → List Receipt) → List Poll → Trace
unfolding do_forward gracefully_hup
forward last ps = do_forward (λ i. gracefully_hup i (last i) (last (not i))) ps

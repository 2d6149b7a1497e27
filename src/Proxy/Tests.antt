-- ===== src/Proxy/Tests.antt =====
-- A connection with the handshake of a listener that has none, as of pipes, on short messages.
use ssh_agent_bridge.Base.{
  ℕ, ◌++◌, ◌≡◌, refl, sym, subst, true, List, [], ◌∷◌, length, min, All, arith,
}
use ssh_agent_bridge.Wire.{Bytes, header_size}
use ssh_agent_bridge.Wire.RoundTrip.{be32}
use ssh_agent_bridge.Proxy.{
  State, handshake, ready, read_header, read_body, wait_reply, reads, faults, ProxyIoContext,
  Handshaken, new_context, do_io_completion, deliver, max_buffer_size,
}
use ssh_agent_bridge.Proxy.Receive.{
  concat, IsChunk, further_reads, Received, run_reads, run_reads-message,
}
use ssh_agent_bridge.Proxy.Send.{run_writes, Sends, run_writes-Sends}
use ssh_agent_bridge.Proxy.Limits.{
  IsLeftIn, stays, KeepsWithin, StaysWithin, do_io_completion-StaysWithin,
}
use ssh_agent_bridge.Proxy.EmptyMessage.{empty_message_faults}

abbrev at_once : ProxyIoContext → ℕ → Handshaken
at_once c transferred = record { is_done = true; context = c; effects = [] }

abbrev in_state : State → ProxyIoContext
in_state s = record new_context { state = s }

-- Five bytes, in two pieces.
abbrev pieces : List Bytes
pieces = (13 ∷ 1 ∷ []) ∷ (2 ∷ 3 ∷ 4 ∷ []) ∷ []

pieces-IsChunk : All IsChunk pieces
pieces-IsChunk = ((omega arith, omega arith), ((omega arith, omega arith), tt))

run_reads-message_example :
    let asked = do_io_completion at_once true 0 (in_state ready) in
    (asked.effects ≡ reads header_size ∷ [])
    × Received
        (run_reads at_once (be32 5 ∷ pieces) asked.context)
        5
        (concat pieces)
        (reads (min max_buffer_size 5) ∷ further_reads 5 pieces)
run_reads-message_example =
    run_reads-message at_once pieces (in_state ready) refl pieces-IsChunk (omega arith)
      (omega arith)

abbrev with_reply : ProxyIoContext
with_reply = record (in_state wait_reply) {
  message = record { length = 3; bytes = 5 ∷ 6 ∷ 7 ∷ [] };
}

run_writes-Sends_example :
    let s = do_io_completion at_once true 0 with_reply in
    let t = run_writes at_once 4 s.context in
    Sends at_once
      (record { context = t.context; effects = s.effects ++ t.effects })
      (be32 3 ++ 5 ∷ 6 ∷ 7 ∷ [])
run_writes-Sends_example =
    run_writes-Sends at_once with_reply 4 refl (omega arith) (omega arith) (omega arith)

abbrev in_body : ProxyIoContext
in_body = record (in_state read_body) {
  message = record { length = 3; bytes = 5 ∷ [] };
  io_need_bytes = 2;
}

at_once-KeepsWithin : KeepsWithin at_once
at_once-KeepsWithin = record { limited = λ c n e. tt; left = λ c n e. in_handshake e }
  where
    in_handshake : {st : State} → st ≡ handshake → IsLeftIn st
    in_handshake e = subst IsLeftIn (sym e) stays

do_io_completion-StaysWithin_example :
    StaysWithin (do_io_completion at_once true 1 (deliver (6 ∷ []) in_body))
do_io_completion-StaysWithin_example =
    do_io_completion-StaysWithin at_once at_once-KeepsWithin true 1 (6 ∷ []) in_body (omega arith)
      (omega arith, omega arith)

abbrev in_header : ProxyIoContext
in_header = record (in_state read_header) { io_need_bytes = header_size }

empty_message_faults_example :
    let s = do_io_completion at_once true (length (be32 0)) (deliver (be32 0) in_header) in
    (s.effects ≡ reads 0 ∷ []) × ((do_io_completion at_once true 0 s.context).effects ≡ faults ∷ [])
unfolding new_context
empty_message_faults_example = empty_message_faults at_once in_header refl refl refl

-- ===== src/Upstream.antt =====
-- The clients that pass a request on to another agent: src/protocol/namedpipe/client.cpp and connector.cpp,
-- src/protocol/libassuan_socket_emulation/client.cpp and connector.cpp, and src/protocol/pageant/client.cpp. What the
-- other side does is given beforehand, as a script with one entry for each system call; where it ends,
-- calls fail.
pub mod Channel
pub mod Exchange
pub mod Answered
pub mod Pipe
pub mod Pageant
mod Tests
use ssh_agent_bridge.Base.{
  ℕ, zero, suc, ◌-◌, ◌^◌, Bool, true, false, not, List, [], ◌∷◌, ◌++◌, Option, none, some, length,
  take, drop, head?, min, ltb, ◌==◌, if◌then◌else◌,
}
use ssh_agent_bridge.Base.Faults.{◌>>=◌}
use ssh_agent_bridge.Wire.{Bytes, SshMessageEnvelope, header_size}
use ssh_agent_bridge.Wire.Words.{byte_swap, load_le}
use ssh_agent_bridge.Wire.RoundTrip.{be32}

-- A connection to an agent: whether it can be opened, for each write the number of bytes that the
-- system is ready to take, for each read the number it is ready to give (or an error), and the bytes
-- that come in until the end.
pub record Connection : Type 0 where
  pub opens : Bool
  pub writes : List (Option ℕ)
  pub reads : List (Option ℕ)
  pub incoming : Bytes

-- What a send leaves: its result, the bytes that went out, and the script that is left.
pub record Outgoing : Type 0 where
  pub is_sent : Bool
  pub wire : Bytes
  pub script : List (Option ℕ)

-- What a read leaves: its result, the bytes that came in, those still to come, and the script.
pub record Incoming : Type 0 where
  pub is_received : Bool
  pub bytes : Bytes
  pub incoming : Bytes
  pub script : List (Option ℕ)

-- `SendBuffer` of the libassuan connector, on the bytes that are left.
unfoldable pub send_buffer : List (Option ℕ) → Bytes → Outgoing
send_buffer script [] = record { is_sent = true; wire = []; script = script }
send_buffer [] (b ∷ bs) = record { is_sent = false; wire = []; script = [] }
send_buffer (none ∷ script) (b ∷ bs) = record { is_sent = false; wire = []; script = script }
send_buffer (some n ∷ script) (b ∷ bs) =
    let later = send_buffer script (drop n (b ∷ bs)) in
    record later { wire = take n (b ∷ bs) ++ later.wire }

-- `ReceiveBuffer`, where `need` bytes are left; no byte at all is the end of the stream.
unfoldable pub receive_buffer : List (Option ℕ) → ℕ → Bytes → Incoming
receive_buffer script zero coming = record {
  is_received = true;
  bytes = [];
  incoming = coming;
  script = script;
}
receive_buffer [] (suc need) coming = record {
  is_received = false;
  bytes = [];
  incoming = coming;
  script = [];
}
receive_buffer (none ∷ script) (suc need) coming = record {
  is_received = false;
  bytes = [];
  incoming = coming;
  script = script;
}
receive_buffer (some n ∷ script) (suc need) coming =
    let got = take (min n (suc need)) coming in
    let later = receive_buffer script (suc need - length got) (drop (length got) coming) in
    if length got == 0
    then record { is_received = false; bytes = []; incoming = coming; script = script }
    else record later { bytes = got ++ later.bytes }

-- `WriteBufferToPipe`: one call that must take it all.
unfoldable pub write_buffer_to_pipe : List (Option ℕ) → Bytes → Outgoing
write_buffer_to_pipe [] bs = record { is_sent = false; wire = []; script = [] }
write_buffer_to_pipe (none ∷ script) bs = record { is_sent = false; wire = []; script = script }
write_buffer_to_pipe (some n ∷ script) bs = record {
  is_sent = length (take n bs) == length bs;
  wire = take n bs;
  script = script;
}

-- `ReadBufferFromPipe`: one call that must give it all.
unfoldable pub read_buffer_from_pipe : List (Option ℕ) → ℕ → Bytes → Incoming
read_buffer_from_pipe [] need coming = record {
  is_received = false;
  bytes = [];
  incoming = coming;
  script = [];
}
read_buffer_from_pipe (none ∷ script) need coming = record {
  is_received = false;
  bytes = [];
  incoming = coming;
  script = script;
}
read_buffer_from_pipe (some n ∷ script) need coming =
    let got = take (min n need) coming in
    record {
      is_received = length got == need;
      bytes = got;
      incoming = drop (length got) coming;
      script = script;
    }

-- What `SendSshMessage` leaves: its result, the message, and what the agent was sent.
pub record Exchanged : Type 0 where
  pub status : Bool
  pub message : SshMessageEnvelope
  pub wire : Bytes

-- `ntohl` of the four bytes in memory.
abbrev pub host_length : Bytes → ℕ
host_length bs = byte_swap 4 (load_le bs)

abbrev pub zeros : ℕ → Bytes
zeros zero = []
zeros (suc n) = 0 ∷ zeros n

-- `message->data.resize(message->length)` and the second read. A length of 2^31 or more is negative
-- as an `int`, which `recv` refuses.
unfoldable pub receive_body : List (Option ℕ) → ℕ → Bytes → Bytes → Exchanged
unfolding receive_buffer
receive_body script n coming wire =
    let r = receive_buffer script n coming in
    if ltb n (2 ^ 31)
    then record {
      status = r.is_received;
      message = record { length = n; bytes = r.bytes ++ zeros (n - length r.bytes) };
      wire = wire;
    }
    else record { status = false; message = record { length = n; bytes = zeros n }; wire = wire }

unfoldable pub receive_reply : Connection → ℕ → Bytes → Exchanged
unfolding receive_buffer receive_body
receive_reply c old_length wire =
    let r = receive_buffer c.reads header_size c.incoming in
    if r.is_received then receive_body r.script (host_length r.bytes) r.incoming wire else record {
      status = false;
      message = record { length = old_length; bytes = [] };
      wire = wire;
    }

-- `SendBuffer` of the request. Its `len` is an `int`: a length of 2^31 or more is negative, which `send`
-- refuses.
unfoldable pub send_body : List (Option ℕ) → SshMessageEnvelope → Outgoing
unfolding send_buffer
send_body script m =
    if ltb m.length (2 ^ 31)
    then send_buffer script (take m.length m.bytes)
    else record { is_sent = false; wire = []; script = script }

-- `LibassuanSocketEmulationClient::SendSshMessage`; `Connect` has sent the nonce.
unfoldable pub exchange_on_socket : Connection → SshMessageEnvelope → Exchanged
unfolding send_buffer send_body receive_reply
exchange_on_socket c m =
    let head = send_buffer c.writes (be32 m.length) in
    let body = send_body head.script m in
    if not c.opens
    then record { status = false; message = m; wire = [] }
    else if not head.is_sent
    then record { status = false; message = m; wire = head.wire }
    else if not body.is_sent
    then record { status = false; message = m; wire = head.wire ++ body.wire }
    else receive_reply c m.length (head.wire ++ body.wire)

abbrev keeps : SshMessageEnvelope → Bytes → Option Exchanged
keeps m wire = some (record { status = false; message = m; wire = wire })

-- The log line reads `data[0]` of the reply.
unfoldable pub read_body_from_pipe :
    List (Option ℕ) → ℕ → Bytes → SshMessageEnvelope → Bytes → Option Exchanged
unfolding read_buffer_from_pipe
read_body_from_pipe script n coming m wire =
    let r = read_buffer_from_pipe script n coming in
    if r.is_received
    then (head? r.bytes >>= λ first.
        some
          (record { status = true; message = record { length = n; bytes = r.bytes }; wire = wire }))
    else keeps m wire

unfoldable pub read_reply_from_pipe : Connection → SshMessageEnvelope → Bytes → Option Exchanged
unfolding read_buffer_from_pipe read_body_from_pipe
read_reply_from_pipe c m wire =
    let r = read_buffer_from_pipe c.reads header_size c.incoming in
    if r.is_received
    then read_body_from_pipe r.script (host_length r.bytes) r.incoming m wire
    else keeps m wire

-- The writes of the request; the second one is made only if the first one was whole.
unfoldable pub exchange_opened : Connection → SshMessageEnvelope → Option Exchanged
unfolding write_buffer_to_pipe read_reply_from_pipe
exchange_opened c m =
    let head = write_buffer_to_pipe c.writes (be32 m.length) in
    let body = write_buffer_to_pipe head.script m.bytes in
    if not head.is_sent
    then keeps m head.wire
    else if not body.is_sent
    then keeps m (head.wire ++ body.wire)
    else read_reply_from_pipe c m (head.wire ++ body.wire)

-- `Win32NamedPipeClient::SendSshMessage`; the log line reads `data[0]` of the request.
unfoldable pub exchange_on_pipe : Connection → SshMessageEnvelope → Option Exchanged
unfolding exchange_opened
exchange_on_pipe c m =
    if c.opens then (head? m.bytes >>= λ first. exchange_opened c m) else keeps m []

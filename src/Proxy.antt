-- ===== src/Proxy.antt =====
-- src/protocol/connection_manager/proxy.h and proxy.cpp: the state machine of one client connection,
-- from the handshake over reading a request to writing its reply. The system is outside: an
-- operation is told whether the read or write that it issues is accepted (`issued`: the call
-- succeeds or is pending), and returns what it asks of the system as `effects`, oldest first.
pub mod Receive
pub mod Send
pub mod Limits
pub mod EmptyMessage
mod Tests
use ssh_agent_bridge.Base.{
  ℕ, ◌+◌, ◌-◌, ◌*◌, ◌%◌, ◌^◌, Bool, true, false, not, ◌&&◌, List, [], ◌∷◌, ◌++◌, Option, none, some,
  ltb, leb, ◌==◌, if◌then◌else◌, length, take, drop, head?, min,
}
use ssh_agent_bridge.Wire.{Bytes, SshMessageEnvelope, u32_mod, max_message_size, header_size}
use ssh_agent_bridge.Wire.Words.{load_le, byte_swap}
use ssh_agent_bridge.Wire.RoundTrip.{be32}

abbrev pub max_buffer_size : ℕ
max_buffer_size = 4 * 1024

pub data State : Type 0 where
  initialized handshake ready read_header read_body wait_reply write_reply destroyed : State

-- What a step asks for: a read of so many bytes, a write, the message handed to the dispatcher, the
-- two calls of `Dispose`, and `faults` where the source reads `data[0]` of an empty vector or copies
-- from behind its end.
pub data Effect : Type 0 where
  reads : ℕ → Effect
  writes : Bytes → Effect
  receives : SshMessageEnvelope → Effect
  cancels_io removes_context faults : Effect

-- `int` fields are 32-bit patterns. `io_buffer` is the front of the buffer, as far as it was filled.
pub record ProxyIoContext : Type 0 where
  pub state : State
  pub message : SshMessageEnvelope
  pub io_data_offset : ℕ
  pub io_buffer_offset : ℕ
  pub io_need_bytes : ℕ
  pub io_buffer : Bytes

pub record Step : Type 0 where
  pub context : ProxyIoContext
  pub effects : List Effect

-- `ioNeedBytes -= transferred`, `ioNeedBytes < 0` and `ioNeedBytes > 0`, on the patterns.
abbrev pub sub_int : ℕ → ℕ → ℕ
sub_int a b = (a + u32_mod - b % u32_mod) % u32_mod

abbrev pub is_negative : ℕ → Bool
is_negative a = leb (2 ^ 31) a

abbrev pub is_positive : ℕ → Bool
is_positive a = ltb 0 a && ltb a (2 ^ 31)

dispose_at : State → ProxyIoContext → Step
dispose_at destroyed c = record { context = c; effects = [] }
dispose_at _ c = record {
  context = record c { state = destroyed };
  effects = cancels_io ∷ removes_context ∷ [];
}

unfoldable pub dispose : ProxyIoContext → Step
unfolding dispose_at
dispose c = dispose_at c.state c

abbrev behind : Effect → Step → Step
behind f s = record s { effects = f ∷ s.effects }

-- A read or write is issued; if the system refuses it, the connection goes.
unfoldable pub issue : Bool → Effect → ProxyIoContext → Step
unfolding dispose
issue issued f c = if issued then record { context = c; effects = f ∷ [] } else behind f (dispose c)

abbrev fault : ProxyIoContext → Step
fault c = record { context = c; effects = faults ∷ [] }

-- `case State::Ready`
unfoldable pub read_next : Bool → ProxyIoContext → Step
unfolding issue
read_next issued c = issue issued (reads header_size) (record c {
  state = read_header;
  io_need_bytes = header_size;
  message = record { length = c.message.length; bytes = [] };
})

-- `case State::ReadHeader`, behind the test of the transferred length.
unfoldable pub read_length : Bool → ℕ → ProxyIoContext → Step
unfolding issue
read_length issued n c =
    let c' = record c { message = record { length = n; bytes = c.message.bytes } } in
    if ltb max_message_size n
    then dispose c'
    else issue issued (reads (min max_buffer_size n)) (record c' { io_need_bytes = n })

unfoldable pub finish_header : Bool → ℕ → ProxyIoContext → Step
unfolding read_length
finish_header issued transferred c =
    let c' = record c { state = read_body; io_need_bytes = sub_int c.io_need_bytes transferred } in
    if not (c'.io_need_bytes == 0)
    then dispose c'
    else read_length issued (byte_swap 4 (load_le (take header_size c'.io_buffer))) c'

-- `case State::ReadBody`: the log line reads `data[0]` before the message is handed on.
unfoldable pub hand_on : Option ℕ → ProxyIoContext → Step
hand_on none c = fault c
hand_on (some first) c = record { context = c; effects = receives c.message ∷ [] }

unfoldable pub append_body : Bool → ℕ → ProxyIoContext → Step
unfolding issue hand_on
append_body issued transferred c =
    let need = sub_int c.io_need_bytes transferred in
    let message : SshMessageEnvelope = record {
      length = c.message.length;
      bytes = c.message.bytes ++ take transferred c.io_buffer;
    } in
    let grown = record c { io_need_bytes = need; message = message } in
    if is_negative need
    then dispose (record c { io_need_bytes = need })
    else if is_positive need
    then issue issued (reads (min max_buffer_size need)) grown
    else hand_on (head? grown.message.bytes) (record grown { state = wait_reply })

-- `case State::WaitReply`: the log line reads `data[0]` of the reply.
unfoldable pub write_first : Bool → Option ℕ → ProxyIoContext → Step
unfolding issue
write_first issued none c = fault c
write_first issued (some first) c =
    let need = (length c.message.bytes + header_size) % u32_mod in
    let offset = min max_buffer_size need - header_size in
    let buffer = be32 c.message.length ++ take offset c.message.bytes in
    issue issued (writes buffer) (record c {
      io_buffer_offset = header_size;
      io_need_bytes = need;
      io_data_offset = offset;
      io_buffer = buffer;
    })

-- `case State::WriteReply`: a copy from behind the vector's end is a fault.
unfoldable pub write_more : Bool → ℕ → ProxyIoContext → Step
unfolding issue
write_more issued need c =
    let count = min max_buffer_size need in
    let buffer = take count (drop c.io_data_offset c.message.bytes) in
    if leb (c.io_data_offset + count) (length c.message.bytes)
    then issue issued (writes buffer)
        (record c { io_data_offset = c.io_data_offset + count; io_buffer = buffer })
    else fault c

unfoldable pub finish_write : Bool → ℕ → ProxyIoContext → Step
unfolding write_more read_next
finish_write issued transferred c =
    let need = sub_int c.io_need_bytes transferred in
    let c' = record c { io_need_bytes = need } in
    if is_positive need
    then write_more issued need c'
    else read_next issued (record c' { state = ready })

-- What `DoHandshake` of the listener leaves.
pub record Handshaken : Type 0 where
  pub is_done : Bool
  pub context : ProxyIoContext
  pub effects : List Effect

abbrev after : List Effect → Step → Step
after es s = record s { effects = es ++ s.effects }

module _ (do_handshake : ProxyIoContext → ℕ → Handshaken) where
  unfoldable pub finish_handshake : Bool → ℕ → ProxyIoContext → Step
  unfolding read_next
  finish_handshake issued transferred c =
      let h = do_handshake c transferred in
      if h.is_done
      then after h.effects (read_next issued h.context)
      else record { context = h.context; effects = h.effects }

  unfoldable pub do_io_completion_at : State → Bool → ℕ → ProxyIoContext → Step
  unfolding finish_handshake read_next finish_header append_body write_first finish_write dispose
  do_io_completion_at handshake issued transferred c = finish_handshake issued transferred c
  do_io_completion_at ready issued transferred c = read_next issued c
  do_io_completion_at read_header issued transferred c = finish_header issued transferred c
  do_io_completion_at read_body issued transferred c = append_body issued transferred c
  do_io_completion_at wait_reply issued transferred c =
      write_first issued (head? c.message.bytes) (record c { state = write_reply })
  do_io_completion_at write_reply issued transferred c = finish_write issued transferred c
  do_io_completion_at _ issued transferred c = dispose c

  unfoldable pub do_io_completion : Bool → ℕ → ProxyIoContext → Step
  unfolding do_io_completion_at
  do_io_completion issued transferred c = do_io_completion_at c.state issued transferred c

  -- The reply callback, with the reply already in the context's message.
  unfoldable pub post_message_reply : Bool → SshMessageEnvelope → Bool → ProxyIoContext → Step
  unfolding do_io_completion
  post_message_reply issued message status c =
      let c' = record c { message = message } in
      if status then do_io_completion issued 0 c' else dispose c'

-- The system has read these bytes into the front of the buffer.
abbrev pub deliver : Bytes → ProxyIoContext → ProxyIoContext
deliver bs c = record c { io_buffer = bs ++ drop (length bs) c.io_buffer }

-- `DelegateConnection`: a new context, whose first step is the handshake's.
unfoldable pub new_context : ProxyIoContext
new_context = record {
  state = handshake;
  message = record { length = 0; bytes = [] };
  io_data_offset = 0;
  io_buffer_offset = 0;
  io_need_bytes = 0;
  io_buffer = [];
}

-- ===== src/PageantListener.antt =====
-- `ProcessRequest` of src/protocol/pageant/listener.cpp, which serves a request in the mapping of a client of
-- Pageant.
pub mod Served
mod Tests
use ssh_agent_bridge.Base.{
  ℕ, ◌+◌, ◌-◌, ◌%◌, Bool, true, false, not, ◌&&◌, ◌||◌, List, [], ◌∷◌, ◌++◌, Option, none, some,
  length, take, drop, head?, ltb, leb, if◌then◌else◌,
}
use ssh_agent_bridge.Wire.{Bytes, SshMessageEnvelope, header_size, size_mod}
use ssh_agent_bridge.Wire.RoundTrip.{be32}
use ssh_agent_bridge.Upstream.{host_length}
use ssh_agent_bridge.Upstream.Pageant.{max_pageant_message_size}

-- What the system says of a request: whether the name of the mapping ends in a zero, whether the mapping
-- can be opened, whether its owner is the user or the owner of this process, and its memory, if it
-- can be mapped.
pub record Request : Type 0 where
  pub is_terminated : Bool
  pub is_opened : Bool
  pub is_owner_accepted : Bool
  pub memory : Option Bytes

-- What the receive callback does with the message: it has the reply callback called later, from the
-- worker, or calls it at once, as `PostRequest` does when the dispatcher was stopped; with the status that
-- the reply callback is given, and the message by then.
pub data Reply : Type 0 where
  replies_later replies_at_once : Bool → SshMessageEnvelope → Reply

-- `msgMutex`, `messageOnAir` and `messageStatus`.
pub record Airing : Type 0 where
  pub msg_mutex : Bool
  pub message_on_air : Bool
  pub message_status : Bool

unfoldable pub unlock : Airing → Airing
unlock s = record s { msg_mutex = false }

-- `false`; the new memory, with `true`; an access outside the mapping or a vector; or the lock of a mutex
-- that the thread itself holds, for which `std::mutex` never returns.
pub data Outcome : Type 0 where
  refuses : Outcome
  answers : Bytes → Outcome
  faults : Outcome
  locks_itself : Outcome

-- A lock by this thread; a mutex that is locked is its own.
unfoldable pub lock : Airing → (Airing → Outcome) → Outcome
lock s k = if s.msg_mutex then locks_itself else k (record s { msg_mutex = true })

-- The reply callback, up to the end of the scope of its lock.
unfoldable pub reply_callback : Bool → Airing → (Airing → Outcome) → Outcome
unfolding lock unlock
reply_callback status s k =
    lock s λ s'. k (unlock (record s' { message_on_air = false; message_status = status }))

-- Behind the wait, where the reply has a first byte for the log line.
unfoldable pub write_reply : Bytes → SshMessageEnvelope → Outcome
write_reply memory m =
    if ltb max_pageant_message_size ((m.length + header_size) % size_mod)
    then refuses
    else if leb (header_size + length m.bytes) (length memory)
    then answers (be32 m.length ++ m.bytes ++ drop (header_size + length m.bytes) memory)
    else faults

with_first : Bytes → Outcome → Outcome
with_first [] k = faults
with_first (b ∷ bs) k = k

-- Behind the block in which the mutex is held.
unfoldable pub finish_request : Bytes → SshMessageEnvelope → Airing → Outcome
unfolding write_reply with_first
finish_request memory m s =
    if not s.message_status then refuses else with_first m.bytes (write_reply memory m)

-- `receiveCallback` and `msgCondition.wait`, with the mutex held. The wait releases it: a reply from the
-- worker comes then, and the wait ends when it has the mutex again.
unfoldable pub take_reply : Bytes → Airing → Reply → Outcome
unfolding reply_callback unlock lock finish_request
take_reply memory s (replies_at_once status m) =
    reply_callback status s λ s'. finish_request memory m (unlock s')
take_reply memory s (replies_later status m) =
    reply_callback status (unlock s) λ s'. lock s' λ t. finish_request memory m (unlock t)

-- No request is on air and no thread holds the mutex.
abbrev pub silent : Airing
silent = record { msg_mutex = false; message_on_air = false; message_status = false }

-- The listener: its flags, and the receive callback.
module _ (permission_check_flag cancel_flag : Bool)
    (receive_callback : SshMessageEnvelope → Reply) where
  -- The block in which the mutex is locked; nothing else holds it before. The assertion that no message
  -- is on air holds, since the window's thread serves one request after the other.
  unfoldable pub hand_on : Bytes → SshMessageEnvelope → Outcome
  unfolding take_reply with_first lock
  hand_on memory m = with_first m.bytes (
      lock silent λ s.
        if cancel_flag
        then refuses
        else take_reply memory (record s { message_on_air = true }) (receive_callback m))

  unfoldable pub read_request : Bytes → Outcome
  unfolding hand_on
  read_request memory =
      let n = host_length (take header_size memory) in
      if leb (header_size + n) (length memory)
      then hand_on memory (record { length = n; bytes = take n (drop header_size memory) })
      else faults

  unfoldable pub read_mapped : Option Bytes → Outcome
  unfolding read_request
  read_mapped none = refuses
  read_mapped (some memory) = read_request memory

  unfoldable pub process_mapping : Request → Outcome
  unfolding read_mapped
  process_mapping r =
      if not r.is_terminated
      then refuses
      else if not r.is_opened
      then refuses
      else if permission_check_flag && not r.is_owner_accepted
      then refuses
      else read_mapped r.memory

-- ===== src/Handshake.antt =====
-- `DoHandshake` of src/protocol/cygwin/listener.cpp and src/protocol/libassuan_socket_emulation/listener.cpp:
-- a client proves that it can read the socket's file by sending the nonce that stands in it. A call
-- is told whether the read or write that it issues is accepted, and how many bytes the last one
-- transferred; `own` and `server_info` are the listener's nonce and process info.
pub mod Admission
mod Tests
use ssh_agent_bridge.Base.{
  ℕ, zero, suc, Bool, true, false, not, List, [], ◌∷◌, ◌++◌, ◌==◌, length, drop, if◌then◌else◌,
}
use ssh_agent_bridge.Wire.{Bytes}
use ssh_agent_bridge.Proxy.{Effect, reads, writes}
use ssh_agent_bridge.Base.{equal}

abbrev pub nonce_length : ℕ
nonce_length = 16

abbrev pub info_length : ℕ
info_length = 12

-- The nonce of a new connection (`memset`).
abbrev pub zeros : ℕ → Bytes
zeros zero = []
zeros (suc n) = 0 ∷ zeros n

pub data State : Type 0 where
  start read_nonce write_nonce read_info write_info : State

-- The data that the listener keeps with a connection; libassuan uses the first two states, and no
-- info.
pub record ListenerData : Type 0 where
  pub state : State
  pub nonce : Bytes
  pub info : Bytes

-- What a call returns and leaves: `disposed` is a call of `context->Dispose()`.
pub record Answered : Type 0 where
  pub is_done : Bool
  pub disposed : Bool
  pub data_after : ListenerData
  pub effects : List Effect

-- A read or write is issued, and `false` is returned.
unfoldable pub issue : Bool → Effect → ListenerData → Answered
issue issued f d = record {
  is_done = false;
  disposed = not issued;
  data_after = d;
  effects = f ∷ [];
}

unfoldable pub dispose : ListenerData → Answered
dispose d = record { is_done = false; disposed = true; data_after = d; effects = [] }

unfoldable pub finish : ListenerData → Answered
finish d = record { is_done = true; disposed = false; data_after = d; effects = [] }

module _ (own : Bytes) (server_info : Bytes) where
  cygwin_at : State → Bool → ℕ → ListenerData → Answered
  unfolding issue dispose finish
  cygwin_at start issued transferred d =
      issue issued (reads nonce_length) (record d { state = read_nonce })
  cygwin_at read_nonce issued transferred d =
      if not (transferred == nonce_length)
      then dispose d
      else if not (equal d.nonce own)
      then dispose d
      else issue issued (writes own) (record d { state = write_nonce })
  cygwin_at write_nonce issued transferred d =
      if not (transferred == nonce_length)
      then dispose d
      else issue issued (reads info_length) (record d { state = read_info })
  cygwin_at read_info issued transferred d =
      if not (transferred == info_length)
      then dispose d
      else issue issued (writes server_info) (record d { state = write_info; info = server_info })
  cygwin_at write_info issued transferred d =
      if not (transferred == info_length) then dispose d else finish d

  unfoldable pub cygwin_do_handshake : Bool → ℕ → ListenerData → Answered
  unfolding cygwin_at
  cygwin_do_handshake issued transferred d = cygwin_at d.state issued transferred d

libassuan_at : Bytes → State → Bool → ℕ → ListenerData → Answered
unfolding issue dispose finish
libassuan_at own start issued transferred d =
    issue issued (reads nonce_length) (record d { state = read_nonce })
libassuan_at own read_nonce issued transferred d =
    if not (transferred == nonce_length)
    then dispose d
    else if not (equal d.nonce own)
    then dispose d
    else finish d
libassuan_at own _ issued transferred d = dispose d

unfoldable pub libassuan_do_handshake : Bytes → Bool → ℕ → ListenerData → Answered
unfolding libassuan_at
libassuan_do_handshake own issued transferred d = libassuan_at own d.state issued transferred d

-- What a completed read has put into the front of the buffer that was given to it.
fill_at : State → Bytes → ListenerData → ListenerData
fill_at read_nonce bs d = record d { nonce = bs ++ drop (length bs) d.nonce }
fill_at read_info bs d = record d { info = bs ++ drop (length bs) d.info }
fill_at _ bs d = d

unfoldable pub fill : Bytes → ListenerData → ListenerData
unfolding fill_at
fill bs d = fill_at d.state bs d

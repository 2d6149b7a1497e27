-- ===== src/Forwarding.antt =====
-- src/protocol/connection_manager/forwarding.h and .cpp: a connection whose bytes are copied to and from
-- the socket of a GnuPG agent. `DoForward` and `Dispose` with the two peers, `PreparePeer` and
-- `DoIoCompletion`. The listener's handshake, the connecting of a socket and its association with the
-- completion port are parameters.
pub mod Disposal
pub mod Peers
pub mod Copying
pub mod Starting
mod Tests
use ssh_agent_bridge.Base.{
  ℕ, zero, suc, ◌+◌, ◌-◌, Bool, true, false, not, ◌&&◌, List, [], ◌∷◌, ◌++◌, Option, none, some,
  ltb, ◌==◌, if◌then◌else◌, take, drop,
}
use ssh_agent_bridge.Base.Faults.{◌>>=◌}
use ssh_agent_bridge.Wire.{Bytes}
use ssh_agent_bridge.Proxy.{max_buffer_size}

pub data ContextState : Type 0 where
  initialized hand_shake established destroyed : ContextState

pub data State : Type 0 where
  initialized ready read write shutdown : State

-- The fields of one index. `need_transfer` is never negative, since a write transfers what it was
-- given at most. `buffer` is the front of the buffer, as far as it was filled.
pub record Peer : Type 0 where
  pub state : State
  pub is_socket : Bool
  pub need_transfer : ℕ
  pub buffer_offset : ℕ
  pub buffer : Bytes

pub record ForwardIoContext : Type 0 where
  pub context_state : ContextState
  pub first : Peer
  pub second : Peer

-- `false` is the peer of index 0. `writes i bs` goes to the other peer than `i`.
pub data Effect : Type 0 where
  reads : Bool → ℕ → Effect
  writes : Bool → Bytes → Effect
  shuts_receive shuts_send : Bool → Effect
  cancels_io removes_context : Effect

pub record Step : Type 0 where
  pub context : ForwardIoContext
  pub effects : List Effect

abbrev pub peer : Bool → ForwardIoContext → Peer
peer false c = c.first
peer true c = c.second

abbrev pub set_peer : Bool → Peer → ForwardIoContext → ForwardIoContext
set_peer false p c = record c { first = p }
set_peer true p c = record c { second = p }

dispose_at : ContextState → ForwardIoContext → Step
dispose_at destroyed c = record { context = c; effects = [] }
dispose_at _ c = record {
  context = record c { context_state = destroyed };
  effects = cancels_io ∷ removes_context ∷ [];
}

unfoldable pub dispose : ForwardIoContext → Step
unfolding dispose_at
dispose c = dispose_at c.context_state c

abbrev behind : Effect → Step → Step
behind f s = record s { effects = f ∷ s.effects }

is_shutdown : State → Bool
is_shutdown shutdown = true
is_shutdown _ = false

-- Behind the switch: both directions have ended.
unfoldable pub check_end : ForwardIoContext → Step
unfolding dispose is_shutdown
check_end c =
    if is_shutdown c.first.state && is_shutdown c.second.state
    then dispose c
    else record { context = c; effects = [] }

-- A read or write is issued; if the system refuses it, the context goes, as `refused` left it.
unfoldable pub issue : Bool → Effect → ForwardIoContext → ForwardIoContext → Step
unfolding dispose check_end
issue issued f refused c = if issued then behind f (check_end c) else behind f (dispose refused)

-- `case State::Ready`
unfoldable pub forward_ready : Bool → Bool → ForwardIoContext → Step
unfolding issue
forward_ready i issued c =
    issue issued (reads i max_buffer_size) c (set_peer i (record (peer i c) { state = read }) c)

-- The end of the stream is passed on.
unfoldable pub forward_end : Bool → ForwardIoContext → Step
unfolding check_end
forward_end i c =
    let s = check_end (set_peer i (record (peer i c) { state = shutdown }) c) in
    let s' = if (peer (not i) c).is_socket then behind (shuts_send (not i)) s else s in
    if (peer i c).is_socket then behind (shuts_receive i) s' else s'

unfoldable pub forward_read : Bool → Bool → ℕ → ForwardIoContext → Step
unfolding issue forward_end
forward_read i issued transferred c =
    let p = record (peer i c) { need_transfer = transferred; buffer_offset = 0; state = write } in
    if transferred == 0
    then forward_end i c
    else issue issued (writes i (take transferred p.buffer)) (set_peer i p c) (set_peer i p c)

unfoldable pub forward_write : Bool → Bool → ℕ → ForwardIoContext → Step
unfolding issue forward_ready
forward_write i issued transferred c =
    let p = peer i c in
    let need = p.need_transfer - transferred in
    let offset = p.buffer_offset + transferred in
    let more = set_peer i (record p { need_transfer = need; buffer_offset = offset }) c in
    let sent = set_peer i (record p { need_transfer = need; state = ready }) c in
    if ltb 0 need
    then issue issued (writes i (take need (drop offset p.buffer))) more more
    else forward_ready i issued sent

forward_at : State → Bool → Bool → ℕ → ForwardIoContext → Step
unfolding forward_ready forward_read forward_write dispose
forward_at ready i issued transferred c = forward_ready i issued c
forward_at read i issued transferred c = forward_read i issued transferred c
forward_at write i issued transferred c = forward_write i issued transferred c
forward_at _ i issued transferred c = dispose c

unfoldable pub do_forward : Bool → Bool → ℕ → ForwardIoContext → Step
unfolding forward_at
do_forward i issued transferred c = forward_at (peer i c).state i issued transferred c

-- `targetMap`, with the listeners by number: the first target of a listener.
unfoldable pub target_of : ℕ → List (ℕ × Bytes) → Option Bytes
target_of listener [] = none
target_of listener ((l, target) ∷ more) =
    let later = target_of listener more in if l == listener then some target else later

-- What `DoHandshake` of the listener leaves.
pub record Handshaken : Type 0 where
  pub is_done : Bool
  pub context : ForwardIoContext
  pub effects : List Effect

is_destroyed : ContextState → Bool
is_destroyed destroyed = true
is_destroyed _ = false

-- `listener` and `handle_is_socket` are fields of the connection that do not change; `connects` says
-- whether a target can be connected to, and `is_associated` whether its handle can be associated.
module _ (do_handshake : ForwardIoContext → ℕ → Handshaken) (targets : List (ℕ × Bytes))
    (connects : Bytes → Bool) (is_associated : Bool) (listener : ℕ) (handle_is_socket : Bool) where
  unfoldable pub prepare_peer : ForwardIoContext → Option ForwardIoContext
  unfolding target_of
  prepare_peer c = target_of listener targets >>= λ target.
      if connects target && is_associated
      then some (record c {
        first = record c.first { state = ready; is_socket = handle_is_socket };
        second = record c.second { state = ready; is_socket = true };
      })
      else none

  -- A step of the loop over the peers; `k` is the rest.
  start_peer : Bool → Bool → (ForwardIoContext → Step) → ForwardIoContext → Step
  unfolding do_forward is_destroyed
  start_peer i issued k c =
      let s = do_forward i issued 0 c in
      let t = k s.context in
      if is_destroyed c.context_state
      then record { context = c; effects = [] }
      else record { context = t.context; effects = s.effects ++ t.effects }

  -- Behind the loop.
  establish : ForwardIoContext → Step
  establish c = record { context = record c { context_state = established }; effects = [] }

  -- The first reads of both peers; `issued` says which of them the system accepts.
  unfoldable pub start_forward : (Bool → Bool) → ForwardIoContext → Step
  unfolding start_peer establish
  start_forward issued c =
      start_peer false (issued false) (start_peer true (issued true) establish) c

  unfoldable pub connect_peer : (Bool → Bool) → ForwardIoContext → Option ForwardIoContext → Step
  unfolding dispose start_forward
  connect_peer issued c none = dispose c
  connect_peer issued c (some c') = start_forward issued c'

  unfoldable pub finish_handshake : (Bool → Bool) → ℕ → ForwardIoContext → Step
  unfolding connect_peer prepare_peer
  finish_handshake issued transferred c =
      let h = do_handshake c transferred in
      let s = connect_peer issued h.context (prepare_peer h.context) in
      if h.is_done
      then record { context = s.context; effects = h.effects ++ s.effects }
      else record { context = h.context; effects = h.effects }

  -- `which` is the peer whose `OVERLAPPED` completed, if it is one of them.
  unfoldable pub forward_which : Option Bool → (Bool → Bool) → ℕ → ForwardIoContext → Step
  unfolding do_forward dispose
  forward_which none issued transferred c = dispose c
  forward_which (some i) issued transferred c = do_forward i (issued i) transferred c

  do_io_completion_at : ContextState → Option Bool → (Bool → Bool) → ℕ → ForwardIoContext → Step
  unfolding finish_handshake forward_which dispose
  do_io_completion_at hand_shake which issued transferred c = finish_handshake issued transferred c
  do_io_completion_at established which issued transferred c =
      forward_which which issued transferred c
  do_io_completion_at _ which issued transferred c = dispose c

  unfoldable pub do_io_completion : Option Bool → (Bool → Bool) → ℕ → ForwardIoContext → Step
  unfolding do_io_completion_at
  do_io_completion which issued transferred c =
      do_io_completion_at c.context_state which issued transferred c

-- ===== src/Listening.antt =====
-- The loops in which the listeners accept connections: src/protocol/unix/listener.cpp, and in the same words
-- src/protocol/libassuan_socket_emulation/listener.cpp and src/protocol/cygwin/listener.cpp; src/protocol/hyperv/listener.cpp, which follows a
-- virtual machine; and src/protocol/namedpipe/listener.cpp. What the waits return is given as a script; where
-- it ends, the loop still waits.
pub mod Settled
pub mod Following
mod Tests
use ssh_agent_bridge.Base.{
  ℕ, Bool, true, false, not, ◌||◌, ◌&&◌, List, [], ◌∷◌, ◌++◌, Option, none, some, ◌==◌,
  if◌then◌else◌,
}

-- `accept`, with the answer of `DelegateConnection` to the socket.
pub data Accept : Type 0 where
  accept_fails : Accept
  accepted : ℕ → Bool → Accept

-- `WSAEnumNetworkEvents`: an error, or the flags, with what `accept` returns on its flag.
pub data NetworkEvents : Type 0 where
  enumeration_fails : NetworkEvents
  has_closed : NetworkEvents
  has_accept : Accept → NetworkEvents
  has_none : NetworkEvents

-- `WSAWaitForMultipleEvents`. Only the Hyper-V listener waits for the third event: the machine has
-- changed to the one given, a socket for it can be built or not, and its events selected or not.
pub data Wait : Type 0 where
  cancelled : Wait
  wait_fails : Wait
  network : NetworkEvents → Wait
  notified : ℕ → Bool → Bool → Wait

pub data Ending : Type 0 where
  returns : Bool → Ending
  waits : Ending

-- A handle is opened, the connection manager takes it over, or it is closed.
pub data Effect : Type 0 where
  opens hands_over closes : ℕ → Effect

pub record Listened : Type 0 where
  pub effects : List Effect
  pub ending : Ending

abbrev pub stops : Bool → Listened
stops b = record { effects = []; ending = returns b }

abbrev pub before : List Effect → Listened → Listened
before es l = record { effects = es ++ l.effects; ending = l.ending }

unfoldable pub handle_accept : Accept → List Effect
handle_accept accept_fails = []
handle_accept (accepted s true) = opens s ∷ hands_over s ∷ []
handle_accept (accepted s false) = opens s ∷ closes s ∷ []

-- `k` is the rest of the loop.
unfoldable pub handle_network : NetworkEvents → Listened → Listened
unfolding handle_accept
handle_network enumeration_fails k = stops false
handle_network has_closed k = stops false
handle_network (has_accept a) k = before (handle_accept a) k
handle_network has_none k = k

-- The loop of the listeners of sockets.
unfoldable pub listen_loop : List Wait → Listened
unfolding handle_network
listen_loop [] = record { effects = []; ending = waits }
listen_loop (cancelled ∷ ws) = stops true
listen_loop (wait_fails ∷ ws) = stops false
listen_loop (network n ∷ ws) = handle_network n (listen_loop ws)
listen_loop (notified vmid built selected ∷ ws) = stops false

-- The Hyper-V listener: the machine, and the one that its socket listens for, if it has a socket.
-- The machine 0 is `GUID_NULL`.
pub record Binding : Type 0 where
  pub vmid : ℕ
  pub socket : Option ℕ
  pub socket_good : Bool

pub record Followed : Type 0 where
  pub listened : Listened
  pub binding : Binding

abbrev pub stays : Listened → Binding → Followed
stays l b = record { listened = l; binding = b }

-- A socket that is built for a machine.
unfoldable pub bind_to : ℕ → Bool → Binding
bind_to vmid built = record {
  vmid = vmid;
  socket = if built then some vmid else none;
  socket_good = built;
}

-- The branch of the third event; `k` is the rest of the loop.
unfoldable pub rebind : ℕ → Bool → Bool → Binding → (Binding → Followed) → Followed
unfolding bind_to
rebind vmid built selected b k =
    let b' = bind_to vmid built in
    let next = k b' in
    let same = k b in
    if not (b.vmid == vmid) || not b.socket_good
    then (if built && not selected
        then stays (stops false) (record b' { socket_good = b.socket_good })
        else next)
    else same

unfoldable pub hyper_v_network : NetworkEvents → Binding → Followed → Followed
unfolding handle_network
hyper_v_network n b k = go n
  where
    go : NetworkEvents → Followed
    go enumeration_fails = stays (stops false) b
    go has_closed = stays (stops false) b
    go (has_accept a) = stays (handle_network (has_accept a) k.listened) k.binding
    go has_none = k

unfoldable pub hyper_v_loop : List Wait → Binding → Followed
unfolding rebind hyper_v_network
hyper_v_loop [] b = stays (record { effects = []; ending = waits }) b
hyper_v_loop (cancelled ∷ ws) b = stays (stops true) b
hyper_v_loop (wait_fails ∷ ws) b = stays (stops false) b
hyper_v_loop (network n ∷ ws) b = hyper_v_network n b (hyper_v_loop ws b)
hyper_v_loop (notified vmid built selected ∷ ws) b = rebind vmid built selected b (hyper_v_loop ws)

-- The start of the listener, up to the loop. A listener for WSL 2 may start without a socket.
unfoldable pub start_hyper_v : Bool → ℕ → Bool → Bool → List Wait → Followed
unfolding hyper_v_loop bind_to
start_hyper_v wsl2 vmid built selected ws =
    let b = bind_to vmid ((not (vmid == 0) || not wsl2) && built) in
    let run = hyper_v_loop ws b in
    if b.socket_good
    then (if selected then run else stays (stops false) b)
    else if wsl2
    then run
    else stays (stops false) b

-- A round of the pipe listener, for the pipe it creates: `ConnectNamedPipe` returns at once, fails, is
-- pending, or reports that a client was there before (`SetEvent` is then called on a handle that is never
-- assigned). In the last two cases the listener waits for `cancelEvent` and the event of the overlapped
-- operation, and `connected` has the answer of `DelegateConnection`.
pub data Waited : Type 0 where
  wait_cancelled wait_failed still_waits : Waited
  connected : Bool → Waited

pub data Round : Type 0 where
  no_pipe : Round
  connects_at_once connect_fails : ℕ → Round
  pending connected_before : ℕ → Waited → Round

-- What the rest of the round does in the scope of `pipeGuard`: its effects, whether it releases the
-- guard, and how the listener ends in it, unless it goes on to the next round.
pub record InScope : Type 0 where
  pub effects : List Effect
  pub is_released : Bool
  pub ending : Option Ending

-- `DelegateConnection`, and the release of the guard.
unfoldable pub delegate_pipe : ℕ → Bool → InScope
delegate_pipe p taken =
    if taken
    then record { effects = hands_over p ∷ []; is_released = true; ending = none }
    else record { effects = []; is_released = false; ending = none }

abbrev ends : Ending → InScope
ends e = record { effects = []; is_released = false; ending = some e }

unfoldable pub wait_for_client : ℕ → Waited → InScope
unfolding delegate_pipe
wait_for_client p wait_cancelled = ends (returns true)
wait_for_client p wait_failed = record { effects = []; is_released = false; ending = none }
wait_for_client p still_waits = ends waits
wait_for_client p (connected taken) = delegate_pipe p taken

-- The guard's destructor: on each way out of the scope, it closes the pipe unless it was released.
leave : ℕ → List Effect → Bool → Option Ending → Listened → Listened
leave p es released none k = before (opens p ∷ es ++ (if released then [] else closes p ∷ [])) k
leave p es released (some (returns b)) k =
    before (opens p ∷ es ++ (if released then [] else closes p ∷ [])) (stops b)
leave p es released (some waits) k = record { effects = opens p ∷ es; ending = waits }

-- The pipe is opened, and the scope of its guard is run and left; `k` is the rest of the loop.
unfoldable pub guarded : ℕ → InScope → Listened → Listened
unfolding leave
guarded p s k = leave p s.effects s.is_released s.ending k

unfoldable pub pipe_loop : List Round → Listened
unfolding guarded wait_for_client
pipe_loop [] = record { effects = []; ending = waits }
pipe_loop (no_pipe ∷ rs) = stops false
pipe_loop (connects_at_once p ∷ rs) = guarded p (ends (returns false)) (pipe_loop rs)
pipe_loop (connect_fails p ∷ rs) = guarded p (ends (returns false)) (pipe_loop rs)
pipe_loop (pending p w ∷ rs) = guarded p (wait_for_client p w) (pipe_loop rs)
pipe_loop (connected_before p w ∷ rs) = guarded p (wait_for_client p w) (pipe_loop rs)

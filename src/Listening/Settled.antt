-- ===== src/Listening/Settled.antt =====
-- No handle is lost by a loop.
use ssh_agent_bridge.Base.{ℕ, ◌≡◌, refl, true, false, List, [], ◌∷◌}
use ssh_agent_bridge.Listening.{
  Accept, accept_fails, accepted, NetworkEvents, enumeration_fails, has_closed, has_accept,
  has_none, Wait, cancelled, wait_fails, network, notified, Ending, waits, Effect, opens,
  hands_over, closes, Listened, before, handle_accept, handle_network, listen_loop, Waited,
  wait_cancelled, wait_failed, still_waits, connected, Round, no_pipe, connects_at_once,
  connect_fails, pending, connected_before, delegate_pipe, wait_for_client, leave, guarded,
  pipe_loop,
}

-- Each handle is handed over or closed before the next one is opened; the last one may be in use where
-- the loop still waits.
abbrev pub IsSettled : List Effect → Ending → Type 0
IsSettled [] end = Unit
IsSettled (opens s ∷ []) end = end ≡ waits
IsSettled (opens s ∷ hands_over t ∷ es) end = (s ≡ t) × IsSettled es end
IsSettled (opens s ∷ closes t ∷ es) end = (s ≡ t) × IsSettled es end
IsSettled _ end = ⊥

abbrev pub AllSettled : Listened → Type 0
AllSettled l = IsSettled l.effects l.ending

handle_accept-IsSettled :
    (a : Accept) (l : Listened) → AllSettled l → AllSettled (before (handle_accept a) l)
unfolding handle_accept
handle_accept-IsSettled accept_fails l h = h
handle_accept-IsSettled (accepted s true) l h = (refl, h)
handle_accept-IsSettled (accepted s false) l h = (refl, h)

pub handle_network-IsSettled :
    (n : NetworkEvents) (l : Listened) → AllSettled l → AllSettled (handle_network n l)
unfolding handle_network
handle_network-IsSettled enumeration_fails l h = tt
handle_network-IsSettled has_closed l h = tt
handle_network-IsSettled (has_accept a) l h = handle_accept-IsSettled a l h
handle_network-IsSettled has_none l h = h

pub listen_loop-IsSettled : (ws : List Wait) → AllSettled (listen_loop ws)
unfolding listen_loop
listen_loop-IsSettled [] = tt
listen_loop-IsSettled (cancelled ∷ ws) = tt
listen_loop-IsSettled (wait_fails ∷ ws) = tt
listen_loop-IsSettled (network n ∷ ws) =
    handle_network-IsSettled n (listen_loop ws) (listen_loop-IsSettled ws)
listen_loop-IsSettled (notified vmid built selected ∷ ws) = tt

wait_for_client-IsSettled :
    (p : ℕ) (w : Waited) (l : Listened)
    → AllSettled l
    → AllSettled (guarded p (wait_for_client p w) l)
unfolding guarded leave wait_for_client delegate_pipe
wait_for_client-IsSettled p wait_cancelled l h = (refl, tt)
wait_for_client-IsSettled p wait_failed l h = (refl, h)
wait_for_client-IsSettled p still_waits l h = refl
wait_for_client-IsSettled p (connected true) l h = (refl, h)
wait_for_client-IsSettled p (connected false) l h = (refl, h)

pub pipe_loop-IsSettled : (rs : List Round) → AllSettled (pipe_loop rs)
unfolding pipe_loop guarded leave
pipe_loop-IsSettled [] = tt
pipe_loop-IsSettled (no_pipe ∷ rs) = tt
pipe_loop-IsSettled (connects_at_once p ∷ rs) = (refl, tt)
pipe_loop-IsSettled (connect_fails p ∷ rs) = (refl, tt)
pipe_loop-IsSettled (pending p w ∷ rs) =
    wait_for_client-IsSettled p w (pipe_loop rs) (pipe_loop-IsSettled rs)
pipe_loop-IsSettled (connected_before p w ∷ rs) =
    wait_for_client-IsSettled p w (pipe_loop rs) (pipe_loop-IsSettled rs)

-- Whatever the waits and the calls of the system return, the loop of the socket listeners and that of the
-- pipe listener lose no connection: each handle of one that they open is handed over to the connection manager or closed before the next one is opened, except for a pipe
-- on which it still waits.
pub loops-IsSettled :
    (ws : List Wait) (rs : List Round) → AllSettled (listen_loop ws) × AllSettled (pipe_loop rs)
loops-IsSettled ws rs = (listen_loop-IsSettled ws, pipe_loop-IsSettled rs)

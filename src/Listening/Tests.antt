-- ===== src/Listening/Tests.antt =====
-- Some runs of the loops, and the witnesses.
use ssh_agent_bridge.Base.{◌≡◌, refl, true, false, List, [], ◌∷◌, some}
use ssh_agent_bridge.Listening.{
  accepted, has_accept, Wait, cancelled, network, notified, connected, Round, pending,
  connected_before, still_waits, listen_loop, pipe_loop, start_hyper_v, bind_to, rebind,
  hyper_v_network, hyper_v_loop,
}
use ssh_agent_bridge.Listening.Settled.{AllSettled, loops-IsSettled}
use ssh_agent_bridge.Listening.Following.{Follows, last_machine, start_hyper_v-Follows}

abbrev two_clients : List Wait
two_clients =
    network (has_accept (accepted 4 true))
    ∷ network (has_accept (accepted 5 false))
    ∷ cancelled
    ∷ []

abbrev early_client : List Round
early_client =
    pending 4 (connected true)
    ∷ connected_before 5 (connected false)
    ∷ connected_before 6 still_waits
    ∷ []

loops-IsSettled_example : AllSettled (listen_loop two_clients) × AllSettled (pipe_loop early_client)
loops-IsSettled_example = loops-IsSettled two_clients early_client

-- WSL is not running at first; its machine is then 7, and later 8, for which no socket can be built.
abbrev machines : List Wait
machines =
    notified 7 true true
    ∷ network (has_accept (accepted 4 true))
    ∷ notified 8 false false
    ∷ notified 8 true true
    ∷ []

start_hyper_v-Follows_example :
    Follows (last_machine machines 0) (start_hyper_v true 0 true true machines)
start_hyper_v-Follows_example = start_hyper_v-Follows true 0 true true machines

bound_to_8 :
    (start_hyper_v true 0 true true machines).binding
    ≡ record { vmid = 8; socket = some 8; socket_good = true }
unfolding start_hyper_v bind_to rebind hyper_v_network hyper_v_loop
bound_to_8 = refl

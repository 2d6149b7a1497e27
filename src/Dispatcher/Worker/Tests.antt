-- ===== src/Dispatcher/Worker/Tests.antt =====
-- A short life of the queue.
use ssh_agent_bridge.Base.{
  ◌+◌, ◌*◌, ◌≤◌, ◌≡◌, refl, Bool, true, false, List, [], ◌∷◌, length, arith,
}
use ssh_agent_bridge.Dispatcher.Worker.{
  finished, Queue, new_queue, start, stop, post_request, worker_step, worker_step_at, take_message,
  is_empty, destroy, Runs, created, posts, starts, works, stops, IsJoined, joined,
}
use ssh_agent_bridge.Dispatcher.Worker.Replies.{count, count_replies, destroy-replies}
use ssh_agent_bridge.Dispatcher.Worker.Stops.{run_worker, steps_left, IsStopping, run_worker-stops}

-- Two requests come in, the worker takes the later one, and is stopped while it works on it.
abbrev taken : Queue
taken = worker_step true (worker_step true (start (post_request 8 (post_request 7 new_queue))))

abbrev ended : Queue
ended = worker_step true (
    worker_step true
      (worker_step true (worker_step true (worker_step true (worker_step true (stop taken))))))

taken-Runs : Runs (8 ∷ 7 ∷ []) taken
unfolding post_request new_queue
taken-Runs = works true (works true (starts refl (posts 8 (posts 7 created))))

ended-Runs : Runs (8 ∷ 7 ∷ []) ended
ended-Runs =
    works true (works true (works true (works true (works true (works true (stops taken-Runs))))))

ended-IsJoined : IsJoined ended.worker
unfolding worker_step worker_step_at stop start post_request new_queue take_message is_empty
ended-IsJoined = joined

destroy-replies_example :
    (count_replies 7 (destroy ended).replies ≡ count 7 (8 ∷ 7 ∷ []))
    × ((destroy ended).message_list ≡ [])
destroy-replies_example = destroy-replies 7 (8 ∷ 7 ∷ []) ended ended-Runs ended-IsJoined

abbrev statuses : List Bool
statuses = true ∷ false ∷ true ∷ true ∷ true ∷ true ∷ []

taken-IsStopping : IsStopping (stop taken)
unfolding worker_step worker_step_at stop start post_request new_queue take_message is_empty
taken-IsStopping = record { cancelled = refl; started = λ e. cc }

taken-steps : steps_left (stop taken) ≤ length statuses
unfolding worker_step worker_step_at stop start post_request new_queue take_message is_empty
taken-steps = omega arith

run_worker-stops_example :
    (steps_left (stop taken) ≤ 2 * length (stop taken).message_list + 4)
    × ((run_worker statuses (stop taken)).worker ≡ finished)
run_worker-stops_example = run_worker-stops statuses (stop taken) taken-IsStopping taken-steps

-- ===== src/Dispatcher/Worker/Stops.antt =====
-- A worker that is told to stop does stop.
use ssh_agent_bridge.Base.{
  ℕ, ◌+◌, ◌*◌, ◌≤◌, ◌≡◌, ◌≢◌, refl, ◌⊎◌, inl, inr, Bool, true, false, List, [], ◌∷◌, length, arith,
}
use ssh_agent_bridge.Dispatcher.Worker.{
  Worker, not_started, at_outer, at_inner, waiting, finished, processing, Queue, worker_step,
  worker_step_at, take_message, is_empty,
}

-- The worker's steps, one for each status of `ProcessRequest` (most steps do not look at it).
abbrev pub run_worker : List Bool → Queue → Queue
run_worker [] q = q
run_worker (status ∷ ss) q = run_worker ss (worker_step status q)

-- A bound on the steps that a cancelled worker has left: two for each message, and the way out.
abbrev pub steps_left_at : Worker → ℕ → ℕ
steps_left_at not_started n = 0
steps_left_at at_outer n = 1
steps_left_at at_inner n = 2 * n + 3
steps_left_at (processing m) n = 2 * n + 4
steps_left_at waiting n = 2
steps_left_at finished n = 0

abbrev pub steps_left : Queue → ℕ
steps_left q = steps_left_at q.worker (length q.message_list)

-- Started, and told to stop.
pub record IsStopping (q : Queue) : Type 0 where
  pub cancelled : q.cancel_flag ≡ true
  pub started : q.worker ≢ not_started

abbrev Progress : Queue → Queue → Type 0
Progress q q' = IsStopping q' × ((steps_left q' + 1 ≤ steps_left q) ⊎ (q'.worker ≡ finished))

step_at :
    (w : Worker) (ms : List ℕ) (c : Bool) (rs : List (ℕ × Bool)) (status : Bool)
    → c ≡ true
    → w ≢ not_started
    → let q : Queue = record { message_list = ms; cancel_flag = c; worker = w; replies = rs } in
      Progress q (worker_step status q)
unfolding worker_step worker_step_at take_message is_empty
step_at w ms false rs status c n = cc
step_at not_started ms true rs status c n = absurd (n refl)
step_at at_outer ms true rs status c n = (record { cancelled = refl; started = λ b. cc }, inr refl)
step_at at_inner [] true rs status c n =
    (record { cancelled = refl; started = λ b. cc }, inl (omega arith))
step_at at_inner (m ∷ ms) true rs status c n =
    (record { cancelled = refl; started = λ b. cc }, inl (omega arith))
step_at (processing m) ms true rs status c n =
    (record { cancelled = refl; started = λ b. cc }, inl (omega arith))
step_at waiting [] true rs status c n =
    (record { cancelled = refl; started = λ b. cc }, inl (omega arith))
step_at waiting (m ∷ ms) true rs status c n =
    (record { cancelled = refl; started = λ b. cc }, inl (omega arith))
step_at finished ms true rs status c n = (record { cancelled = refl; started = λ b. cc }, inr refl)

worker_step-Progress :
    (status : Bool) (q : Queue) → IsStopping q → Progress q (worker_step status q)
worker_step-Progress status q h =
    step_at q.worker q.message_list q.cancel_flag q.replies status h.cancelled h.started

finished-stays :
    (w : Worker) (status : Bool) (q : Queue)
    → w ≡ finished
    → q.worker ≡ w
    → (worker_step_at w status q).worker ≡ finished
unfolding worker_step_at
finished-stays finished status q e f = f
finished-stays not_started status q e f = cc
finished-stays at_outer status q e f = cc
finished-stays at_inner status q e f = cc
finished-stays waiting status q e f = cc
finished-stays (processing m) status q e f = cc

run_worker-finished :
    (ss : List Bool) (q : Queue) → q.worker ≡ finished → (run_worker ss q).worker ≡ finished
unfolding worker_step
run_worker-finished [] q e = e
run_worker-finished (s ∷ ss) q e =
    run_worker-finished ss (worker_step s q) (finished-stays q.worker s q e refl)

at_end : (w : Worker) (n : ℕ) → steps_left_at w n ≤ 0 → w ≢ not_started → w ≡ finished
at_end not_started n h ne = absurd (ne refl)
at_end finished n h ne = refl
at_end _ n h ne = absurd (omega arith)

ends :
    (ss : List Bool) (q : Queue)
    → IsStopping q
    → steps_left q ≤ length ss
    → (run_worker ss q).worker ≡ finished
ends [] q h enough = at_end q.worker (length q.message_list) enough h.started
ends (s ∷ ss) q h enough =
    let (h', next) = worker_step-Progress s q h in
    elim next [
      | inl fewer ↦ ends ss (worker_step s q) h' (omega arith)
      | inr out ↦ run_worker-finished ss (worker_step s q) out
    ]

-- A worker that was started and told to stop ends: two steps for each message that is still queued
-- and four more are enough, whatever the status of each request. `steps_left` says how many exactly
-- suffice at each point of the loop.
pub run_worker-stops :
    (ss : List Bool) (q : Queue)
    → IsStopping q
    → steps_left q ≤ length ss
    → (steps_left q ≤ 2 * length q.message_list + 4) × ((run_worker ss q).worker ≡ finished)
run_worker-stops ss q h enough = (bound q.worker, ends ss q h enough)
  where
    bound : (w : Worker) → steps_left_at w (length q.message_list) ≤ 2 * length q.message_list + 4
    bound not_started = omega arith
    bound _ = omega arith

-- ===== src/Dispatcher/Worker/Replies.antt =====
-- Every request that is posted gets one reply.
use ssh_agent_bridge.Base.{
  ℕ, ◌+◌, ◌≡◌, refl, Bool, false, List, [], ◌∷◌, ◌==◌, if◌then◌else◌, arith,
}
use ssh_agent_bridge.Dispatcher.Worker.{
  Worker, not_started, at_outer, at_inner, waiting, finished, processing, Queue, new_queue,
  post_request, start, stop, worker_step, worker_step_at, take_message, drain, destroy, IsJoined,
  never, joined, Runs, created, posts, starts, works, stops,
}

abbrev pub count : ℕ → List ℕ → ℕ
count a [] = 0
count a (m ∷ ms) = (if a == m then 1 else 0) + count a ms

-- How often the request `a` has been replied to.
abbrev pub count_replies : ℕ → List (ℕ × Bool) → ℕ
count_replies a [] = 0
count_replies a ((m, status) ∷ rs) = (if a == m then 1 else 0) + count_replies a rs

abbrev count_worker : ℕ → Worker → ℕ
count_worker a (processing m) = if a == m then 1 else 0
count_worker a _ = 0

-- Each request is replied to, in the queue, or with the worker.
abbrev Balanced : ℕ → List ℕ → Queue → Type 0
Balanced a posted q =
    count a posted ≡ count_replies a q.replies + count a q.message_list + count_worker a q.worker

module _ (a : ℕ) where
  take_message-count :
      (ms : List ℕ) (q : Queue)
      → count_replies a (take_message ms (record q { message_list = ms })).replies
          + count a (take_message ms (record q { message_list = ms })).message_list
          + count_worker a (take_message ms (record q { message_list = ms })).worker
        ≡ count_replies a q.replies + count a ms
  unfolding take_message
  take_message-count [] q = omega arith
  take_message-count (m ∷ ms) q = omega arith

  worker_step_at-Balanced :
      (w : Worker) (posted : List ℕ) (status : Bool) (q : Queue)
      → q.worker ≡ w
      → Balanced a posted q
      → Balanced a posted (worker_step_at w status q)
  unfolding worker_step_at
  worker_step_at-Balanced not_started posted status q e h = h
  worker_step_at-Balanced at_outer posted status q e h = ground (arith, rw e at h)
  worker_step_at-Balanced at_inner posted status q e h =
      omega (arith, take_message-count q.message_list q, rw e at h)
  worker_step_at-Balanced (processing m) posted status q e h = ground (arith, rw e at h)
  worker_step_at-Balanced waiting posted status q e h = ground (arith, rw e at h)
  worker_step_at-Balanced finished posted status q e h = h

  drain-count :
      (ms : List ℕ) (rs : List (ℕ × Bool))
      → count_replies a (drain ms rs) ≡ count_replies a rs + count a ms
  unfolding drain
  drain-count [] rs = omega arith
  drain-count (m ∷ ms) rs = omega (arith, drain-count ms ((m, false) ∷ rs))

  Runs-Balanced : {posted : List ℕ} {q : Queue} → Runs posted q → Balanced a posted q
  unfolding new_queue post_request start worker_step stop
  Runs-Balanced created = refl
  Runs-Balanced (posts {posted} {q} m r) = ground (arith, Runs-Balanced r)
  Runs-Balanced (starts {posted} {q} e r) = ground (arith, rw e at (Runs-Balanced r))
  Runs-Balanced (works {posted} {q} status r) =
      worker_step_at-Balanced q.worker posted status q refl (Runs-Balanced r)
  Runs-Balanced (stops r) = Runs-Balanced r

-- However posts, the start, steps of the worker and stops interleave: once the worker is joined (or
-- if it was never started) and the destructor has run, each request has been replied to exactly as
-- often as it was posted, and none is left in the queue.
pub destroy-replies :
    (a : ℕ) (posted : List ℕ) (q : Queue)
    → Runs posted q
    → IsJoined q.worker
    → (count_replies a (destroy q).replies ≡ count a posted) × ((destroy q).message_list ≡ [])
unfolding destroy
destroy-replies a posted q r joined_worker = (
  omega (
    arith,
    drain-count a q.message_list q.replies,
    Runs-Balanced a r,
    idle q.worker joined_worker,
  ),
  refl,
)
  where
    idle : (w : Worker) → IsJoined w → count_worker a w ≡ 0
    idle _ never = refl
    idle _ joined = refl

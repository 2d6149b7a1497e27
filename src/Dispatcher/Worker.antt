-- ===== src/Dispatcher/Worker.antt =====
-- The request queue of src/message_dispatcher.cpp: `PostRequest`, the worker thread of `Start`,
-- `Stop` and the destructor. A request is a number here, and a reply is that number with the status
-- that its callback is given. Each operation is what happens while `listMutex` is held.
pub mod Replies
pub mod Stops
mod Tests
use ssh_agent_bridge.Base.{ℕ, Bool, true, false, ◌||◌, not, List, [], ◌∷◌, ◌++◌, ◌≡◌, if◌then◌else◌}

-- Where the worker thread stands: at the outer loop's test, at the inner loop's test, in
-- `ProcessRequest` with the mutex released, or in `wakeCondition.wait`.
pub data Worker : Type 0 where
  not_started at_outer at_inner waiting finished : Worker
  processing : ℕ → Worker

-- The back of the vector is the head of the list. `replies` has the calls of reply callbacks, the
-- latest first.
pub record Queue : Type 0 where
  pub message_list : List ℕ
  pub cancel_flag : Bool
  pub worker : Worker
  pub replies : List (ℕ × Bool)

unfoldable pub new_queue : Queue
new_queue = record { message_list = []; cancel_flag = false; worker = not_started; replies = [] }

unfoldable pub is_empty : List ℕ → Bool
is_empty [] = true
is_empty (m ∷ ms) = false

abbrev pub reply : ℕ → Bool → Queue → Queue
reply m status q = record q { replies = (m, status) ∷ q.replies }

unfoldable pub post_request : ℕ → Queue → Queue
post_request m q =
    if q.cancel_flag then reply m false q else record q { message_list = m ∷ q.message_list }

unfoldable pub start : Queue → Queue
start q = record q { worker = at_outer }

-- The first half of `Stop`; the second waits until the worker is `finished`.
unfoldable pub stop : Queue → Queue
stop q = record q { cancel_flag = true }

-- `messageList.back()` and `pop_back()`, or the end of the inner loop.
take_message : List ℕ → Queue → Queue
take_message [] q = record q { worker = waiting }
take_message (m ∷ ms) q = record q { message_list = ms; worker = processing m }

-- The worker's next step, with the status of `ProcessRequest`.
worker_step_at : Worker → Bool → Queue → Queue
unfolding take_message is_empty
worker_step_at not_started status q = q
worker_step_at at_outer status q =
    if q.cancel_flag then record q { worker = finished } else record q { worker = at_inner }
worker_step_at at_inner status q = take_message q.message_list q
worker_step_at (processing m) status q = record (reply m status q) { worker = at_inner }
worker_step_at waiting status q =
    if not (is_empty q.message_list) || q.cancel_flag then record q { worker = at_outer } else q
worker_step_at finished status q = q

unfoldable pub worker_step : Bool → Queue → Queue
unfolding worker_step_at
worker_step status q = worker_step_at q.worker status q

-- The destructor's loop: what is left is answered with false, the latest first.
unfoldable pub drain : List ℕ → List (ℕ × Bool) → List (ℕ × Bool)
drain [] replies = replies
drain (m ∷ ms) replies = drain ms ((m, false) ∷ replies)

-- The destructor, once the worker has been joined.
unfoldable pub destroy : Queue → Queue
unfolding drain
destroy q = record q {
  cancel_flag = true;
  message_list = [];
  replies = drain q.message_list q.replies;
}

-- The worker is joined, or was never started.
pub data IsJoined : Worker → Type 0 where
  never : IsJoined not_started
  joined : IsJoined finished

-- What threads may do to the queue, in any order; `posted` is the history of `PostRequest`.
pub data Runs : List ℕ → Queue → Type 0 where
  created : Runs [] new_queue
  posts :
      {posted : List ℕ} {q : Queue} (m : ℕ) → Runs posted q → Runs (m ∷ posted) (post_request m q)
  starts :
      {posted : List ℕ} {q : Queue} → q.worker ≡ not_started → Runs posted q → Runs posted (start q)
  works :
      {posted : List ℕ} {q : Queue} (status : Bool)
      → Runs posted q
      → Runs posted (worker_step status q)
  stops : {posted : List ℕ} {q : Queue} → Runs posted q → Runs posted (stop q)

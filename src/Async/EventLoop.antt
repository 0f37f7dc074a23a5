-- ===== src/Async/EventLoop.antt =====
-- async-server/server/main/async_server_coroutines.cpp, class EventLoop, over any type of tasks: the
-- queues that the threads share, and the worker thread, which takes one turn from each lock, wait
-- or task to the next. Times are milliseconds of the steady clock.
pub mod Least
pub mod Tasks
pub mod Weights
pub mod Awake
pub mod Executing
pub mod Stopping
pub mod Ready
pub mod Draining
use esp_network_examples.Prelude.{
  ℕ, zero, suc, ◌+◌, ◌-◌, Bool, true, false, not, ◌&&◌, ◌||◌, List, [], ◌∷◌, ◌++◌, ltb, leb, ◌==◌,
  if◌then◌else◌,
}

pub record ScheduledTask {ℓ} (A : Type ℓ) : Type ℓ where
  pub when : ℕ
  pub task : A

-- Where the worker is: before the test of `running`, before the lock, in `wait`, in `wait_until` a
-- time, before a task that it took from a queue, or behind its loop.
pub data Worker {ℓ} (A : Type ℓ) : Type ℓ where
  testing locking waiting : Worker A
  waiting_until : ℕ → Worker A
  executing : A → Worker A
  joined : Worker A

pub record EventLoop {ℓ} (A : Type ℓ) : Type ℓ where
  pub immediate_tasks : List A
  pub scheduled_tasks : List (ScheduledTask A)
  pub is_running : Bool
  pub worker_thread : Worker A

-- What `top` and `pop` of the priority queue give.
pub record Popped {ℓ} (A : Type ℓ) : Type ℓ where
  pub top : ScheduledTask A
  pub others : List (ScheduledTask A)

-- A call that a task makes.
pub data Post {ℓ} (A : Type ℓ) : Type ℓ where
  soon : A → Post A
  delayed : A → ℕ → Post A

module _ {ℓ} {A : Type ℓ} where
  -- `start` of a new loop
  unfoldable pub start : EventLoop A
  start = record {
    immediate_tasks = [];
    scheduled_tasks = [];
    is_running = true;
    worker_thread = testing;
  }

  -- `stop`, up to `join`
  unfoldable pub stop : EventLoop A → EventLoop A
  stop l = record l { is_running = false }

  unfoldable pub post : A → EventLoop A → EventLoop A
  post a l = record l { immediate_tasks = l.immediate_tasks ++ (a ∷ []) }

  unfoldable pub post_delayed : ℕ → A → ℕ → EventLoop A → EventLoop A
  post_delayed now a delay l = record l {
    scheduled_tasks = record { when = now + delay; task = a } ∷ l.scheduled_tasks;
  }

  -- The first of these, in front of the others, if it is due before the top of the others. Of tasks
  -- that are due at the same time the queue may give any: a number says at which place.
  unfoldable pub before : ℕ → ScheduledTask A → List (ScheduledTask A) → Popped A → Popped A
  before place x xs p =
      if ltb x.when p.top.when || ((place == 0) && (x.when == p.top.when))
      then record { top = x; others = xs }
      else record { top = p.top; others = x ∷ p.others }

  unfoldable pub pop : ℕ → ScheduledTask A → List (ScheduledTask A) → Popped A
  pop place x [] = record { top = x; others = [] }
  pop place x (y ∷ ys) = before place x (y ∷ ys) (pop (place - 1) y ys)

  -- `scheduled_tasks.top().when <= now`
  unfoldable pub take_due : ℕ → EventLoop A → Popped A → EventLoop A
  take_due now l p =
      if leb p.top.when now
      then record l { scheduled_tasks = p.others; worker_thread = executing p.top.task }
      else record l { worker_thread = waiting_until p.top.when }

  unfoldable pub take_scheduled : ℕ → ℕ → EventLoop A → List (ScheduledTask A) → EventLoop A
  take_scheduled place now l [] = record l { worker_thread = waiting }
  take_scheduled place now l (x ∷ xs) = take_due now l (pop place x xs)

  -- Under the lock: immediate tasks first.
  unfoldable pub take_task : ℕ → ℕ → EventLoop A → List A → EventLoop A
  take_task place now l [] = take_scheduled place now l l.scheduled_tasks
  take_task place now l (a ∷ more) = record l {
    immediate_tasks = more;
    worker_thread = executing a;
  }

  abbrev pub is_empty : List A → Bool
  is_empty [] = true
  is_empty _ = false

  -- The predicate of both waits.
  abbrev pub may_wake : EventLoop A → Bool
  may_wake l = not (is_empty l.immediate_tasks) || not l.is_running

  -- Behind a wait, or still in it.
  unfoldable pub wake : Bool → EventLoop A → EventLoop A
  wake ends l = if ends then record l { worker_thread = testing } else l

  -- The calls that a task makes, in order.
  unfoldable pub make_posts : ℕ → List (Post A) → EventLoop A → EventLoop A
  make_posts now [] l = l
  make_posts now (soon a ∷ ps) l = make_posts now ps (post a l)
  make_posts now (delayed a delay ∷ ps) l = make_posts now ps (post_delayed now a delay l)

  -- The worker's turn at a time, where a task makes these calls.
  unfoldable pub work_from : (A → List (Post A)) → ℕ → ℕ → EventLoop A → Worker A → EventLoop A
  work_from execute place now l testing = record l {
    worker_thread = if l.is_running then locking else joined;
  }
  work_from execute place now l locking = take_task place now l l.immediate_tasks
  work_from execute place now l waiting = wake (may_wake l) l
  work_from execute place now l (waiting_until time) = wake (may_wake l || leb time now) l
  work_from execute place now l (executing a) =
      make_posts now (execute a) (record l { worker_thread = testing })
  work_from execute place now l joined = l

  unfoldable pub work : (A → List (Post A)) → ℕ → ℕ → EventLoop A → EventLoop A
  work execute place now l = work_from execute place now l l.worker_thread

  -- Turns of the worker alone, each with a place and a time.
  unfoldable pub work_turns : (A → List (Post A)) → List (ℕ × ℕ) → EventLoop A → EventLoop A
  work_turns execute [] l = l
  work_turns execute ((place, now) ∷ turns) l = work_turns execute turns (work execute place now l)

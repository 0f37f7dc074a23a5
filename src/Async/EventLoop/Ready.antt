-- ===== src/Async/EventLoop/Ready.antt =====
-- async-server/server/main/async_server_coroutines.cpp, EventLoop: that the loop runs, and until when its
-- scheduled tasks are due.
use esp_network_examples.Prelude.{
  ℕ, ◌+◌, ◌≤◌, Bool, true, false, ◌||◌, List, [], ◌∷◌, ◌≡◌, inl, inr, arith, All, All-map, leb,
  Bool-cases,
}
use esp_network_examples.Async.EventLoop.{
  ScheduledTask, Worker, testing, locking, waiting, waiting_until, executing, joined, EventLoop,
  Popped, Post, soon, delayed, post, post_delayed, pop, take_due, take_scheduled, take_task,
  may_wake, wake, make_posts, work_from, work,
}
use esp_network_examples.Async.EventLoop.Least.{pop-All}

module _ {ℓ} {A : Type ℓ} where
  abbrev pub DueBy : ℕ → List (ScheduledTask A) → Type 0
  DueBy t = All (λ (x : ScheduledTask A). x.when ≤ t)

  -- The loop runs, and its tasks are due by a time.
  abbrev pub IsReady : ℕ → EventLoop A → Type 0
  IsReady t l = (l.is_running ≡ true) × DueBy t l.scheduled_tasks

  abbrev pub DelayedBy : ℕ → Post A → Type 0
  DelayedBy most (soon a) = Unit {0}
  DelayedBy most (delayed a delay) = delay ≤ most

  pub IsReady-mono : (t u : ℕ) (l : EventLoop A) → t ≤ u → IsReady t l → IsReady u l
  IsReady-mono t u l le h = (h.0, All-map l.scheduled_tasks (λ x g. omega arith) h.1)

  make_posts-IsReady :
      (t most now : ℕ) (ps : List (Post A)) (l : EventLoop A)
      → now + most ≤ t
      → All (DelayedBy most) ps
      → IsReady t l
      → IsReady t (make_posts now ps l)
  unfolding make_posts post post_delayed
  make_posts-IsReady t most now [] l le d h = h
  make_posts-IsReady t most now (soon a ∷ ps) l le d h =
      make_posts-IsReady t most now ps (post a l) le d.1 h
  make_posts-IsReady t most now (delayed a delay ∷ ps) l le d h =
      make_posts-IsReady t most now ps (post_delayed now a delay l) le d.1
        (h.0, (omega (arith, d.0), h.1))

  module _ (t place now : ℕ) (l : EventLoop A) where
    take_due-IsReady :
        (p : Popped A) → IsReady t l → DueBy t p.others → IsReady t (take_due now l p)
    unfolding take_due
    take_due-IsReady p h d = elim (Bool-cases (leb p.top.when now)) [
      | inl due ↦ rw due ((h.0, d))
      | inr early ↦ rw early h
    ]

    take_scheduled-IsReady :
        (xs : List (ScheduledTask A))
        → IsReady t l
        → DueBy t xs
        → IsReady t (take_scheduled place now l xs)
    unfolding take_scheduled
    take_scheduled-IsReady [] h d = h
    take_scheduled-IsReady (x ∷ xs) h d =
        take_due-IsReady (pop place x xs) h
          (pop-All (λ (y : ScheduledTask A). y.when ≤ t) place x xs d).1

    take_task-IsReady : (tasks : List A) → IsReady t l → IsReady t (take_task place now l tasks)
    unfolding take_task
    take_task-IsReady [] h = take_scheduled-IsReady l.scheduled_tasks h h.1
    take_task-IsReady (a ∷ more) h = h

    wake-IsReady : (ends : Bool) → IsReady t l → IsReady t (wake ends l)
    unfolding wake
    wake-IsReady true h = h
    wake-IsReady false h = h

    work_from-IsReady :
        (execute : A → List (Post A)) (most : ℕ) (w : Worker A)
        → ((a : A) → All (DelayedBy most) (execute a))
        → now + most ≤ t
        → IsReady t l
        → IsReady t (work_from execute place now l w)
    unfolding work_from
    work_from-IsReady execute most testing d le h = h
    work_from-IsReady execute most locking d le h = take_task-IsReady l.immediate_tasks h
    work_from-IsReady execute most waiting d le h = wake-IsReady (may_wake l) h
    work_from-IsReady execute most (waiting_until time) d le h =
        wake-IsReady (may_wake l || leb time now) h
    work_from-IsReady execute most (executing a) d le h =
        make_posts-IsReady t most now (execute a) (record l { worker_thread = testing }) le (d a) h
    work_from-IsReady execute most joined d le h = h

  -- The worker's turn leaves the loop running, and what a task posts is due at most so much later.
  pub work-IsReady :
      (execute : A → List (Post A)) (most t place now : ℕ) (l : EventLoop A)
      → ((a : A) → All (DelayedBy most) (execute a))
      → now + most ≤ t
      → IsReady t l
      → IsReady t (work execute place now l)
  unfolding work
  work-IsReady execute most t place now l d le h =
      work_from-IsReady t place now l execute most l.worker_thread d le h

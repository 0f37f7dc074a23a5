-- ===== src/Async/EventLoop/Tasks.antt =====
-- The tasks that async-server/server/main/async_server_coroutines.cpp, EventLoop, holds: what is true of
-- each, and what they weigh.
use esp_network_examples.Prelude.{
  ℕ, Bool, true, false, ◌||◌, List, [], ◌∷◌, inl, inr, All, All-append, leb, if◌then◌else◌,
  Bool-cases,
}
use esp_network_examples.Async.EventLoop.{
  ScheduledTask, Worker, testing, locking, waiting, waiting_until, executing, joined, EventLoop,
  Popped, Post, soon, delayed, post, post_delayed, pop, take_due, take_scheduled, take_task,
  may_wake, wake, make_posts, work_from, work,
}
use esp_network_examples.Async.EventLoop.Least.{pop-All}

module _ {ℓ κ} {A : Type ℓ} (P : A → Type κ) where
  abbrev pub OfScheduled : ScheduledTask A → Type κ
  OfScheduled x = P x.task

  abbrev pub OfWorker : Worker A → Type κ
  OfWorker (executing a) = P a
  OfWorker _ = Unit

  abbrev pub OfPost : Post A → Type κ
  OfPost (soon a) = P a
  OfPost (delayed a delay) = P a

  -- Every task of both queues, and the one that the worker executes.
  abbrev pub AllTasks : EventLoop A → Type κ
  AllTasks l =
      All P l.immediate_tasks × All OfScheduled l.scheduled_tasks × OfWorker l.worker_thread

  pub post-AllTasks : (a : A) (l : EventLoop A) → P a → AllTasks l → AllTasks (post a l)
  unfolding post
  post-AllTasks a l p (i, s, w) = (All-append P l.immediate_tasks (a ∷ []) i (p, tt), s, w)

  make_posts-AllTasks :
      (now : ℕ) (ps : List (Post A)) (l : EventLoop A)
      → All OfPost ps
      → AllTasks l
      → AllTasks (make_posts now ps l)
  unfolding make_posts post_delayed
  make_posts-AllTasks now [] l ok h = h
  make_posts-AllTasks now (soon a ∷ ps) l ok h =
      make_posts-AllTasks now ps (post a l) ok.1 (post-AllTasks a l ok.0 h)
  make_posts-AllTasks now (delayed a delay ∷ ps) l ok (i, s, w) =
      make_posts-AllTasks now ps (post_delayed now a delay l) ok.1 (i, (ok.0, s), w)

  module _ (place now : ℕ) (l : EventLoop A) where
    take_due-AllTasks :
        (p : Popped A)
        → AllTasks l
        → OfScheduled p.top × All OfScheduled p.others
        → AllTasks (take_due now l p)
    unfolding take_due
    take_due-AllTasks p (i, s, w) h = elim (Bool-cases (leb p.top.when now)) [
      | inl due ↦ rw due ((i, h.1, h.0))
      | inr early ↦ rw early ((i, s, tt))
    ]

    take_scheduled-AllTasks :
        (xs : List (ScheduledTask A))
        → AllTasks l
        → All OfScheduled xs
        → AllTasks (take_scheduled place now l xs)
    unfolding take_scheduled
    take_scheduled-AllTasks [] (i, s, w) h = (i, s, tt)
    take_scheduled-AllTasks (x ∷ xs) g h =
        take_due-AllTasks (pop place x xs) g (pop-All OfScheduled place x xs h)

    take_task-AllTasks :
        (tasks : List A) → AllTasks l → All P tasks → AllTasks (take_task place now l tasks)
    unfolding take_task
    take_task-AllTasks [] h t = take_scheduled-AllTasks l.scheduled_tasks h h.1
    take_task-AllTasks (a ∷ more) (i, s, w) t = (t.1, s, t.0)

    wake-AllTasks : (ends : Bool) → AllTasks l → AllTasks (wake ends l)
    unfolding wake
    wake-AllTasks true (i, s, w) = (i, s, tt)
    wake-AllTasks false h = h

    tested-AllTasks : (b : Bool) → OfWorker (if b then locking else joined)
    tested-AllTasks true = tt
    tested-AllTasks false = tt

    -- What is true of every task, and of every task that it posts, stays so.
    work_from-AllTasks :
        (execute : A → List (Post A)) (w : Worker A)
        → ((a : A) → P a → All OfPost (execute a))
        → OfWorker w
        → AllTasks l
        → AllTasks (work_from execute place now l w)
    unfolding work_from
    work_from-AllTasks execute testing keep o (i, s, w) = (i, s, tested-AllTasks l.is_running)
    work_from-AllTasks execute locking keep o h = take_task-AllTasks l.immediate_tasks h h.0
    work_from-AllTasks execute waiting keep o h = wake-AllTasks (may_wake l) h
    work_from-AllTasks execute (waiting_until time) keep o h =
        wake-AllTasks (may_wake l || leb time now) h
    work_from-AllTasks execute (executing a) keep o (i, s, w) =
        make_posts-AllTasks now (execute a) (record l { worker_thread = testing }) (keep a o)
          (i, s, tt)
    work_from-AllTasks execute joined keep o h = h

  pub work-AllTasks :
      (execute : A → List (Post A)) (place now : ℕ) (l : EventLoop A)
      → ((a : A) → P a → All OfPost (execute a))
      → AllTasks l
      → AllTasks (work execute place now l)
  unfolding work
  work-AllTasks execute place now l keep h =
      work_from-AllTasks place now l execute l.worker_thread keep h.2 h

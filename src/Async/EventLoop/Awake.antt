-- ===== src/Async/EventLoop/Awake.antt =====
-- What async-server/server/main/async_server_coroutines.cpp, EventLoop, keeps while its worker waits.
use esp_network_examples.Prelude.{
  ℕ, Bool, true, false, ◌||◌, List, [], ◌∷◌, ◌≡◌, inl, inr, refl, sym, subst, ap, leb,
  if◌then◌else◌, Bool-cases,
}
use esp_network_examples.Async.EventLoop.{
  ScheduledTask, Worker, testing, locking, waiting, waiting_until, executing, joined, EventLoop,
  Popped, Post, soon, delayed, stop, post, post_delayed, pop, take_due, take_scheduled, take_task,
  is_empty, may_wake, wake, make_posts, work_from, work,
}
use esp_network_examples.Async.EventLoop.Least.{DueFrom, pop-Least}

module _ {ℓ} {A : Type ℓ} where
  -- A worker that waits for no time has no scheduled task, one that waits until a time has none
  -- that is due earlier, and one that left its loop was stopped.
  abbrev pub AwakeAt : EventLoop A → Worker A → Type 0
  AwakeAt l waiting = is_empty l.scheduled_tasks ≡ true
  AwakeAt l (waiting_until time) = DueFrom time l.scheduled_tasks
  AwakeAt l joined = l.is_running ≡ false
  AwakeAt l _ = Unit {0}

  abbrev pub IsAwake : EventLoop A → Type 0
  IsAwake l = AwakeAt l l.worker_thread

  pub post-IsAwake : (a : A) (l : EventLoop A) → IsAwake l → IsAwake (post a l)
  unfolding post
  post-IsAwake a l h = go l.worker_thread h
    where
      go : (w : Worker A) → AwakeAt l w → AwakeAt (post a l) w
      go testing g = tt
      go locking g = tt
      go waiting g = g
      go (waiting_until time) g = g
      go (executing b) g = tt
      go joined g = g

  pub stop-IsAwake : (l : EventLoop A) → IsAwake l → IsAwake (stop l)
  unfolding stop
  stop-IsAwake l h = go l.worker_thread h
    where
      go : (w : Worker A) → AwakeAt l w → AwakeAt (stop l) w
      go testing g = tt
      go locking g = tt
      go waiting g = g
      go (waiting_until time) g = g
      go (executing b) g = tt
      go joined g = refl

  -- The calls of a task leave the worker and `running` alone.
  pub make_posts-worker_thread :
      (now : ℕ) (ps : List (Post A)) (l : EventLoop A)
      → ((make_posts now ps l).worker_thread ≡ l.worker_thread)
        × ((make_posts now ps l).is_running ≡ l.is_running)
  unfolding make_posts post post_delayed
  make_posts-worker_thread now [] l = (refl, refl)
  make_posts-worker_thread now (soon a ∷ ps) l = make_posts-worker_thread now ps (post a l)
  make_posts-worker_thread now (delayed a delay ∷ ps) l =
      make_posts-worker_thread now ps (post_delayed now a delay l)

  module _ (execute : A → List (Post A)) (place now : ℕ) (l : EventLoop A) where
    take_due-IsAwake :
        (x : ScheduledTask A) (xs : List (ScheduledTask A)) (p : Popped A)
        → l.scheduled_tasks ≡ x ∷ xs
        → DueFrom p.top.when (x ∷ xs)
        → IsAwake (take_due now l p)
    unfolding take_due
    take_due-IsAwake x xs p e h = elim (Bool-cases (leb p.top.when now)) [
      | inl due ↦ rw due tt
      | inr early ↦ rw early (subst (DueFrom p.top.when) (sym e) h)
    ]

    take_scheduled-IsAwake :
        (xs : List (ScheduledTask A))
        → l.scheduled_tasks ≡ xs
        → IsAwake (take_scheduled place now l xs)
    unfolding take_scheduled
    take_scheduled-IsAwake [] e = ap is_empty e
    take_scheduled-IsAwake (x ∷ xs) e =
        take_due-IsAwake x xs (pop place x xs) e (pop-Least place x xs)

    take_task-IsAwake : (as' : List A) → IsAwake (take_task place now l as')
    unfolding take_task
    take_task-IsAwake [] = take_scheduled-IsAwake l.scheduled_tasks refl
    take_task-IsAwake (a ∷ more) = tt

    wake-IsAwake : (ends : Bool) → IsAwake l → IsAwake (wake ends l)
    unfolding wake
    wake-IsAwake true h = tt
    wake-IsAwake false h = h

    tested-IsAwake :
        (b : Bool)
        → l.is_running ≡ b
        → AwakeAt
            (record l { worker_thread = if b then locking else joined })
            (if b then locking else joined)
    tested-IsAwake true e = tt
    tested-IsAwake false e = e

    work_from-IsAwake :
        (w : Worker A) → l.worker_thread ≡ w → IsAwake l → IsAwake (work_from execute place now l w)
    unfolding work_from
    work_from-IsAwake testing e h = tested-IsAwake l.is_running refl
    work_from-IsAwake locking e h = take_task-IsAwake l.immediate_tasks
    work_from-IsAwake waiting e h = wake-IsAwake (may_wake l) h
    work_from-IsAwake (waiting_until time) e h = wake-IsAwake (may_wake l || leb time now) h
    work_from-IsAwake (executing a) e h =
        let started : EventLoop A = record l { worker_thread = testing } in
        subst (AwakeAt (make_posts now (execute a) started))
          (sym (make_posts-worker_thread now (execute a) started).0) tt
    work_from-IsAwake joined e h = h

    -- Each turn of the worker keeps the loop awake.
    pub work-IsAwake : IsAwake l → IsAwake (work execute place now l)
    unfolding work
    work-IsAwake h = work_from-IsAwake l.worker_thread refl h

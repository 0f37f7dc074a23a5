-- ===== src/Async/EventLoop/Weights.antt =====
-- What the tasks that async-server/server/main/async_server_coroutines.cpp, EventLoop, holds weigh.
use esp_network_examples.Prelude.{
  ℕ, ◌+◌, Bool, true, false, ◌||◌, List, [], ◌∷◌, ◌++◌, ◌≡◌, inl, inr, refl, sym, ap, ◌∙◌, arith,
  leb, if◌then◌else◌, Bool-cases,
}
use esp_network_examples.Async.EventLoop.{
  ScheduledTask, Worker, testing, locking, waiting, waiting_until, executing, joined, EventLoop,
  Popped, Post, soon, delayed, post, post_delayed, pop, take_due, take_scheduled, take_task,
  may_wake, wake, make_posts, work_from, work,
}
use esp_network_examples.Async.EventLoop.Least.{sum_tasks, pop-sum_tasks}

module _ {ℓ} {A : Type ℓ} (weight : A → ℕ) where
  abbrev pub sum : List A → ℕ
  sum [] = 0
  sum (a ∷ as') = weight a + sum as'

  abbrev pub worker_weight : Worker A → ℕ
  worker_weight (executing a) = weight a
  worker_weight _ = 0

  abbrev pub posts_weight : List (Post A) → ℕ
  posts_weight [] = 0
  posts_weight (soon a ∷ ps) = weight a + posts_weight ps
  posts_weight (delayed a delay ∷ ps) = weight a + posts_weight ps

  -- All tasks of both queues, and the one that the worker executes.
  abbrev pub total : EventLoop A → ℕ
  total l =
      (sum l.immediate_tasks + sum_tasks weight l.scheduled_tasks) + worker_weight l.worker_thread

  pub sum-append : (xs ys : List A) → sum (xs ++ ys) ≡ sum xs + sum ys
  sum-append [] ys = omega arith
  sum-append (x ∷ xs) ys = omega (arith, sum-append xs ys)

  pub post-total : (a : A) (l : EventLoop A) → total (post a l) ≡ weight a + total l
  unfolding post
  post-total a l = let e = sum-append l.immediate_tasks (a ∷ []) in omega (arith, e)

  make_posts-total :
      (now : ℕ) (ps : List (Post A)) (l : EventLoop A)
      → total (make_posts now ps l) ≡ posts_weight ps + total l
  unfolding make_posts post_delayed
  make_posts-total now [] l = omega arith
  make_posts-total now (soon a ∷ ps) l =
      let e = make_posts-total now ps (post a l) in let f = post-total a l in omega (arith, e, f)
  make_posts-total now (delayed a delay ∷ ps) l =
      let e = make_posts-total now ps (post_delayed now a delay l) in omega (arith, e)

  -- What a task that the worker executes posts.
  abbrev pub posted : (A → List (Post A)) → Worker A → ℕ
  posted execute (executing a) = posts_weight (execute a)
  posted execute _ = 0

  module _ (place now : ℕ) (l : EventLoop A) where
    take_due-total :
        (p : Popped A)
        → worker_weight l.worker_thread ≡ 0
        → weight p.top.task + sum_tasks weight p.others ≡ sum_tasks weight l.scheduled_tasks
        → total (take_due now l p) ≡ total l
    unfolding take_due
    take_due-total p z h = elim (Bool-cases (leb p.top.when now)) [
      | inl due ↦ rw due (omega (arith, z, h))
      | inr early ↦ rw early (omega (arith, z))
    ]

    take_scheduled-total :
        (xs : List (ScheduledTask A))
        → l.scheduled_tasks ≡ xs
        → worker_weight l.worker_thread ≡ 0
        → total (take_scheduled place now l xs) ≡ total l
    unfolding take_scheduled
    take_scheduled-total [] e z = omega (arith, z)
    take_scheduled-total (x ∷ xs) e z =
        take_due-total (pop place x xs) z
          (pop-sum_tasks weight place x xs ∙ ap (sum_tasks weight) (sym e))

    take_task-total :
        (tasks : List A)
        → l.immediate_tasks ≡ tasks
        → worker_weight l.worker_thread ≡ 0
        → total (take_task place now l tasks) ≡ total l
    unfolding take_task
    take_task-total [] e z = take_scheduled-total l.scheduled_tasks refl z
    take_task-total (a ∷ more) e z = let f = ap sum e in omega (arith, z, f)

    wake-total : (ends : Bool) → worker_weight l.worker_thread ≡ 0 → total (wake ends l) ≡ total l
    unfolding wake
    wake-total true z = omega (arith, z)
    wake-total false z = refl

    tested-total : (b : Bool) → worker_weight (if b then locking else joined) ≡ 0
    tested-total true = refl
    tested-total false = refl

    work_from-total :
        (execute : A → List (Post A)) (w : Worker A)
        → l.worker_thread ≡ w
        → total (work_from execute place now l w) + worker_weight w ≡ total l + posted execute w
    unfolding work_from
    work_from-total execute testing e =
        let z = ap worker_weight e in let t = tested-total l.is_running in omega (arith, z, t)
    work_from-total execute locking e =
        let t = take_task-total l.immediate_tasks refl (ap worker_weight e) in omega (arith, t)
    work_from-total execute waiting e =
        let t = wake-total (may_wake l) (ap worker_weight e) in omega (arith, t)
    work_from-total execute (waiting_until time) e =
        let t = wake-total (may_wake l || leb time now) (ap worker_weight e) in omega (arith, t)
    work_from-total execute (executing a) e =
        let z = ap worker_weight e in
        let t = make_posts-total now (execute a) (record l { worker_thread = testing }) in
        omega (arith, z, t)
    work_from-total execute joined e = refl

  -- A turn of the worker changes the weight by that of what it executed and of what that posted.
  pub work-total :
      (execute : A → List (Post A)) (place now : ℕ) (l : EventLoop A)
      → total (work execute place now l) + worker_weight l.worker_thread
        ≡ total l + posted execute l.worker_thread
  unfolding work
  work-total execute place now l = work_from-total place now l execute l.worker_thread refl

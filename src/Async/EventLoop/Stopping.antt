-- ===== src/Async/EventLoop/Stopping.antt =====
-- When the worker of async-server/server/main/async_server_coroutines.cpp, EventLoop, ends, and when it
-- does not wake.
use esp_network_examples.Prelude.{
  ℕ, suc, ◌<◌, true, false, not, ◌||◌, List, [], ◌∷◌, ◌≡◌, inl, inr, refl, arith, sym, ap, ◌∙◌, All,
  length, leb, Bool-cases,
}
use esp_network_examples.Async.EventLoop.{
  ScheduledTask, Worker, testing, locking, waiting, waiting_until, executing, joined, EventLoop,
  Popped, Post, stop, post_delayed, pop, take_due, take_scheduled, take_task, is_empty, may_wake,
  wake, work_from, work, work_turns,
}
use esp_network_examples.Async.EventLoop.Awake.{make_posts-worker_thread}

module _ {ℓ} {A : Type ℓ} where
  abbrev pub turns_to_stop : Worker A → ℕ
  turns_to_stop testing = 1
  turns_to_stop locking = 3
  turns_to_stop joined = 0
  turns_to_stop _ = 2

  -- A turn of the worker brings it nearer to its end, and does not start the loop again.
  abbrev Nearer : EventLoop A → Worker A → Type 0
  Nearer l w = (suc (turns_to_stop l.worker_thread) ≡ turns_to_stop w) × (l.is_running ≡ false)

  -- The worker waits for no time, or until a time that none of the turns is at.
  abbrev pub SleepsOver : List (ℕ × ℕ) → Worker A → Type 0
  SleepsOver turns waiting = Unit {0}
  SleepsOver turns (waiting_until time) = All (λ (turn : ℕ × ℕ). turn.1 < time) turns
  SleepsOver turns _ = ⊥

  module _ (execute : A → List (Post A)) where
    take_due-Nearer :
        (now : ℕ) (l : EventLoop A) (p : Popped A)
        → l.is_running ≡ false
        → Nearer (take_due now l p) locking
    unfolding take_due
    take_due-Nearer now l p r = elim (Bool-cases (leb p.top.when now)) [
      | inl due ↦ rw due ((refl, r))
      | inr early ↦ rw early ((refl, r))
    ]

    take_scheduled-Nearer :
        (place now : ℕ) (l : EventLoop A) (xs : List (ScheduledTask A))
        → l.is_running ≡ false
        → Nearer (take_scheduled place now l xs) locking
    unfolding take_scheduled
    take_scheduled-Nearer place now l [] r = (refl, r)
    take_scheduled-Nearer place now l (x ∷ xs) r = take_due-Nearer now l (pop place x xs) r

    take_task-Nearer :
        (place now : ℕ) (l : EventLoop A) (tasks : List A)
        → l.is_running ≡ false
        → Nearer (take_task place now l tasks) locking
    unfolding take_task
    take_task-Nearer place now l [] r = take_scheduled-Nearer place now l l.scheduled_tasks r
    take_task-Nearer place now l (a ∷ more) r = (refl, r)

    wakes : (l : EventLoop A) → l.is_running ≡ false → may_wake l ≡ true
    wakes l r = ground (arith, r)

    work_from-Nearer :
        (place now : ℕ) (l : EventLoop A) (w : Worker A)
        → l.is_running ≡ false
        → 0 < turns_to_stop w
        → Nearer (work_from execute place now l w) w
    unfolding work_from wake
    work_from-Nearer place now l testing r h = rw r ((refl, refl))
    work_from-Nearer place now l locking r h = take_task-Nearer place now l l.immediate_tasks r
    work_from-Nearer place now l waiting r h = rw (wakes l r) ((refl, r))
    work_from-Nearer place now l (waiting_until time) r h = rw (wakes l r) ((refl, r))
    work_from-Nearer place now l (executing a) r h =
        let started : EventLoop A = record l { worker_thread = testing } in
        let left = make_posts-worker_thread now (execute a) started in
        (ap (λ w. suc (turns_to_stop w)) left.0, left.1 ∙ r)
    work_from-Nearer place now l joined r h = absurd (omega arith)

    joined_at :
        (l : EventLoop A) (w : Worker A)
        → l.worker_thread ≡ w
        → turns_to_stop w ≡ 0
        → l.worker_thread ≡ joined
    joined_at l joined e h = e
    joined_at l testing e h = absurd (omega arith)
    joined_at l w e h = absurd (omega arith)

    work-joined :
        (turns : List (ℕ × ℕ)) (l : EventLoop A)
        → l.is_running ≡ false
        → length turns ≡ turns_to_stop l.worker_thread
        → (work_turns execute turns l).worker_thread ≡ joined
    unfolding work_turns work
    work-joined [] l r n = joined_at l l.worker_thread refl (sym n)
    work-joined ((place, now) ∷ turns) l r n =
        let near = work_from-Nearer place now l l.worker_thread r (omega arith) in
        work-joined turns (work_from execute place now l l.worker_thread) near.1
          (omega (arith, near.0))

    -- Once `stop` was called, the worker comes to its end, so that it can be joined: in one turn
    -- from the test of `running`, in two from a wait or a task, and in three from the lock, whatever the
    -- queues hold and the task posts.
    pub stop-joined :
        (turns : List (ℕ × ℕ)) (l : EventLoop A)
        → length turns ≡ turns_to_stop l.worker_thread
        → (work_turns execute turns (stop l)).worker_thread ≡ joined
    unfolding stop
    stop-joined turns l n = work-joined turns (stop l) refl n

    work_from-asleep :
        (place now : ℕ) (turns : List (ℕ × ℕ)) (l : EventLoop A) (w : Worker A)
        → SleepsOver ((place, now) ∷ turns) w
        → may_wake l ≡ false
        → (work_from execute place now l w ≡ l) × SleepsOver turns w
    unfolding work_from wake
    work_from-asleep place now turns l testing s h = elim s [ ]
    work_from-asleep place now turns l locking s h = elim s [ ]
    work_from-asleep place now turns l waiting s h = (rw h refl, tt)
    work_from-asleep place now turns l (waiting_until time) s h =
        let early : leb time now ≡ false = ground (arith, s.0) in (rw (h, early) refl, s.1)
    work_from-asleep place now turns l (executing a) s h = elim s [ ]
    work_from-asleep place now turns l joined s h = elim s [ ]

    asleep :
        (turns : List (ℕ × ℕ)) (l : EventLoop A)
        → SleepsOver turns l.worker_thread
        → may_wake l ≡ false
        → work_turns execute turns l ≡ l
    unfolding work_turns work
    asleep [] l s h = refl
    asleep ((place, now) ∷ turns) l s h =
        let same = work_from-asleep place now turns l l.worker_thread s h in
        ap (work_turns execute turns) same.0 ∙ asleep turns l same.1 h

    -- While no task is immediate and `running` is true, a task that another thread hands to
    -- `post_delayed` does not wake the worker, though it may be due: a worker that waits for an
    -- immediate task stays so, and one that waits until a time stays so in all turns before it.
    pub post_delayed-asleep :
        (turns : List (ℕ × ℕ)) (now : ℕ) (a : A) (delay : ℕ) (l : EventLoop A)
        → SleepsOver turns l.worker_thread
        → l.immediate_tasks ≡ []
        → l.is_running ≡ true
        → work_turns execute turns (post_delayed now a delay l) ≡ post_delayed now a delay l
    unfolding post_delayed
    post_delayed-asleep turns now a delay l s e r =
        asleep turns (post_delayed now a delay l) s
          (ap (λ tasks. not (is_empty tasks) || not l.is_running) e ∙ ap (λ b. not b) r)

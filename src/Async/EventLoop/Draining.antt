-- ===== src/Async/EventLoop/Draining.antt =====
-- How many turns the worker of async-server/server/main/async_server_coroutines.cpp, EventLoop, takes to
-- run all tasks, where each task posts less work than it is.
use esp_network_examples.Prelude.{
  ℕ, suc, ◌+◌, ◌*◌, ◌≤◌, ◌<◌, true, false, not, ◌||◌, List, [], ◌∷◌, ◌≡◌, inl, inr, refl, ap, ◌∙◌,
  arith, All, length, Bool-cases,
}
use native.Mathlib.Decide.{dec_lt}
use esp_network_examples.Async.EventLoop.{
  ScheduledTask, Worker, testing, locking, waiting, waiting_until, executing, joined, EventLoop,
  Post, is_empty, work_from, work, work_turns,
}
use esp_network_examples.Async.EventLoop.Awake.{
  AwakeAt, IsAwake, work-IsAwake, make_posts-worker_thread,
}
use esp_network_examples.Async.EventLoop.Least.{sum_tasks}
use esp_network_examples.Async.EventLoop.Executing.{
  any_due, has_due, is_executing, turns_to_task, work-testing, work-locking, work_from-waiting,
}
use esp_network_examples.Async.EventLoop.Weights.{
  sum, worker_weight, posts_weight, posted, total, work-total,
}
use esp_network_examples.Async.EventLoop.Ready.{
  DueBy, IsReady, IsReady-mono, DelayedBy, work-IsReady,
}

-- Turns of the worker, each at least a pause later than the one before: the places, and the times
-- above that.
unfoldable pub paced : ℕ → ℕ → List (ℕ × ℕ) → List (ℕ × ℕ)
paced pause t [] = []
paced pause t ((place, gap) ∷ rest) =
    (place, (t + pause) + gap) ∷ paced pause ((t + pause) + gap) rest

module _ {ℓ} {A : Type ℓ} (execute : A → List (Post A)) (weight : A → ℕ) where
  -- The turns that are left: three for each task to come, and those up to the next one.
  abbrev pub turns_left : EventLoop A → ℕ
  turns_left l = 3 * total weight l + turns_to_task l.worker_thread

  due_sum :
      (t : ℕ) (xs : List (ScheduledTask A))
      → DueBy t xs
      → 0 < sum_tasks weight xs
      → any_due t xs ≡ true
  due_sum t [] d h = absurd (omega arith)
  due_sum t (x ∷ xs) d h = ground (arith, d.0)

  due_total :
      (t : ℕ) (l : EventLoop A) (tasks : List A)
      → DueBy t l.scheduled_tasks
      → 0 < sum weight tasks + sum_tasks weight l.scheduled_tasks
      → (not (is_empty tasks) || any_due t l.scheduled_tasks) ≡ true
  due_total t l [] d h = due_sum t l.scheduled_tasks d (omega arith)
  due_total t l (a ∷ tasks) d h = refl

  -- A loop that executes nothing, and has work, has some that is due.
  total-has_due :
      (t : ℕ) (l : EventLoop A)
      → DueBy t l.scheduled_tasks
      → worker_weight weight l.worker_thread ≡ 0
      → 0 < total weight l
      → has_due t l ≡ true
  total-has_due t l d z h = due_total t l l.immediate_tasks d (omega (arith, z))

  executing_no_turns : (w : Worker A) → is_executing w ≡ true → turns_to_task w ≡ 0
  executing_no_turns (executing a) e = refl
  executing_no_turns w e = absurd (cc)

  -- Where the worker goes from here, with the same work.
  next_turns :
      (t place now : ℕ) (l : EventLoop A) (w : Worker A)
      → l.worker_thread ≡ w
      → AwakeAt l w
      → l.is_running ≡ true
      → has_due t l ≡ true
      → t ≤ now
      → is_executing w ≡ false
      → suc (turns_to_task (work execute place now l).worker_thread) ≡ turns_to_task w
  unfolding work
  next_turns t place now l testing e a r due le i =
      ap (λ m. suc (turns_to_task m.worker_thread)) (work-testing execute place now l e r)
  next_turns t place now l locking e a r due le i = ap suc (
      executing_no_turns (work execute place now l).worker_thread
        (work-locking execute place now t l e due le))
  next_turns t place now l (executing b) e a r due le i = absurd (cc)
  next_turns t place now l joined e a r due le i = absurd (cc)
  next_turns t place now l waiting e a r due le i =
      ap (λ w. suc (turns_to_task (work_from execute place now l w).worker_thread)) e
      ∙ ap (λ m. suc (turns_to_task m.worker_thread))
          (work_from-waiting execute place now t l waiting refl a due le)
  next_turns t place now l (waiting_until u) e a r due le i =
      ap (λ w. suc (turns_to_task (work_from execute place now l w).worker_thread)) e
      ∙ ap (λ m. suc (turns_to_task m.worker_thread))
          (work_from-waiting execute place now t l (waiting_until u) refl a due le)

  executed_turns :
      (place now : ℕ) (l : EventLoop A) (b : A)
      → l.worker_thread ≡ executing b
      → turns_to_task (work execute place now l).worker_thread ≡ 2
  unfolding work work_from
  executed_turns place now l b e =
      let started : EventLoop A = record l { worker_thread = testing } in
      ap (λ w. turns_to_task (work_from execute place now l w).worker_thread) e
      ∙ ap turns_to_task (make_posts-worker_thread now (execute b) started).0

  not_executing :
      (w : Worker A)
      → is_executing w ≡ false
      → (worker_weight weight w ≡ 0) × (posted weight execute w ≡ 0)
  not_executing (executing b) i = absurd (cc)
  not_executing testing i = (refl, refl)
  not_executing w i = (refl, refl)

  module _ (step : (a : A) → suc (posts_weight weight (execute a)) ≡ weight a) where
    fewer_at :
        (t place now : ℕ) (l : EventLoop A) (w : Worker A)
        → l.worker_thread ≡ w
        → AwakeAt l w
        → IsReady t l
        → t ≤ now
        → 0 < total weight l
        → suc (turns_left (work execute place now l)) ≡ turns_left l
    fewer_at t place now l (executing b) e a r le h =
        let same = work-total weight execute place now l in
        let was = ap (worker_weight weight) e in
        let posts = ap (posted weight execute) e in
        let less = step b in
        let left = executed_turns place now l b e in
        let from = ap turns_to_task e in omega (arith, same, was, posts, less, left, from)
    fewer_at t place now l w e a r le h = elim (Bool-cases (is_executing w)) [
      | inl busy ↦ absurd (cc)
      | inr idle ↦
          let z = not_executing w idle in
          let was = ap (worker_weight weight) e in
          let posts = ap (posted weight execute) e in
          let same = work-total weight execute place now l in
          let due = total-has_due t l r.1 (was ∙ z.0) h in
          let near = next_turns t place now l w e a r.0 due le idle in
          let from = ap turns_to_task e in omega (arith, same, was, posts, near, from, z.0, z.1)
    ]

    stays_empty_at :
        (place now : ℕ) (l : EventLoop A) (w : Worker A)
        → l.worker_thread ≡ w
        → total weight l ≡ 0
        → total weight (work execute place now l) ≡ 0
    stays_empty_at place now l (executing b) e h =
        let was = ap (worker_weight weight) e in
        let less = step b in absurd (omega (arith, was, less))
    stays_empty_at place now l w e h = elim (Bool-cases (is_executing w)) [
      | inl busy ↦ absurd (cc)
      | inr idle ↦
          let z = not_executing w idle in
          let was = ap (worker_weight weight) e in
          let posts = ap (posted weight execute) e in
          let same = work-total weight execute place now l in
          omega (arith, same, was, posts, z.0, z.1)
    ]

    stays_empty :
        (turns : List (ℕ × ℕ)) (l : EventLoop A)
        → total weight l ≡ 0
        → total weight (work_turns execute turns l) ≡ 0
    unfolding work_turns
    stays_empty [] l h = h
    stays_empty ((place, now) ∷ turns) l h =
        stays_empty turns (work execute place now l)
          (stays_empty_at place now l l.worker_thread refl h)

    -- The worker alone runs every task there is and every task that these post, in three turns for
    -- each and at most three more, if each turn is later by at least the longest delay.
    pub drains :
        (most : ℕ) (late : (a : A) → All (DelayedBy most) (execute a)) (t : ℕ)
        (paces : List (ℕ × ℕ)) (l : EventLoop A)
        → IsAwake l
        → IsReady (t + most) l
        → turns_left l ≤ length paces
        → total weight (work_turns execute (paced most t paces) l) ≡ 0
    unfolding work_turns paced
    drains most late t [] l a r h = omega arith
    drains most late t ((place, gap) ∷ rest) l a r h = elim (dec_lt 0 (total weight l)) [
      | yes some_left ↦
          let now = (t + most) + gap in
          let sooner = IsReady-mono (t + most) now l (omega arith) r in
          let later = IsReady-mono (t + most) (now + most) l (omega arith) r in
          let less =
            fewer_at now place now l l.worker_thread refl a sooner (omega arith) some_left in
          drains most late now rest (work execute place now l) (work-IsAwake execute place now l a)
            (work-IsReady execute most (now + most) place now l late (omega arith) later)
            (omega (arith, less))
      | no none_left ↦
          stays_empty ((place, (t + most) + gap) ∷ paced most ((t + most) + gap) rest) l
            (omega (arith, none_left))
    ]

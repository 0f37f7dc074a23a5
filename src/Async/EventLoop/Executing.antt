-- ===== src/Async/EventLoop/Executing.antt =====
-- How soon the worker of async-server/server/main/async_server_coroutines.cpp, EventLoop, runs a task.
use esp_network_examples.Prelude.{
  ℕ, ◌≤◌, Bool, true, false, not, ◌||◌, List, [], ◌∷◌, ◌≡◌, inl, inr, refl, arith, ap, ◌∙◌, All,
  length, leb, leb→le, if◌then◌else◌, Bool-cases,
}
use esp_network_examples.Async.EventLoop.{
  ScheduledTask, Worker, testing, locking, waiting, waiting_until, executing, joined, EventLoop,
  Popped, Post, pop, take_due, take_scheduled, take_task, is_empty, may_wake, wake, work_from, work,
  work_turns,
}
use esp_network_examples.Async.EventLoop.Least.{DueFrom, pop-Least}
use esp_network_examples.Async.EventLoop.Awake.{AwakeAt, IsAwake}

module _ {ℓ} {A : Type ℓ} where
  abbrev pub any_due : ℕ → List (ScheduledTask A) → Bool
  any_due t [] = false
  any_due t (x ∷ xs) = leb x.when t || any_due t xs

  -- There is an immediate task, or a scheduled one that is due.
  abbrev pub has_due : ℕ → EventLoop A → Bool
  has_due t l = not (is_empty l.immediate_tasks) || any_due t l.scheduled_tasks

  abbrev pub is_executing : Worker A → Bool
  is_executing (executing a) = true
  is_executing _ = false

  abbrev pub turns_to_task : Worker A → ℕ
  turns_to_task testing = 2
  turns_to_task locking = 1
  turns_to_task waiting = 3
  turns_to_task (waiting_until time) = 3
  turns_to_task _ = 0

  pub any_due-le :
      (t u : ℕ) (xs : List (ScheduledTask A)) → any_due t xs ≡ true → DueFrom u xs → u ≤ t
  any_due-le t u [] e h = absurd (cc)
  any_due-le t u (x ∷ xs) e (le, h) = elim (Bool-cases (leb x.when t)) [
    | inl due ↦ let near = leb→le x.when t due in omega arith
    | inr late ↦ any_due-le t u xs (rw late at e) h
  ]

  take_due-executing :
      (now : ℕ) (l : EventLoop A) (p : Popped A)
      → p.top.when ≤ now
      → is_executing (take_due now l p).worker_thread ≡ true
  unfolding take_due
  take_due-executing now l p h = elim (Bool-cases (leb p.top.when now)) [
    | inl due ↦ rw due refl
    | inr early ↦ absurd (ground (arith, early))
  ]

  take_scheduled-executing :
      (t place now : ℕ) (l : EventLoop A) (xs : List (ScheduledTask A))
      → any_due t xs ≡ true
      → t ≤ now
      → is_executing (take_scheduled place now l xs).worker_thread ≡ true
  unfolding take_scheduled
  take_scheduled-executing t place now l [] e h = absurd (cc)
  take_scheduled-executing t place now l (x ∷ xs) e h =
      let least = any_due-le t (pop place x xs).top.when (x ∷ xs) e (pop-Least place x xs) in
      take_due-executing now l (pop place x xs) (omega arith)

  take_task-executing :
      (t place now : ℕ) (l : EventLoop A) (tasks : List A)
      → (not (is_empty tasks) || any_due t l.scheduled_tasks) ≡ true
      → t ≤ now
      → is_executing (take_task place now l tasks).worker_thread ≡ true
  unfolding take_task
  take_task-executing t place now l [] e h =
      take_scheduled-executing t place now l l.scheduled_tasks e h
  take_task-executing t place now l (a ∷ more) e h = refl

  -- Nothing is due in front of the time that a wait ends at, or behind a wait for no time.
  none_due : (t : ℕ) (xs : List (ScheduledTask A)) → is_empty xs ≡ true → any_due t xs ≡ false
  none_due t [] e = refl
  none_due t (x ∷ xs) e = absurd (cc)

  abbrev pub is_waiting : Worker A → Bool
  is_waiting waiting = true
  is_waiting (waiting_until time) = true
  is_waiting _ = false

  module _ (execute : A → List (Post A)) (place now : ℕ) where
    pub work-testing :
        (l : EventLoop A)
        → l.worker_thread ≡ testing
        → l.is_running ≡ true
        → work execute place now l ≡ record l { worker_thread = locking }
    unfolding work work_from
    work-testing l e r =
        ap (work_from execute place now l) e
        ∙ ap (λ b. record l { worker_thread = if b then locking else joined }) r

    pub work-locking :
        (t : ℕ) (l : EventLoop A)
        → l.worker_thread ≡ locking
        → has_due t l ≡ true
        → t ≤ now
        → is_executing (work execute place now l).worker_thread ≡ true
    unfolding work work_from
    work-locking t l e due h =
        ap (λ w. is_executing (work_from execute place now l w).worker_thread) e
        ∙ take_task-executing t place now l l.immediate_tasks due h

    -- A wait ends when a task is due.
    pub work_from-waiting :
        (t : ℕ) (l : EventLoop A) (w : Worker A)
        → is_waiting w ≡ true
        → AwakeAt l w
        → has_due t l ≡ true
        → t ≤ now
        → work_from execute place now l w ≡ record l { worker_thread = testing }
    unfolding work_from wake
    work_from-waiting t l testing i a due h = absurd (cc)
    work_from-waiting t l locking i a due h = absurd (cc)
    work_from-waiting t l waiting i a due h =
        let nothing = none_due t l.scheduled_tasks a in
        let ready : may_wake l ≡ true = ground (arith, nothing, due) in rw ready refl
    work_from-waiting t l (waiting_until time) i a due h =
        let ready : (may_wake l || leb time now) ≡ true =
          elim (Bool-cases (any_due t l.scheduled_tasks)) [
            | inl some_due ↦
                let le = any_due-le t time l.scheduled_tasks some_due a in ground (arith, le, h)
            | inr nothing ↦ ground (arith, nothing, due)
          ] in
        rw ready refl
    work_from-waiting t l (executing b) i a due h = absurd (cc)
    work_from-waiting t l joined i a due h = absurd (cc)

  module _ (execute : A → List (Post A)) (t : ℕ) where
    testing-executing :
        (p1 n1 p2 n2 : ℕ) (l : EventLoop A)
        → l.worker_thread ≡ testing
        → l.is_running ≡ true
        → has_due t l ≡ true
        → t ≤ n2
        → is_executing (work execute p2 n2 (work execute p1 n1 l)).worker_thread ≡ true
    testing-executing p1 n1 p2 n2 l e r due h =
        ap (λ m. is_executing (work execute p2 n2 m).worker_thread)
          (work-testing execute p1 n1 l e r)
        ∙ work-locking execute p2 n2 t (record l { worker_thread = locking }) refl due h

    waiting-executing :
        (p1 n1 p2 n2 p3 n3 : ℕ) (l : EventLoop A) (w : Worker A)
        → l.worker_thread ≡ w
        → is_waiting w ≡ true
        → AwakeAt l w
        → l.is_running ≡ true
        → has_due t l ≡ true
        → t ≤ n1
        → t ≤ n3
        → is_executing
            (work execute p3 n3 (work execute p2 n2 (work execute p1 n1 l))).worker_thread
          ≡ true
    unfolding work
    waiting-executing p1 n1 p2 n2 p3 n3 l w e i a r due h1 h3 =
        let woken : work execute p1 n1 l ≡ record l { worker_thread = testing } =
          ap (work_from execute p1 n1 l) e ∙ work_from-waiting execute p1 n1 t l w i a due h1 in
        ap (λ m. is_executing (work execute p3 n3 (work execute p2 n2 m)).worker_thread) woken
        ∙ testing-executing p2 n2 p3 n3 (record l { worker_thread = testing }) refl r due h3

    executes :
        (turns : List (ℕ × ℕ)) (l : EventLoop A) (w : Worker A)
        → l.worker_thread ≡ w
        → AwakeAt l w
        → l.is_running ≡ true
        → has_due t l ≡ true
        → All (λ (turn : ℕ × ℕ). t ≤ turn.1) turns
        → length turns ≡ turns_to_task w
        → is_executing (work_turns execute turns l).worker_thread ≡ true
    unfolding work_turns
    executes ((p1, n1) ∷ (p2, n2) ∷ []) l testing e a r due h n =
        testing-executing p1 n1 p2 n2 l e r due h.1.0
    executes ((p1, n1) ∷ []) l locking e a r due h n = work-locking execute p1 n1 t l e due h.0
    executes ((p1, n1) ∷ (p2, n2) ∷ (p3, n3) ∷ []) l waiting e a r due h n =
        waiting-executing p1 n1 p2 n2 p3 n3 l waiting e refl a r due h.0 h.1.1.0
    executes ((p1, n1) ∷ (p2, n2) ∷ (p3, n3) ∷ []) l (waiting_until u) e a r due h n =
        waiting-executing p1 n1 p2 n2 p3 n3 l (waiting_until u) e refl a r due h.0 h.1.1.0
    executes [] l (executing b) e a r due h n = ap is_executing e
    executes turns l joined e a r due h n = absurd (cc)
    executes turns l w e a r due h n = absurd (omega arith)

    -- If the loop is awake and runs, and a task is immediate or due at a time, then in turns that are
    -- not before that time the worker comes to a task: in none if it is at one, in one from the lock,
    -- in two from the test of `running`, and in three from a wait.
    pub work_turns-executing :
        (turns : List (ℕ × ℕ)) (l : EventLoop A)
        → IsAwake l
        → l.is_running ≡ true
        → has_due t l ≡ true
        → All (λ (turn : ℕ × ℕ). t ≤ turn.1) turns
        → length turns ≡ turns_to_task l.worker_thread
        → is_executing (work_turns execute turns l).worker_thread ≡ true
    work_turns-executing turns l = executes turns l l.worker_thread refl

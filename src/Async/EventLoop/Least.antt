-- ===== src/Async/EventLoop/Least.antt =====
-- The priority queue of async-server/server/main/async_server_coroutines.cpp: what it gives.
use esp_network_examples.Prelude.{
  ℕ, ◌+◌, ◌-◌, ◌≤◌, ◌&&◌, ◌||◌, List, [], ◌∷◌, ◌≡◌, ◌⊎◌, inl, inr, refl, sym, subst, arith, All,
  All-map, ltb, ◌==◌, Bool-cases,
}
use esp_network_examples.Async.EventLoop.{ScheduledTask, Popped, before, pop}

module _ {ℓ} {A : Type ℓ} where
  -- Every task is due at a time or later.
  abbrev pub DueFrom : ℕ → List (ScheduledTask A) → Type 0
  DueFrom t = All (λ (x : ScheduledTask A). t ≤ x.when)

  DueFrom-trans : (t u : ℕ) (xs : List (ScheduledTask A)) → t ≤ u → DueFrom u xs → DueFrom t xs
  DueFrom-trans t u xs le h = All-map xs (λ x g. omega arith) h

  -- The first task is in front, or behind the top of the others.
  before-cases :
      (place : ℕ) (x : ScheduledTask A) (xs : List (ScheduledTask A)) (p : Popped A)
      → ((before place x xs p ≡ record { top = x; others = xs }) × (x.when ≤ p.top.when))
        ⊎ ((before place x xs p ≡ record { top = p.top; others = x ∷ p.others })
            × (p.top.when ≤ x.when))
  unfolding before
  before-cases place x xs p =
      elim (Bool-cases (ltb x.when p.top.when || ((place == 0) && (x.when == p.top.when)))) [
        | inl front ↦ inl (rw front refl, ground (arith, front))
        | inr behind ↦ inr (rw behind refl, ground (arith, behind))
      ]

  before-Least :
      (place : ℕ) (x : ScheduledTask A) (xs : List (ScheduledTask A)) (p : Popped A)
      → DueFrom p.top.when xs
      → DueFrom (before place x xs p).top.when (x ∷ xs)
  before-Least place x xs p h = elim (before-cases place x xs p) [
    | inl (e, le) ↦
        subst (λ (r : Popped A). DueFrom r.top.when (x ∷ xs)) (sym e)
          (omega arith, DueFrom-trans x.when p.top.when xs le h)
    | inr (e, le) ↦ subst (λ (r : Popped A). DueFrom r.top.when (x ∷ xs)) (sym e) (le, h)
  ]

  -- The task that the queue gives is due no later than any other.
  pub pop-Least :
      (place : ℕ) (x : ScheduledTask A) (xs : List (ScheduledTask A))
      → DueFrom (pop place x xs).top.when (x ∷ xs)
  unfolding pop
  pop-Least place x [] = (omega arith, tt)
  pop-Least place x (y ∷ ys) =
      before-Least place x (y ∷ ys) (pop (place - 1) y ys) (pop-Least (place - 1) y ys)

  before-All {κ} :
      (P : ScheduledTask A → Type κ) (place : ℕ) (x : ScheduledTask A) (xs : List (ScheduledTask A))
      (p : Popped A)
      → P x
      → All P xs
      → P p.top × All P p.others
      → P (before place x xs p).top × All P (before place x xs p).others
  before-All P place x xs p px hx h = elim (before-cases place x xs p) [
    | inl (e, le) ↦ rw e ((px, hx))
    | inr (e, le) ↦ rw e ((h.0, (px, h.1)))
  ]

  -- It and the others are tasks of the queue.
  pub pop-All {κ} :
      (P : ScheduledTask A → Type κ) (place : ℕ) (x : ScheduledTask A) (xs : List (ScheduledTask A))
      → All P (x ∷ xs)
      → P (pop place x xs).top × All P (pop place x xs).others
  unfolding pop
  pop-All P place x [] h = h
  pop-All P place x (y ∷ ys) h =
      before-All P place x (y ∷ ys) (pop (place - 1) y ys) h.0 h.1 (pop-All P (place - 1) y ys h.1)

  -- A weight of every task.
  abbrev pub sum_tasks : (A → ℕ) → List (ScheduledTask A) → ℕ
  sum_tasks weight [] = 0
  sum_tasks weight (x ∷ xs) = weight x.task + sum_tasks weight xs

  before-sum_tasks :
      (weight : A → ℕ) (place : ℕ) (x : ScheduledTask A) (xs : List (ScheduledTask A))
      (p : Popped A)
      → weight p.top.task + sum_tasks weight p.others ≡ sum_tasks weight xs
      → weight (before place x xs p).top.task + sum_tasks weight (before place x xs p).others
        ≡ weight x.task + sum_tasks weight xs
  before-sum_tasks weight place x xs p h = elim (before-cases place x xs p) [
    | inl (e, le) ↦ rw e refl
    | inr (e, le) ↦ rw e (omega arith)
  ]

  -- No task is lost, and none is doubled.
  pub pop-sum_tasks :
      (weight : A → ℕ) (place : ℕ) (x : ScheduledTask A) (xs : List (ScheduledTask A))
      → weight (pop place x xs).top.task + sum_tasks weight (pop place x xs).others
        ≡ weight x.task + sum_tasks weight xs
  unfolding pop
  pop-sum_tasks weight place x [] = refl
  pop-sum_tasks weight place x (y ∷ ys) =
      before-sum_tasks weight place x (y ∷ ys) (pop (place - 1) y ys)
        (pop-sum_tasks weight (place - 1) y ys)

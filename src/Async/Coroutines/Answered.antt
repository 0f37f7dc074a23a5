-- ===== src/Async/Coroutines/Answered.antt =====
-- That async-server/server/main/async_server_coroutines.cpp answers each client that it accepts, and after
-- how many turns of the worker.
use esp_network_examples.Prelude.{
  ℕ, ◌+◌, ◌*◌, ◌≤◌, ◌<◌, List, [], ◌∷◌, ◌++◌, ◌≡◌, inl, inr, refl, ap, ◌∙◌, arith, All, length,
  ◌==◌, ltb, Bool-cases,
}
use esp_network_examples.Async.{chunk_size}
use esp_network_examples.Async.EventLoop.{
  ScheduledTask, Worker, testing, locking, waiting, waiting_until, executing, joined, EventLoop,
  start, post, work_turns,
}
use esp_network_examples.Async.EventLoop.Least.{sum_tasks}
use esp_network_examples.Async.EventLoop.Executing.{turns_to_task}
use esp_network_examples.Async.EventLoop.Weights.{
  sum, worker_weight, posted, total, post-total, work-total,
}
use esp_network_examples.Async.EventLoop.Ready.{IsReady, DelayedBy, work-IsReady}
use esp_network_examples.Async.EventLoop.Draining.{paced, drains}
use esp_network_examples.Async.Coroutines.{
  Awaiting, sending_header, sending_chunk, sleeping, Coroutine, headers, at_chunk, resume_at,
  resume, posts_of, execute, CoroutineServer, ServerTurn, connected, refused, worked, new_client,
  server_turn, run_server, coroutine_server,
}
use esp_network_examples.Async.Coroutines.Sending.{
  IsAnswered, run_server-Holds, coroutine_server-Holds,
}
use esp_network_examples.Async.Coroutines.Serving.{
  chunks_from, tasks_at, has_sock, accepted_in, accepted_as, WorkedBy, weight, execute-posts,
  clients_of, run_server-clients_of,
}

abbrev pub worker_turns : List (ℕ × ℕ) → List ServerTurn
worker_turns [] = []
worker_turns ((place, now) ∷ turns) = worked place now ∷ worker_turns turns

accepted_as-worker_turns : (fd : ℕ) (turns : List (ℕ × ℕ)) → accepted_as fd (worker_turns turns) ≡ 0
accepted_as-worker_turns fd [] = refl
accepted_as-worker_turns fd ((place, now) ∷ turns) = accepted_as-worker_turns fd turns

-- The turns of the worker that are enough for so many clients of a file of so many bytes.
abbrev pub turns_enough : ℕ → ℕ → ℕ
turns_enough clients size = 3 * (clients * (1 + 2 * chunks_from size 0)) + 3

turns_to_task-le : (w : Worker Coroutine) → turns_to_task w ≤ 3
turns_to_task-le testing = omega arith
turns_to_task-le locking = omega arith
turns_to_task-le waiting = omega arith
turns_to_task-le (waiting_until time) = omega arith
turns_to_task-le (executing c) = omega arith
turns_to_task-le joined = omega arith

module _ (bytes : List ℕ) where
  weight_pos : (c : Coroutine) → 0 < weight bytes c
  weight_pos c = go c.awaiting
    where
      go : (p : Awaiting) → 0 < tasks_at (length bytes) p
      go sending_header = omega arith
      go (sending_chunk offset) = omega arith
      go (sleeping offset) = omega arith

  has_sock-le : (fd : ℕ) (c : Coroutine) → has_sock fd c ≤ weight bytes c
  has_sock-le fd c = elim (Bool-cases (c.client_sock == fd)) [
    | inl same ↦ rw same (weight_pos c)
    | inr other ↦ rw other (omega arith)
  ]

  sum-le : (fd : ℕ) (cs : List Coroutine) → sum (has_sock fd) cs ≤ sum (weight bytes) cs
  sum-le fd [] = omega arith
  sum-le fd (c ∷ cs) =
      let le = has_sock-le fd c in let rest = sum-le fd cs in omega (arith, le, rest)

  sum_tasks-le :
      (fd : ℕ) (xs : List (ScheduledTask Coroutine))
      → sum_tasks (has_sock fd) xs ≤ sum_tasks (weight bytes) xs
  sum_tasks-le fd [] = omega arith
  sum_tasks-le fd (x ∷ xs) =
      let le = has_sock-le fd x.task in let rest = sum_tasks-le fd xs in omega (arith, le, rest)

  worker_weight-le :
      (fd : ℕ) (w : Worker Coroutine)
      → worker_weight (has_sock fd) w ≤ worker_weight (weight bytes) w
  worker_weight-le fd (executing c) = has_sock-le fd c
  worker_weight-le fd testing = omega arith
  worker_weight-le fd w = omega arith

  total-le : (fd : ℕ) (l : EventLoop Coroutine) → total (has_sock fd) l ≤ total (weight bytes) l
  total-le fd l =
      let i = sum-le fd l.immediate_tasks in
      let s = sum_tasks-le fd l.scheduled_tasks in
      let w = worker_weight-le fd l.worker_thread in omega (arith, i, s, w)

  posted-le :
      (w : Worker Coroutine)
      → posted (weight bytes) (execute bytes) w ≤ worker_weight (weight bytes) w
  posted-le (executing c) = let e = execute-posts bytes c in omega (arith, e)
  posted-le testing = omega arith
  posted-le w = omega arith

  -- Only a client that is accepted adds tasks.
  run_server-total :
      (turns : List ServerTurn) (s : CoroutineServer)
      → total (weight bytes) (run_server bytes turns s).event_loop
        ≤ total (weight bytes) s.event_loop
          + accepted_in turns * (1 + 2 * chunks_from (length bytes) 0)
  unfolding run_server server_turn new_client
  run_server-total [] s = omega arith
  run_server-total (connected fd ∷ turns) s =
      let now = post-total (weight bytes) (new_client fd) s.event_loop in
      let later = run_server-total turns (server_turn bytes (connected fd) s) in
      grind (arith, now, later)
  run_server-total (refused ∷ turns) s = run_server-total turns s
  run_server-total (worked place now ∷ turns) s =
      let same = work-total (weight bytes) (execute bytes) place now s.event_loop in
      let less = posted-le s.event_loop.worker_thread in
      let later = run_server-total turns (server_turn bytes (worked place now) s) in
      omega (arith, same, less, later)

  -- The worker's turns, seen from the event loop.
  run_server-worker_turns :
      (turns : List (ℕ × ℕ)) (s : CoroutineServer)
      → (run_server bytes (worker_turns turns) s).event_loop
        ≡ work_turns (execute bytes) turns s.event_loop
  unfolding run_server server_turn work_turns
  run_server-worker_turns [] s = refl
  run_server-worker_turns ((place, now) ∷ turns) s =
      run_server-worker_turns turns (server_turn bytes (worked place now) s)

  delays : (c : Coroutine) → All (DelayedBy 200) (execute bytes c)
  unfolding execute resume at_chunk resume_at
  delays c = go c.awaiting
    where
      at :
          (offset : ℕ) (d : Coroutine)
          → All (DelayedBy 200) (posts_of (at_chunk (length bytes) offset d))
      at offset d = elim (Bool-cases (ltb offset (length bytes))) [
        | inl more ↦ rw more ((tt, tt))
        | inr over ↦ rw over tt
      ]

      go : (p : Awaiting) → All (DelayedBy 200) (posts_of (resume_at bytes c p))
      go sending_header = at 0 (record c { handed = c.handed ++ headers (length bytes) })
      go (sending_chunk offset) = (omega arith, tt)
      go (sleeping offset) = at (offset + chunk_size) c

  run_server-IsReady :
      (t : ℕ) (turns : List ServerTurn) (s : CoroutineServer)
      → WorkedBy t turns
      → IsReady (t + 200) s.event_loop
      → IsReady (t + 200) (run_server bytes turns s).event_loop
  unfolding run_server server_turn post
  run_server-IsReady t [] s by h = h
  run_server-IsReady t (connected fd ∷ turns) s by h =
      run_server-IsReady t turns (server_turn bytes (connected fd) s) by h
  run_server-IsReady t (refused ∷ turns) s by h = run_server-IsReady t turns s by h
  run_server-IsReady t (worked place now ∷ turns) s by h =
      run_server-IsReady t turns (server_turn bytes (worked place now) s) by.1 (
        work-IsReady (execute bytes) 200 (t + 200) place now s.event_loop delays
          (omega (arith, by.0)) h)

  start_empty : (fd : ℕ) → clients_of bytes fd coroutine_server ≡ 0
  unfolding coroutine_server start
  start_empty fd = refl

  -- Behind any schedule, the worker's turns at least 200 ms apart, enough of them.
  abbrev pub at_rest : ℕ → List ServerTurn → List (ℕ × ℕ) → CoroutineServer
  at_rest t turns paces =
      run_server bytes (worker_turns (paced 200 t paces)) (run_server bytes turns coroutine_server)

  at_rest-total :
      (t : ℕ) (turns : List ServerTurn) (paces : List (ℕ × ℕ))
      → WorkedBy t turns
      → turns_enough (accepted_in turns) (length bytes) ≤ length paces
      → total (weight bytes) (at_rest t turns paces).event_loop ≡ 0
  unfolding coroutine_server start
  at_rest-total t turns paces by enough =
      let s = run_server bytes turns coroutine_server in
      let most = run_server-total turns coroutine_server in
      let few = turns_to_task-le s.event_loop.worker_thread in
      ap (total (weight bytes)) (run_server-worker_turns (paced 200 t paces) s)
      ∙ drains (execute bytes) (weight bytes) (execute-posts bytes) 200 delays t paces s.event_loop
          (coroutine_server-Holds bytes turns).0
          (run_server-IsReady t turns coroutine_server by (refl, tt))
          (omega (arith, most, few, enough))

  -- Whatever turns the main thread and the worker took until a time: if the worker alone then takes
  -- turns at least 200 ms apart, three for each task of an accepted client (one for the header and two
  -- for each chunk of at most 100 bytes) and three more, each client that was accepted has ended, its
  -- descriptor as often as `accept` gave it, and was sent exactly the header and the file.
  pub run_server-IsAnswered :
      (t : ℕ) (turns : List ServerTurn) (paces : List (ℕ × ℕ))
      → WorkedBy t turns
      → turns_enough (accepted_in turns) (length bytes) ≤ length paces
      → ((fd : ℕ) → sum (has_sock fd) (at_rest t turns paces).finished ≡ accepted_as fd turns)
        × All (IsAnswered bytes) (at_rest t turns paces).finished
  run_server-IsAnswered t turns paces by enough = (
    λ fd.
        let s = run_server bytes turns coroutine_server in
        let last = worker_turns (paced 200 t paces) in
        let none_left = at_rest-total t turns paces by enough in
        let le = total-le fd (at_rest t turns paces).event_loop in
        let before = run_server-clients_of bytes fd turns coroutine_server in
        let after = run_server-clients_of bytes fd last s in
        let no_more = accepted_as-worker_turns fd (paced 200 t paces) in
        omega (arith, none_left, le, before, after, no_more, start_empty fd),
    (run_server-Holds bytes (worker_turns (paced 200 t paces))
        (run_server bytes turns coroutine_server) (coroutine_server-Holds bytes turns)).2,
  )

-- ===== src/Async/Coroutines/Serving.antt =====
-- The clients of async-server/server/main/async_server_coroutines.cpp: the tasks that are left of each,
-- and where each one is.
use esp_network_examples.Prelude.{
  ℕ, suc, ◌+◌, ◌-◌, ◌*◌, ◌/◌, ◌≤◌, List, [], ◌∷◌, ◌++◌, ◌≡◌, inl, inr, refl, arith, length, ◌==◌,
  if◌then◌else◌, ltb, ltb→lt, not_ltb→le, Bool-cases,
}
use esp_network_examples.Async.{chunk_size}
use esp_network_examples.Async.EventLoop.{Worker, testing, executing}
use esp_network_examples.Async.EventLoop.Weights.{
  sum, worker_weight, posts_weight, posted, total, sum-append, post-total, work-total,
}
use esp_network_examples.Async.Coroutines.{
  Awaiting, sending_header, sending_chunk, sleeping, Coroutine, headers, Resumed, at_chunk,
  resume_at, resume, posts_of, execute, CoroutineServer, ServerTurn, connected, refused, worked,
  new_client, closed_of, ended_by, server_turn, run_server,
}

-- The tasks that are left of a coroutine: two for each chunk, and one for the header.
abbrev pub chunks_from : ℕ → ℕ → ℕ
chunks_from size offset = ((size - offset) + 99) / 100

abbrev pub tasks_at : ℕ → Awaiting → ℕ
tasks_at size sending_header = 1 + 2 * chunks_from size 0
tasks_at size (sending_chunk offset) = 2 + 2 * chunks_from size (offset + 100)
tasks_at size (sleeping offset) = 1 + 2 * chunks_from size (offset + 100)

abbrev pub tasks_of : ℕ → Coroutine → ℕ
tasks_of size c = tasks_at size c.awaiting

abbrev pub has_sock : ℕ → Coroutine → ℕ
has_sock fd c = if c.client_sock == fd then 1 else 0

-- The clients that `accept` gave.
abbrev pub accepted_in : List ServerTurn → ℕ
accepted_in [] = 0
accepted_in (connected fd ∷ turns) = suc (accepted_in turns)
accepted_in (_ ∷ turns) = accepted_in turns

-- How often `accept` gave a descriptor.
abbrev pub accepted_as : ℕ → List ServerTurn → ℕ
accepted_as fd [] = 0
accepted_as fd (connected sock ∷ turns) = (if sock == fd then 1 else 0) + accepted_as fd turns
accepted_as fd (_ ∷ turns) = accepted_as fd turns

-- No turn of the worker is later than a time.
abbrev pub WorkedBy : ℕ → List ServerTurn → Type 0
WorkedBy t [] = Unit {0}
WorkedBy t (worked place now ∷ turns) = (now ≤ t) × WorkedBy t turns
WorkedBy t (_ ∷ turns) = WorkedBy t turns

module _ (bytes : List ℕ) where
  abbrev pub weight : Coroutine → ℕ
  weight = tasks_of (length bytes)

  at_chunk-posts :
      (offset : ℕ) (c : Coroutine)
      → posts_weight weight (posts_of (at_chunk (length bytes) offset c))
        ≡ 2 * chunks_from (length bytes) offset
  unfolding at_chunk
  at_chunk-posts offset c = elim (Bool-cases (ltb offset (length bytes))) [
    | inl more ↦ let lt = ltb→lt offset (length bytes) more in rw more (omega (arith, lt))
    | inr over ↦ let le = not_ltb→le offset (length bytes) over in rw over (omega (arith, le))
  ]

  resume_at-posts :
      (c : Coroutine) (p : Awaiting)
      → suc (posts_weight weight (posts_of (resume_at bytes c p))) ≡ tasks_at (length bytes) p
  unfolding resume_at
  resume_at-posts c sending_header =
      let e = at_chunk-posts 0 (record c { handed = c.handed ++ headers (length bytes) }) in
      omega (arith, e)
  resume_at-posts c (sending_chunk offset) = omega arith
  resume_at-posts c (sleeping offset) =
      let e = at_chunk-posts (offset + chunk_size) c in omega (arith, e)

  -- Each task of a coroutine leaves one less.
  pub execute-posts : (c : Coroutine) → suc (posts_weight weight (execute bytes c)) ≡ weight c
  unfolding execute resume
  execute-posts c = resume_at-posts c c.awaiting

  -- A coroutine that is resumed is posted again, or has ended, with its socket.
  KeepsSock : ℕ → Coroutine → Resumed → Type 0
  KeepsSock fd c r =
      posts_weight (has_sock fd) (posts_of r) + sum (has_sock fd) (closed_of r) ≡ has_sock fd c

  at_chunk-KeepsSock :
      (fd offset : ℕ) (c : Coroutine) → KeepsSock fd c (at_chunk (length bytes) offset c)
  unfolding at_chunk KeepsSock
  at_chunk-KeepsSock fd offset c = elim (Bool-cases (ltb offset (length bytes))) [
    | inl more ↦ rw more (omega arith)
    | inr over ↦ rw over (omega arith)
  ]

  resume_at-KeepsSock :
      (fd : ℕ) (c : Coroutine) (p : Awaiting) → KeepsSock fd c (resume_at bytes c p)
  unfolding resume_at KeepsSock
  resume_at-KeepsSock fd c sending_header =
      at_chunk-KeepsSock fd 0 (record c { handed = c.handed ++ headers (length bytes) })
  resume_at-KeepsSock fd c (sending_chunk offset) = omega arith
  resume_at-KeepsSock fd c (sleeping offset) = at_chunk-KeepsSock fd (offset + chunk_size) c

  posted-ended :
      (fd : ℕ) (w : Worker Coroutine)
      → posted (has_sock fd) (execute bytes) w + sum (has_sock fd) (ended_by bytes w)
        ≡ worker_weight (has_sock fd) w
  unfolding execute ended_by resume KeepsSock
  posted-ended fd (executing c) = resume_at-KeepsSock fd c c.awaiting
  posted-ended fd testing = refl
  posted-ended fd w = refl

  -- How many clients of a descriptor the event loop holds, or have ended.
  abbrev pub clients_of : ℕ → CoroutineServer → ℕ
  clients_of fd s = total (has_sock fd) s.event_loop + sum (has_sock fd) s.finished

  server_turn-clients :
      (fd : ℕ) (turn : ServerTurn) (s : CoroutineServer)
      → clients_of fd (server_turn bytes turn s) ≡ clients_of fd s + accepted_as fd (turn ∷ [])
  unfolding server_turn new_client
  server_turn-clients fd (connected sock) s =
      let e = post-total (has_sock fd) (new_client sock) s.event_loop in omega (arith, e)
  server_turn-clients fd refused s = omega arith
  server_turn-clients fd (worked place now) s =
      let w = s.event_loop.worker_thread in
      let same = work-total (has_sock fd) (execute bytes) place now s.event_loop in
      let goes = posted-ended fd w in
      let n = sum-append (has_sock fd) (ended_by bytes w) s.finished in omega (arith, same, goes, n)

  accepted_as-cons :
      (fd : ℕ) (turn : ServerTurn) (turns : List ServerTurn)
      → accepted_as fd (turn ∷ turns) ≡ accepted_as fd (turn ∷ []) + accepted_as fd turns
  accepted_as-cons fd (connected sock) turns = omega arith
  accepted_as-cons fd refused turns = omega arith
  accepted_as-cons fd (worked place now) turns = omega arith

  -- Whatever turns are taken, no client is lost and none is doubled: for each descriptor, those that
  -- the event loop holds and those that ended are those of before and those that were accepted.
  pub run_server-clients_of :
      (fd : ℕ) (turns : List ServerTurn) (s : CoroutineServer)
      → clients_of fd (run_server bytes turns s) ≡ clients_of fd s + accepted_as fd turns
  unfolding run_server
  run_server-clients_of fd [] s = omega arith
  run_server-clients_of fd (turn ∷ turns) s =
      let now = server_turn-clients fd turn s in
      let later = run_server-clients_of fd turns (server_turn bytes turn s) in
      let both = accepted_as-cons fd turn turns in omega (arith, now, later, both)

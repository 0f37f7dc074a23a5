-- ===== src/Async/Coroutines/Sending.antt =====
-- What the clients of async-server/server/main/async_server_coroutines.cpp are sent, however the main
-- thread and the worker take turns.
use esp_network_examples.Prelude.{
  ℕ, ◌+◌, List, [], ◌∷◌, ◌++◌, ◌≡◌, inl, inr, refl, sym, ap, ◌∙◌, All, All-append, append-nil,
  length, drop, drop_all, ltb, not_ltb→le, Bool-cases,
}
use esp_network_examples.Async.{chunk_size}
use esp_network_examples.Async.Chunks.{sent-chunk}
use esp_network_examples.Async.EventLoop.{Worker, testing, executing, start}
use esp_network_examples.Async.EventLoop.Awake.{IsAwake, post-IsAwake, work-IsAwake}
use esp_network_examples.Async.EventLoop.Tasks.{
  OfPost, OfWorker, AllTasks, post-AllTasks, work-AllTasks,
}
use esp_network_examples.Async.Coroutines.{
  Awaiting, sending_header, sending_chunk, sleeping, Coroutine, headers, Resumed, suspended, closed,
  at_chunk, resume_at, resume, posts_of, execute, CoroutineServer, ServerTurn, connected, refused,
  worked, new_client, closed_of, ended_by, server_turn, run_server, coroutine_server,
}

module _ (bytes : List ℕ) where
  -- What a client is sent.
  abbrev pub answer : List ℕ
  answer = headers (length bytes) ++ bytes

  -- What was sent, and what is still to be sent, are the header and the file.
  abbrev pub SendsAt : List ℕ → Awaiting → Type 0
  SendsAt out sending_header = out ≡ []
  SendsAt out (sending_chunk offset) = out ++ drop offset bytes ≡ answer
  SendsAt out (sleeping offset) = out ++ drop (offset + chunk_size) bytes ≡ answer

  abbrev pub Sends : Coroutine → Type 0
  Sends c = SendsAt c.handed c.awaiting

  abbrev pub IsAnswered : Coroutine → Type 0
  IsAnswered c = c.handed ≡ answer

  abbrev ResumedHolds : Resumed → Type 0
  ResumedHolds (suspended p) = OfPost Sends p
  ResumedHolds (closed c) = IsAnswered c

  at_chunk-Holds :
      (offset : ℕ) (c : Coroutine)
      → c.handed ++ drop offset bytes ≡ answer
      → ResumedHolds (at_chunk (length bytes) offset c)
  unfolding at_chunk
  at_chunk-Holds offset c h = elim (Bool-cases (ltb offset (length bytes))) [
    | inl more ↦ rw more h
    | inr over ↦
        let gone = drop_all offset bytes (not_ltb→le offset (length bytes) over) in
        rw over (sym (append-nil c.handed) ∙ ap (λ rest. c.handed ++ rest) (sym gone) ∙ h)
  ]

  resume_at-Holds :
      (c : Coroutine) (p : Awaiting) → SendsAt c.handed p → ResumedHolds (resume_at bytes c p)
  unfolding resume_at
  resume_at-Holds c sending_header h =
      at_chunk-Holds 0 (record c { handed = c.handed ++ headers (length bytes) })
        (ap (λ out. (out ++ headers (length bytes)) ++ bytes) h)
  resume_at-Holds c (sending_chunk offset) h = sent-chunk bytes c.handed answer offset h
  resume_at-Holds c (sleeping offset) h = at_chunk-Holds (offset + chunk_size) c h

  posts_of-Holds : (r : Resumed) → ResumedHolds r → All (OfPost Sends) (posts_of r)
  posts_of-Holds (suspended p) h = (h, tt)
  posts_of-Holds (closed c) h = tt

  closed_of-Holds : (r : Resumed) → ResumedHolds r → All IsAnswered (closed_of r)
  closed_of-Holds (suspended p) h = tt
  closed_of-Holds (closed c) h = (h, tt)

  execute-Holds : (c : Coroutine) → Sends c → All (OfPost Sends) (execute bytes c)
  unfolding execute resume
  execute-Holds c h = posts_of-Holds (resume_at bytes c c.awaiting) (resume_at-Holds c c.awaiting h)

  ended_by-Holds : (w : Worker Coroutine) → OfWorker Sends w → All IsAnswered (ended_by bytes w)
  unfolding ended_by resume
  ended_by-Holds testing h = tt
  ended_by-Holds (executing c) h =
      closed_of-Holds (resume_at bytes c c.awaiting) (resume_at-Holds c c.awaiting h)
  ended_by-Holds w h = tt

  -- The event loop is awake; each coroutine that it holds sends the file, and each that ended has.
  abbrev pub CoroutinesHold : CoroutineServer → Type 0
  CoroutinesHold s = IsAwake s.event_loop × AllTasks Sends s.event_loop × All IsAnswered s.finished

  server_turn-Holds :
      (turn : ServerTurn) (s : CoroutineServer)
      → CoroutinesHold s
      → CoroutinesHold (server_turn bytes turn s)
  unfolding server_turn new_client
  server_turn-Holds (connected fd) s (a, t, f) = (
    post-IsAwake (new_client fd) s.event_loop a,
    post-AllTasks Sends (new_client fd) s.event_loop refl t,
    f,
  )
  server_turn-Holds refused s h = h
  server_turn-Holds (worked place now) s (a, t, f) = (
    work-IsAwake (execute bytes) place now s.event_loop a,
    work-AllTasks Sends (execute bytes) place now s.event_loop execute-Holds t,
    All-append IsAnswered (ended_by bytes s.event_loop.worker_thread) s.finished
        (ended_by-Holds s.event_loop.worker_thread t.2) f,
  )

  pub run_server-Holds :
      (turns : List ServerTurn) (s : CoroutineServer)
      → CoroutinesHold s
      → CoroutinesHold (run_server bytes turns s)
  unfolding run_server
  run_server-Holds [] s h = h
  run_server-Holds (turn ∷ turns) s h =
      run_server-Holds turns (server_turn bytes turn s) (server_turn-Holds turn s h)

  -- Whatever turns the main thread and the worker take: what each coroutine has sent, followed by the
  -- rest of the file, is the header and the file, once it has sent the header; each that ended has
  -- sent exactly the header and the file; a worker that waits for no time has no scheduled task, one
  -- that waits until a time has none that is due earlier, and the worker has not left its loop unless
  -- `running` is false.
  pub coroutine_server-Holds :
      (turns : List ServerTurn) → CoroutinesHold (run_server bytes turns coroutine_server)
  unfolding coroutine_server start
  coroutine_server-Holds turns = run_server-Holds turns coroutine_server (tt, (tt, tt, tt), tt)

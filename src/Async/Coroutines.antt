-- ===== src/Async/Coroutines.antt =====
-- async-server/server/main/async_server_coroutines.cpp: the coroutines of the clients, which the event
-- loop resumes, and the loop that accepts. Its main thread and the worker take turns. The call of
-- `stop` and what stands beside it are behind an endless loop.
pub mod Sending
pub mod Serving
pub mod Answered
mod Tests
use esp_network_examples.Prelude.{
  ℕ, zero, suc, ◌+◌, List, [], ◌∷◌, ◌++◌, length, take, drop, ltb, if◌then◌else◌, codes,
}
use esp_network_examples.Async.{chunk_size, decimal, chunk}
use esp_network_examples.Async.EventLoop.{
  Worker, executing, EventLoop, Post, soon, delayed, start, post, work,
}

-- Where a coroutine is suspended: in `AsyncSend` of the header, or of the chunk at an offset, or in the
-- `Sleep` behind it.
pub data Awaiting : Type 0 where
  sending_header : Awaiting
  sending_chunk sleeping : ℕ → Awaiting

-- A coroutine, with the bytes that it handed to `send` so far. The answer of `send` is not looked at.
pub record Coroutine : Type 0 where
  pub client_sock : ℕ
  pub awaiting : Awaiting
  pub handed : List ℕ

-- 20 digits are enough for a `size_t` of 64 bits.
unfoldable pub headers : ℕ → List ℕ
headers size =
    codes "HTTP/1.1 200 OK\r\nContent-Length: "
    ++ (decimal 20 size ++ codes "\r\nContent-Type: text/html\r\nConnection: close\r\n\r\n")

-- Up to the next `co_await`, where the coroutine is handed to the event loop, or to the end, where
-- its socket is closed.
pub data Resumed : Type 0 where
  suspended : Post Coroutine → Resumed
  closed : Coroutine → Resumed

-- The test of the loop and what follows it.
unfoldable pub at_chunk : ℕ → ℕ → Coroutine → Resumed
at_chunk file_size offset c =
    if ltb offset file_size
    then suspended (soon (record c { awaiting = sending_chunk offset }))
    else closed c

-- The function that was posted: `send`, where it is one, and the coroutine.
unfoldable pub resume_at : List ℕ → Coroutine → Awaiting → Resumed
resume_at bytes c sending_header =
    at_chunk (length bytes) 0 (record c { handed = c.handed ++ headers (length bytes) })
resume_at bytes c (sending_chunk offset) = suspended (
    delayed
      (record c {
        awaiting = sleeping offset;
        handed = c.handed ++ take (chunk (length bytes) offset) (drop offset bytes);
      })
      200)
resume_at bytes c (sleeping offset) = at_chunk (length bytes) (offset + chunk_size) c

unfoldable pub resume : List ℕ → Coroutine → Resumed
resume bytes c = resume_at bytes c c.awaiting

-- What a task posts to the event loop.
abbrev pub posts_of : Resumed → List (Post Coroutine)
posts_of (suspended p) = p ∷ []
posts_of (closed c) = []

unfoldable pub execute : List ℕ → Coroutine → List (Post Coroutine)
execute bytes c = posts_of (resume bytes c)

-- The event loop, and the coroutines that ended, the latest first.
pub record CoroutineServer : Type 0 where
  pub event_loop : EventLoop Coroutine
  pub finished : List Coroutine

-- The main thread's turn, where `accept` gives a descriptor or a negative number, or the worker's, at
-- a place of the queue and a time.
pub data ServerTurn : Type 0 where
  connected : ℕ → ServerTurn
  refused : ServerTurn
  worked : ℕ → ℕ → ServerTurn

-- `handle_client` up to its first `co_await`
unfoldable pub new_client : ℕ → Coroutine
new_client fd = record { client_sock = fd; awaiting = sending_header; handed = [] }

abbrev pub closed_of : Resumed → List Coroutine
closed_of (suspended p) = []
closed_of (closed c) = c ∷ []

unfoldable pub ended_by : List ℕ → Worker Coroutine → List Coroutine
ended_by bytes (executing c) = closed_of (resume bytes c)
ended_by bytes _ = []

unfoldable pub server_turn : List ℕ → ServerTurn → CoroutineServer → CoroutineServer
server_turn bytes (connected fd) s = record s { event_loop = post (new_client fd) s.event_loop }
server_turn bytes refused s = s
server_turn bytes (worked place now) s = record {
  event_loop = work (execute bytes) place now s.event_loop;
  finished = ended_by bytes s.event_loop.worker_thread ++ s.finished;
}

unfoldable pub run_server : List ℕ → List ServerTurn → CoroutineServer → CoroutineServer
run_server bytes [] s = s
run_server bytes (turn ∷ turns) s = run_server bytes turns (server_turn bytes turn s)

-- In front of the loop that accepts.
unfoldable pub coroutine_server : CoroutineServer
coroutine_server = record { event_loop = start; finished = [] }

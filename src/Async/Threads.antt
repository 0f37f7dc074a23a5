-- ===== src/Async/Threads.antt =====
-- async-server/server/main/async_server_pthread.c, async_server: the loop that accepts, and the
-- threads of the clients, which were detached. A schedule says whose turn it is; a turn goes to the
-- next call of `accept`, `send` or `free`. The answers of `malloc` and `pthread_create` for a client,
-- which the code does not look at, stand in the turn.
pub mod Invariant
pub mod Sending
pub mod Freeing
pub mod Serving
use esp_network_examples.Prelude.{
  ℕ, zero, suc, ◌+◌, ℤ, Bool, true, false, ◌||◌, List, [], ◌∷◌, ◌++◌, Option, none, some, length,
  take, drop, ltb, if◌then◌else◌,
}
use esp_network_examples.Async.{chunk_size, header, chunk}

-- Where a thread stands: before the header, or before the chunk at an offset.
pub data Stage : Type 0 where
  at_header : Stage
  at_offset : ℕ → Stage

-- A thread with its arguments, of which `file_data` is the one of the server, and the bytes that it handed to `send` so far.
pub record Client : Type 0 where
  pub client_fd : ℕ
  pub file_size : ℕ
  pub progress : Stage
  pub sent : List ℕ

-- The loop accepts, was left, or is behind `free`.
pub data Loop : Type 0 where
  accepting leaving left : Loop

-- The file, `none` once it was freed; the threads, the latest first; and the threads that ended.
pub record WebServer : Type 0 where
  pub file_data : Option (List ℕ)
  pub fsize : ℕ
  pub loop : Loop
  pub clients : List Client
  pub ended : List Client

-- What an accepted client gets: a thread, arguments without a thread, or not even these.
pub data Created : Type 0 where
  has_thread no_thread no_memory : Created

-- Whose turn it is: the loop's, where `accept` gives a descriptor or a negative number, or behind it;
-- or a thread's, by its place.
pub data Turn : Type 0 where
  accepted : Created → ℕ → Turn
  accept_failed file_freed : Turn
  thread : ℕ → Turn

-- What a thread's turn comes to: it goes on, it ends, or it read the file after `free`.
pub data Moved : Type 0 where
  going done : Client → Moved
  read_freed : Moved

unfoldable pub send_chunk : Option (List ℕ) → Client → ℕ → Moved
send_chunk none c offset = read_freed
send_chunk (some bytes) c offset = going (record c {
  progress = at_offset (offset + chunk_size);
  sent = c.sent ++ take (chunk c.file_size offset) (drop offset bytes);
})

unfoldable pub move_from : Option (List ℕ) → Client → Stage → Moved
move_from file c at_header =
    going (record c { progress = at_offset 0; sent = c.sent ++ header c.file_size })
move_from file c (at_offset offset) =
    if ltb offset c.file_size then send_chunk file c offset else done c

-- A schedule goes on; or a thread read the file behind `free`; or the arguments of a client were
-- written through the null pointer that `malloc` gave.
pub data Scheduled : Type 0 where
  goes_on : WebServer → Scheduled
  freed_read null_written : Scheduled

-- The state behind a thread's turn. Each list that a turn
-- rebuilds stands in front of those that it passed.
unfoldable pub after_move : WebServer → List Client → List Client → Moved → Scheduled
after_move s passed cs read_freed = freed_read
after_move s passed cs (going c) = goes_on (record s { clients = passed ++ (c ∷ cs) })
after_move s passed cs (done c) = goes_on (record s { clients = passed ++ cs; ended = c ∷ s.ended })

-- The turn of the thread at a place; there may be none.
unfoldable pub move_at : WebServer → List Client → ℕ → List Client → Scheduled
move_at s passed n [] = goes_on s
move_at s passed zero (c ∷ cs) = after_move s passed cs (move_from s.file_data c c.progress)
move_at s passed (suc n) (c ∷ cs) = move_at s (passed ++ (c ∷ [])) n cs

-- Without a thread the client stays connected, and nobody serves it.
unfoldable pub accept : WebServer → Loop → Created → ℕ → Scheduled
accept s accepting has_thread fd = goes_on (record s {
  clients =
      record { client_fd = fd; file_size = s.fsize; progress = at_header; sent = [] } ∷ s.clients;
})
accept s accepting no_thread fd = goes_on s
accept s accepting no_memory fd = null_written
accept s _ made fd = goes_on s

unfoldable pub leave : WebServer → Loop → WebServer
leave s accepting = record s { loop = leaving }
leave s _ = s

unfoldable pub free_file : WebServer → Loop → WebServer
free_file s leaving = record s { file_data = none; loop = left }
free_file s _ = s

-- A turn that cannot be taken does nothing.
unfoldable pub take_turn : Turn → WebServer → Scheduled
take_turn (accepted made fd) s = accept s s.loop made fd
take_turn accept_failed s = goes_on (leave s s.loop)
take_turn file_freed s = goes_on (free_file s s.loop)
take_turn (thread n) s = move_at s [] n s.clients

-- The rest of a schedule, unless freed memory was read or a null pointer written.
abbrev pub if_running : (WebServer → Scheduled) → Scheduled → Scheduled
if_running next (goes_on s) = next s
if_running next stopped = stopped

unfoldable pub run : List Turn → WebServer → Scheduled
run [] s = goes_on s
run (turn ∷ turns) s = if_running (run turns) (take_turn turn s)

-- In front of the loop.
unfoldable pub async_server : List ℕ → WebServer
async_server bytes = record {
  file_data = some bytes;
  fsize = length bytes;
  loop = accepting;
  clients = [];
  ended = [];
}

-- ===== src/Async/Coroutines/Tests.antt =====
-- The theorems on the coroutines and on their event loop, applied to runs.
use esp_network_examples.Prelude.{
  ℕ, ◌/◌, true, List, [], ◌∷◌, ◌≡◌, refl, arith, All, codes, replicate,
}
use esp_network_examples.Async.EventLoop.{
  testing, waiting_until, executing, joined, EventLoop, Post, delayed, start, stop, post,
  post_delayed, work_turns, work, work_from, make_posts, take_task, take_scheduled, take_due, pop,
  before, wake,
}
use esp_network_examples.Async.EventLoop.Executing.{is_executing, work_turns-executing}
use esp_network_examples.Async.EventLoop.Stopping.{stop-joined, post_delayed-asleep}
use esp_network_examples.Async.EventLoop.Weights.{sum}
use esp_network_examples.Async.Coroutines.{
  headers, ServerTurn, connected, refused, worked, sending_chunk, sending_header, run_server,
  server_turn, coroutine_server, execute, resume, resume_at, at_chunk, new_client,
}
use esp_network_examples.Async.Coroutines.Sending.{
  IsAnswered, CoroutinesHold, coroutine_server-Holds,
}
use esp_network_examples.Async.Coroutines.Serving.{has_sock, accepted_as}
use esp_network_examples.Async.Coroutines.Answered.{at_rest, run_server-IsAnswered}

headers_of_250 :
    headers 250
    ≡ codes
        "HTTP/1.1 200 OK\r\nContent-Length: 250\r\nContent-Type: text/html\r\nConnection: close\r\n\r\n"
unfolding headers
headers_of_250 = refl

abbrev file : List ℕ
file = replicate 150 65

-- Two clients are accepted, and the worker sends the header to the first one.
abbrev first_turns : List ServerTurn
first_turns = connected 7 ∷ worked 0 0 ∷ refused ∷ worked 0 5 ∷ connected 8 ∷ worked 0 10 ∷ []

-- The header was sent to the first one, which waits behind the second one.
two_clients : (run_server file first_turns coroutine_server).event_loop ≡ record {
  immediate_tasks =
      record { client_sock = 8; awaiting = sending_header; handed = [] }
      ∷ record { client_sock = 7; awaiting = sending_chunk 0; handed = headers 150 }
      ∷ [];
  scheduled_tasks = [];
  is_running = true;
  worker_thread = testing;
}
unfolding run_server server_turn coroutine_server start post new_client work work_from take_task
    make_posts execute resume resume_at at_chunk
two_clients = refl

coroutine_server-Holds_example : CoroutinesHold file (run_server file first_turns coroutine_server)
coroutine_server-Holds_example = coroutine_server-Holds file first_turns

run_server-IsAnswered_example :
    ((fd : ℕ)
      → sum (has_sock fd) (at_rest file 10 first_turns (replicate 33 (1, 50))).finished
        ≡ accepted_as fd first_turns)
    × All (IsAnswered file) (at_rest file 10 first_turns (replicate 33 (1, 50))).finished
run_server-IsAnswered_example =
    run_server-IsAnswered file 10 first_turns (replicate 33 (1, 50)) (omega arith) (omega arith)

-- A loop of numbers, each of which posts its half later.
abbrev halves : ℕ → List (Post ℕ)
halves n = delayed (n / 2) 30 ∷ []

-- Three tasks are scheduled, two of them for the same time.
abbrev asleep_until_40 : EventLoop ℕ
asleep_until_40 = record {
  immediate_tasks = [];
  scheduled_tasks =
      record { when = 50; task = 3 }
      ∷ record { when = 40; task = 8 }
      ∷ record { when = 40; task = 9 }
      ∷ [];
  is_running = true;
  worker_thread = waiting_until 40;
}

work_turns-executing_example :
    is_executing
      (work_turns halves ((0, 40) ∷ (0, 41) ∷ (2, 45) ∷ []) asleep_until_40).worker_thread
    ≡ true
work_turns-executing_example =
    work_turns-executing halves 40 ((0, 40) ∷ (0, 41) ∷ (2, 45) ∷ []) asleep_until_40 (omega arith)
      refl refl (omega arith) refl

-- The task is the one at the place that the turn names.
third_taken :
    (work_turns halves ((0, 40) ∷ (0, 41) ∷ (2, 45) ∷ []) asleep_until_40).worker_thread
    ≡ executing 9
unfolding work_turns work work_from wake take_task take_scheduled take_due pop before
third_taken = refl

stop-joined_example :
    (work_turns halves ((0, 10) ∷ (0, 11) ∷ []) (stop asleep_until_40)).worker_thread ≡ joined
stop-joined_example = stop-joined halves ((0, 10) ∷ (0, 11) ∷ []) asleep_until_40 refl

-- A task that is due at 15 is slept over until 40.
post_delayed-asleep_example :
    work_turns halves ((0, 20) ∷ (0, 39) ∷ []) (post_delayed 10 4 5 asleep_until_40)
    ≡ post_delayed 10 4 5 asleep_until_40
post_delayed-asleep_example =
    post_delayed-asleep halves ((0, 20) ∷ (0, 39) ∷ []) 10 4 5 asleep_until_40 (omega arith) refl
      refl

-- ===== src/Async/Tests.antt =====
-- The theorem on the web server's clients, applied to a run.
use esp_network_examples.Prelude.{
  ℕ, ◌≤◌, true, arith, false, some, pos, [], ◌∷◌, ◌++◌, ◌≡◌, refl, map, codes, replicate,
}
use esp_network_examples.Os.{Env, other}
use esp_network_examples.Async.{Call, header}
use esp_network_examples.Async.Stats.{TaskStatus, blocked, System, cpu_str, stats_timer_callback}
use esp_network_examples.Async.Stats.Percent.{
  sum, shown_percent, rows_of, bound, scan_percent, stats_timer_callback-bounded,
  scan_percent-cpu_str,
}
use esp_network_examples.Async.Threads.{
  Client, at_header, at_offset, WebServer, goes_on, freed_read, accepting, has_thread, accepted,
  accept_failed, file_freed, thread, run, async_server, take_turn, accept, move_at, after_move,
  move_from, send_chunk,
}
use esp_network_examples.Async.Threads.Invariant.{RunHolds}
use esp_network_examples.Async.Threads.Sending.{async_server-RunHolds}
use esp_network_examples.Async.Threads.Serving.{Ends, run-accepted}
use esp_network_examples.Async.Threads.Freeing.{run-reads_freed}

abbrev fine : Env Call
fine t c = record { ret = pos 0; errno = other; bytes = [] }

header_of_250 :
    header 250 ≡ codes "HTTP/1.1 200 OK\r\nContent-Length: 250\r\nContent-Type: text/html\r\n\r\n"
unfolding header
header_of_250 = refl

-- Two clients whose threads take turns; then `accept` fails, and the first client reads freed memory.
abbrev first_client : Client
first_client = record {
  client_fd = 5;
  file_size = 250;
  progress = at_offset 100;
  sent = header 250 ++ replicate 100 65;
}

abbrev serving : WebServer
serving = record {
  file_data = some (replicate 250 65);
  fsize = 250;
  loop = accepting;
  clients =
      record { client_fd = 6; file_size = 250; progress = at_header; sent = [] }
      ∷ first_client
      ∷ [];
  ended = [];
}

-- `serving` is reached.
serving_lem :
    run
      (accepted has_thread 5 ∷ thread 0 ∷ thread 0 ∷ accepted has_thread 6 ∷ [])
      (async_server (replicate 250 65))
    ≡ goes_on serving
unfolding run take_turn accept move_at after_move move_from send_chunk async_server
serving_lem = refl

run-reads_freed_example : run (accept_failed ∷ file_freed ∷ thread 1 ∷ []) serving ≡ freed_read
run-reads_freed_example =
    run-reads_freed serving
      (record { client_fd = 6; file_size = 250; progress = at_header; sent = [] } ∷ []) first_client
      [] 100 refl refl refl refl

async_server-RunHolds_example : RunHolds (replicate 250 65) false false (
    run
      (accepted has_thread 5 ∷ thread 0 ∷ thread 0 ∷ accepted has_thread 6 ∷ [])
      (async_server (replicate 250 65)))
async_server-RunHolds_example =
    async_server-RunHolds (replicate 250 65)
      (accepted has_thread 5 ∷ thread 0 ∷ thread 0 ∷ accepted has_thread 6 ∷ [])

-- Beside the two clients a third one, with a turn for the header, three for chunks, and the last.
run-accepted_example :
    Ends
      (replicate 250 65)
      7
      serving
      (run (accepted has_thread 7 ∷ thread 0 ∷ replicate 4 (thread 0)) serving)
run-accepted_example =
    run-accepted (replicate 250 65) 7 serving 3 refl refl refl (omega arith) (omega arith)

-- Two cores that were idle nearly all the time, and a timer task (README.md shows such a table).
abbrev task_of : ℕ → TaskStatus
task_of counter = record {
  task_name = codes "task";
  state = blocked;
  priority = 5;
  stack_high_water_mark = 900;
  run_time_counter = counter;
}

abbrev statistics : System
statistics = record {
  is_allocated = true;
  tasks = task_of 9500 ∷ task_of 8600 ∷ task_of 1000 ∷ [];
  total_run_time = 10000;
  free_heap = 1000;
  min_free_heap = 900;
}

stats_timer_callback-bounded_example :
    sum (map shown_percent (rows_of (stats_timer_callback statistics).0)) ≤ bound 2 10000
stats_timer_callback-bounded_example =
    stats_timer_callback-bounded 2 statistics (omega arith) (omega arith)

cpu_str_of_max : scan_percent 0 (cpu_str 4294967295) ≡ some 4294967295
cpu_str_of_max = scan_percent-cpu_str 4294967295 (omega arith)

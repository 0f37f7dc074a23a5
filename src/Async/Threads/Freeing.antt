-- ===== src/Async/Threads/Freeing.antt =====
-- The end of async_server in async-server/server/main/async_server_pthread.c.
use esp_network_examples.Prelude.{ℕ, true, List, [], ◌∷◌, ◌++◌, none, ◌≡◌, refl, length, ltb}
use esp_network_examples.Async.Threads.{
  Stage, at_offset, Client, accepting, left, WebServer, freed_read, accept_failed, file_freed,
  thread, read_freed, send_chunk, move_from, after_move, move_at, leave, free_file, take_turn, run,
}

move_at-read_freed :
    (s : WebServer) (passed before : List Client) (c : Client) (cs : List Client)
    → move_from s.file_data c c.progress ≡ read_freed
    → move_at s passed (length before) (before ++ (c ∷ cs)) ≡ freed_read
unfolding move_at after_move
move_at-read_freed s passed [] c cs e = rw e refl
move_at-read_freed s passed (b ∷ before) c cs e =
    move_at-read_freed s (passed ++ (b ∷ [])) before c cs e

move_from-read_freed :
    (c : Client) (p : Stage) (offset : ℕ)
    → p ≡ at_offset offset
    → ltb offset c.file_size ≡ true
    → move_from none c p ≡ read_freed
unfolding move_from send_chunk
move_from-read_freed c p offset e more = rw e (rw more refl)

-- Where `accept` fails while a thread has chunks to send, the file is freed, and the thread's next
-- turn reads it: nothing waits for the threads.
pub run-reads_freed :
    (s : WebServer) (before : List Client) (c : Client) (cs : List Client) (offset : ℕ)
    → s.loop ≡ accepting
    → s.clients ≡ before ++ (c ∷ cs)
    → c.progress ≡ at_offset offset
    → ltb offset c.file_size ≡ true
    → run (accept_failed ∷ file_freed ∷ thread (length before) ∷ []) s ≡ freed_read
unfolding run take_turn leave free_file
run-reads_freed s before c cs offset e h p more =
    let freed : WebServer = record s {
      file_data = none;
      loop = left;
      clients = before ++ (c ∷ cs);
    } in
    rw (e, h)
      (rw
        (move_at-read_freed freed [] before c cs (move_from-read_freed c c.progress offset p more))
        refl)

-- ===== src/Async/Threads/Serving.antt =====
-- A client of async-server/server/main/async_server_pthread.c whose thread gets its turns is served.
use esp_network_examples.Prelude.{
  ℕ, zero, suc, ◌+◌, ◌*◌, ◌≤◌, ◌<◌, List, ◌∷◌, ◌++◌, Option, some, ◌≡◌, refl, sym, ap, ◌∙◌, arith,
  append-nil, length, take, drop, drop_all, lt→ltb, le→not_ltb, replicate,
}
use esp_network_examples.Async.{chunk_size, header, chunk}
use esp_network_examples.Async.Threads.{
  at_offset, Client, Loop, accepting, WebServer, Scheduled, goes_on, Turn, has_thread, accepted,
  thread, if_running, going, send_chunk, move_from, after_move, move_at, accept, take_turn, run,
}
use esp_network_examples.Async.Chunks.{sent-chunk}

-- The client with this descriptor was sent the header and the file and has ended; all else is as in
-- `s`.
abbrev pub Ends : List ℕ → ℕ → WebServer → Scheduled → Type 0
Ends bytes fd s o =
    (c : Client) × (o ≡ goes_on (record s { ended = c ∷ s.ended }))
    × (c.client_fd ≡ fd)
    × (c.sent ≡ header (length bytes) ++ bytes)

module _ (bytes : List ℕ) (fd : ℕ) (s : WebServer) (e : s.file_data ≡ some bytes) where
  -- A thread of `s` at an offset.
  abbrev at : ℕ → List ℕ → Client
  at offset out = record {
    client_fd = fd;
    file_size = length bytes;
    progress = at_offset offset;
    sent = out;
  }

  abbrev next_chunk : ℕ → List ℕ
  next_chunk offset = take (chunk (length bytes) offset) (drop offset bytes)

  send_chunk-going :
      (file : Option (List ℕ)) (offset : ℕ) (out : List ℕ)
      → file ≡ some bytes
      → send_chunk file (at offset out) offset
        ≡ going (at (offset + chunk_size) (out ++ next_chunk offset))
  unfolding send_chunk
  send_chunk-going file offset out e = rw e refl

  run-Ends :
      (n offset : ℕ) (out : List ℕ)
      → length bytes ≤ offset + n * 100
      → offset + n * 100 < length bytes + 100
      → out ++ drop offset bytes ≡ header (length bytes) ++ bytes
      → Ends bytes fd s
          (run (replicate (suc n) (thread 0)) (record s { clients = at offset out ∷ s.clients }))
  unfolding run take_turn move_at after_move move_from
  run-Ends zero offset out h k sent =
      let over = le→not_ltb offset (length bytes) (omega arith) in
      let gone = drop_all offset bytes (omega arith) in
      (
        at offset out,
        rw over refl,
        refl,
        sym (append-nil out) ∙ ap (λ rest. out ++ rest) (sym gone) ∙ sent,
      )
  run-Ends (suc n) offset out h k sent =
      let more = lt→ltb offset (length bytes) (omega arith) in
      let out' = out ++ next_chunk offset in
      rw (more, send_chunk-going s.file_data offset out e)
        (run-Ends n (offset + chunk_size) out' (omega arith) (omega arith)
          (sent-chunk bytes out (header (length bytes) ++ bytes) offset sent))

-- A thread behind the header of a file of so many bytes.
abbrev headed : ℕ → ℕ → Client
headed fd size = record {
  client_fd = fd;
  file_size = size;
  progress = at_offset 0;
  sent = header size;
}

run-headed :
    (fd : ℕ) (s : WebServer) (l : Loop) (turns : List Turn)
    → l ≡ accepting
    → if_running (run (thread 0 ∷ turns)) (accept s l has_thread fd)
      ≡ run turns (record s { clients = headed fd s.fsize ∷ s.clients })
unfolding run take_turn accept move_at after_move move_from
run-headed fd s l turns e = rw e refl

-- While the file is there, a client that is accepted and for which `malloc` and `pthread_create`
-- succeed is served: with a turn for the header, one for
-- each chunk of at most 100 bytes, and one to end, its thread sends the header and the whole file
-- and ends, and leaves all else alone.
pub run-accepted :
    (bytes : List ℕ) (fd : ℕ) (s : WebServer) (n : ℕ)
    → s.file_data ≡ some bytes
    → s.fsize ≡ length bytes
    → s.loop ≡ accepting
    → length bytes ≤ n * 100
    → n * 100 < length bytes + 100
    → Ends bytes fd s (run (accepted has_thread fd ∷ thread 0 ∷ replicate (suc n) (thread 0)) s)
unfolding run take_turn
run-accepted bytes fd s n e size loops h k =
    let turns = replicate (suc n) (thread 0) in
    rw
      (run-headed fd s s.loop turns loops
        ∙ ap (λ m. run turns (record s { clients = headed fd m ∷ s.clients })) size)
      (run-Ends bytes fd s e n 0 (header (length bytes)) (omega arith) (omega arith) refl)

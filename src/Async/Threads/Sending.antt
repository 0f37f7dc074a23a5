-- ===== src/Async/Threads/Sending.antt =====
-- What clients of async-server/server/main/async_server_pthread.c are sent, however their threads
-- take turns.
use esp_network_examples.Prelude.{
  ℕ, zero, suc, Bool, true, false, ◌||◌, All, All-append, List, [], ◌∷◌, ◌++◌, Option, none, some,
  ◌≡◌, inl, inr, refl, sym, ap, ◌∙◌, arith, append-nil, length, drop, drop_all, ltb, not_ltb→le,
  Bool-cases,
}
use esp_network_examples.Async.{header}
use esp_network_examples.Async.Chunks.{sent-chunk}
use esp_network_examples.Async.Threads.{
  Stage, at_header, at_offset, Client, Loop, accepting, leaving, left, WebServer, Scheduled,
  goes_on, freed_read, null_written, Created, has_thread, no_thread, no_memory, Turn, accepted,
  accept_failed, file_freed, thread, Moved, going, done, read_freed, send_chunk, move_from,
  after_move, move_at, accept, leave, free_file, take_turn, if_running, run, async_server,
}
use esp_network_examples.Async.Threads.Invariant.{
  Sending, ClientHolds, IsServed, Keeps, ServerHolds, is_over, has_failed, any_failed, has_none,
  any_none, Stepped, RunHolds, or-false, or_assoc,
}

module _ (bytes : List ℕ) where
  freed-over :
      (file : Option (List ℕ)) (l : Loop) → file ≡ none → Keeps bytes file l → is_over l ≡ true
  freed-over file accepting e h = absurd (cc)
  freed-over file leaving e h = refl
  freed-over file left e h = refl

  accept-Stepped :
      (s : WebServer) (l : Loop) (made : Created) (fd : ℕ)
      → s.loop ≡ l
      → ServerHolds bytes s
      → Stepped bytes (is_over l) false (has_none (accepted made fd)) (accept s l made fd)
  unfolding accept
  accept-Stepped s accepting has_thread fd e (n, f, c, d) =
      ((n, f, ((n, refl), c), d), ap is_over e)
  accept-Stepped s accepting no_thread fd e h = (h, ap is_over e)
  accept-Stepped s accepting no_memory fd e h = refl
  accept-Stepped s leaving made fd e h = (h, ap is_over e)
  accept-Stepped s left made fd e h = (h, ap is_over e)

  leave-Stepped :
      (s : WebServer) (l : Loop)
      → s.loop ≡ l
      → Keeps bytes s.file_data l
      → ServerHolds bytes s
      → Stepped bytes (is_over l) true false (goes_on (leave s l))
  unfolding leave
  leave-Stepped s accepting e k (n, f, c, d) = ((n, k, c, d), refl)
  leave-Stepped s leaving e k h = (h, ap is_over e)
  leave-Stepped s left e k h = (h, ap is_over e)

  free_file-Stepped :
      (s : WebServer) (l : Loop)
      → s.loop ≡ l
      → ServerHolds bytes s
      → Stepped bytes (is_over l) false false (goes_on (free_file s l))
  unfolding free_file
  free_file-Stepped s accepting e h = (h, ap is_over e)
  free_file-Stepped s leaving e (n, f, c, d) = ((n, refl, c, d), refl)
  free_file-Stepped s left e h = (h, ap is_over e)

  -- A turn of a thread: it goes on, or ends with everything sent, or reads a file that was freed.
  abbrev MovedHolds : Option (List ℕ) → Moved → Type 0
  MovedHolds file read_freed = file ≡ none
  MovedHolds file (going c) = ClientHolds bytes c
  MovedHolds file (done c) = IsServed bytes c

  kept : (file : List ℕ) (l : Loop) → Keeps bytes (some file) l → file ≡ bytes
  kept file accepting k = cc
  kept file leaving k = cc
  kept file left k = absurd (cc)

  send_chunk-Holds :
      (file : Option (List ℕ)) (l : Loop) (c : Client) (offset : ℕ)
      → Keeps bytes file l
      → c.file_size ≡ length bytes
      → c.sent ++ drop offset bytes ≡ header (length bytes) ++ bytes
      → MovedHolds file (send_chunk file c offset)
  unfolding send_chunk
  send_chunk-Holds none l c offset k n e = refl
  send_chunk-Holds (some file) l c offset k n e =
      rw (kept file l k)
        ((n, rw n (sent-chunk bytes c.sent (header (length bytes) ++ bytes) offset e)))

  move_from-Holds :
      (file : Option (List ℕ)) (l : Loop) (c : Client) (p : Stage)
      → Keeps bytes file l
      → c.file_size ≡ length bytes
      → Sending bytes (length bytes) c.sent p
      → MovedHolds file (move_from file c p)
  unfolding move_from
  move_from-Holds file l c at_header k n e = (n, rw (e, n) refl)
  move_from-Holds file l c (at_offset offset) k n e = elim (Bool-cases (ltb offset c.file_size)) [
    | inl more ↦ rw more (send_chunk-Holds file l c offset k n e)
    | inr over ↦ rw over (
        let gone = drop_all offset bytes (omega (arith, not_ltb→le offset c.file_size over)) in
        sym (append-nil c.sent) ∙ ap (λ rest. c.sent ++ rest) (sym gone) ∙ e)
  ]

  after_move-Stepped :
      (s : WebServer) (passed cs : List Client) (m : Moved)
      → ServerHolds bytes s
      → All (ClientHolds bytes) passed
      → All (ClientHolds bytes) cs
      → MovedHolds s.file_data m
      → Stepped bytes (is_over s.loop) false false (after_move s passed cs m)
  unfolding after_move
  after_move-Stepped s passed cs read_freed (n, f, c, d) hp hc e = freed-over s.file_data s.loop e f
  after_move-Stepped s passed cs (going c) (n, f, h, d) hp hc e = (
    (n, f, All-append (ClientHolds bytes) passed (c ∷ cs) hp (e, hc), d),
    or-false (is_over s.loop),
  )
  after_move-Stepped s passed cs (done c) (n, f, h, d) hp hc e =
      ((n, f, All-append (ClientHolds bytes) passed cs hp hc, (e, d)), or-false (is_over s.loop))

  move_at-Stepped :
      (s : WebServer) (passed : List Client) (n : ℕ) (cs : List Client)
      → ServerHolds bytes s
      → All (ClientHolds bytes) passed
      → All (ClientHolds bytes) cs
      → Stepped bytes (is_over s.loop) false false (move_at s passed n cs)
  unfolding move_at
  move_at-Stepped s passed n [] h hp hc = (h, or-false (is_over s.loop))
  move_at-Stepped s passed zero (c ∷ cs) h hp hc =
      after_move-Stepped s passed cs (move_from s.file_data c c.progress) h hp hc.1
        (move_from-Holds s.file_data s.loop c c.progress h.1 hc.0.0 hc.0.1)
  move_at-Stepped s passed (suc n) (c ∷ cs) h hp hc =
      move_at-Stepped s (passed ++ (c ∷ [])) n cs h
        (All-append (ClientHolds bytes) passed (c ∷ []) hp (hc.0, tt)) hc.1

  take_turn-Stepped :
      (turn : Turn) (s : WebServer)
      → ServerHolds bytes s
      → Stepped bytes (is_over s.loop) (has_failed turn) (has_none turn) (take_turn turn s)
  unfolding take_turn
  take_turn-Stepped (accepted made fd) s h = accept-Stepped s s.loop made fd refl h
  take_turn-Stepped accept_failed s h = leave-Stepped s s.loop refl h.1 h
  take_turn-Stepped file_freed s h = free_file-Stepped s s.loop refl h
  take_turn-Stepped (thread n) s h = move_at-Stepped s [] n s.clients h tt h.2

  -- More turns may have had no memory.
  RunHolds-none :
      (failed without any : Bool) (r : Scheduled)
      → RunHolds bytes failed any r
      → RunHolds bytes failed (without || any) r
  RunHolds-none failed true any freed_read h = h
  RunHolds-none failed true any null_written h = refl
  RunHolds-none failed true any (goes_on s) h = h
  RunHolds-none failed false any r h = h

  if_running-RunHolds :
      (over failed any without any' : Bool) (next : WebServer → Scheduled)
      → ((s : WebServer)
          → ServerHolds bytes s
          → RunHolds bytes (is_over s.loop || any) any' (next s))
      → (o : Scheduled) → Stepped bytes over failed without o
      → RunHolds bytes (over || (failed || any)) (without || any') (if_running next o)
  if_running-RunHolds over failed any without any' next keep freed_read h = rw h refl
  if_running-RunHolds over failed any without any' next keep null_written h = rw h refl
  if_running-RunHolds over failed any without any' next keep (goes_on s) (h, e) =
      RunHolds-none (over || (failed || any)) without any' (next s)
        (rw (sym (or_assoc over failed any), sym e) (keep s h))

  run-RunHolds :
      (turns : List Turn) (s : WebServer)
      → ServerHolds bytes s
      → RunHolds bytes (is_over s.loop || any_failed turns) (any_none turns) (run turns s)
  unfolding run
  run-RunHolds [] s h = h
  run-RunHolds (turn ∷ turns) s h =
      if_running-RunHolds (is_over s.loop) (has_failed turn) (any_failed turns) (has_none turn)
        (any_none turns) (run turns) (run-RunHolds turns) (take_turn turn s)
        (take_turn-Stepped turn s h)

-- Whatever turns the loop and the threads take: what each thread has sent, followed by the rest of
-- the file, is the header and the file, once it has sent the header; each thread that ended has
-- sent exactly the header and the file; no thread reads the file after it was freed, unless
-- `accept` has failed; and no null pointer is written, unless `malloc` gave no memory for a client.
pub async_server-RunHolds :
    (bytes : List ℕ) (turns : List Turn)
    → RunHolds bytes (any_failed turns) (any_none turns) (run turns (async_server bytes))
unfolding async_server
async_server-RunHolds bytes turns =
    run-RunHolds bytes turns (async_server bytes) (refl, refl, tt, tt)

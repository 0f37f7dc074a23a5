-- ===== src/Async.antt =====
-- async-server/server/main/async_server_pthread.c: a web server with a thread for each client,
-- which sends one file in chunks. The system answers each call; the answer of `send` is not looked
-- at.
pub mod Chunks
pub mod Threads
pub mod Stats
pub mod EventLoop
pub mod Coroutines
mod Tests
use esp_network_examples.Prelude.{
  ℕ, zero, suc, ◌+◌, ◌-◌, ◌/◌, ◌%◌, ℤ, is_neg, Bool, true, false, List, [], ◌∷◌, ◌++◌, length, take,
  drop, ltb, if◌then◌else◌, codes,
}
use esp_network_examples.Os.{Env, Io, ask, return, ◌>>=◌, ◌>>◌}

pub data Call : Type 0 where
  send : ℤ → List ℕ → Call
  close : ℤ → Call
  sleep free_args : Call

-- `CHUNK_SIZE`
abbrev pub chunk_size : ℕ
chunk_size = 100

-- `%zu`, of a number below 10 to the first argument
abbrev pub decimal : ℕ → ℕ → List ℕ
decimal zero n = []
decimal (suc digits) n =
    let high = decimal digits (n / 10) in
    if ltb n 10 then (48 + n) ∷ [] else high ++ ((48 + n % 10) ∷ [])

-- 20 digits are enough for a `size_t` of 64 bits; the header is at most 82 bytes of the 256.
unfoldable pub header : ℕ → List ℕ
header size =
    codes "HTTP/1.1 200 OK\r\nContent-Length: "
    ++ (decimal 20 size ++ codes "\r\nContent-Type: text/html\r\n\r\n")

-- `(size - offset > CHUNK_SIZE) ? CHUNK_SIZE : (size - offset)`
abbrev pub chunk : ℕ → ℕ → ℕ
chunk size offset = if ltb chunk_size (size - offset) then chunk_size else size - offset

-- The loop, of at most so many turns, from an offset on.
unfoldable pub send_chunks : ℕ → Env Call → ℤ → List ℕ → ℕ → Io Call (Unit {0})
send_chunks zero env fd data_bytes offset = return tt
send_chunks (suc turns) env fd data_bytes offset =
    if ltb offset (length data_bytes)
    then (do
      _ ← ask env (send fd (take (chunk (length data_bytes) offset) (drop offset data_bytes)))
      _ ← ask env sleep
      send_chunks turns env fd data_bytes (offset + chunk_size))
    else return tt

-- Each turn takes at least one byte of the file, so that its length bounds the turns.
unfoldable pub handle_client : Env Call → ℤ → List ℕ → Io Call (Unit {0})
handle_client env fd data_bytes = do
  _ ← ask env (send fd (header (length data_bytes)))
  send_chunks (length data_bytes) env fd data_bytes 0
  _ ← ask env (close fd)
  _ ← ask env free_args
  return tt

-- ===== src/RcvWnd.antt =====
-- lwip/rcvwnd_issue/tcp_client/main/tcp_client_v4.c: a client that sends one request, and receives
-- the response in small pieces into one buffer.
pub mod Calls
pub mod Receiving
pub mod Sockets
mod Tests
use esp_network_examples.Prelude.{
  ℕ, zero, suc, ◌+◌, ◌-◌, ℤ, pos, negsuc, is_neg, is_zero, Bool, List, [], ◌∷◌, Option, none, some,
  ltb, leb, if◌then◌else◌, codes, replicate, take, store, copy_at,
}
use esp_network_examples.Os.{Answer, Env, Io, ask, return, ◌>>=◌, ◌>>◌}
use esp_network_examples.Os.Tasks.{Task, left_with, in_use, no_socket, restart, turns}
use esp_network_examples.RcvWnd.Calls.{
  Call, socket, set_receive_buffer, connect, send, recv, delay, shutdown, close, pause, is_invalid,
  request,
}

-- `EXPECTED_RESPONSE_SIZE`, which is the size of `rx_buffer` too, `BATCH`, and `max_attempts`
abbrev pub expected_response_size : ℕ
expected_response_size = 1500

abbrev pub batch : ℕ
batch = 128

abbrev pub max_attempts : ℕ
max_attempts = 100

-- `rx_buffer`, `total_received` and `receive_attempts`
pub record Response : Type 0 where
  pub rx_buffer : List ℕ
  pub total_received : ℕ
  pub receive_attempts : ℕ

abbrev pub fresh : Response
fresh = record { rx_buffer = replicate 1500 0; total_received = 0; receive_attempts = 0 }

-- `sizeof(rx_buffer) - total_received - 1`, where a negative number is as good as 0
abbrev pub remaining_buffer : ℕ → ℕ
remaining_buffer total = 1500 - total - 1

abbrev pub bytes_to_receive : ℕ → ℕ
bytes_to_receive total =
    if ltb (remaining_buffer total) batch then remaining_buffer total else batch

-- One more attempt.
abbrev pub tried : Response → Response
tried s = record s { receive_attempts = s.receive_attempts + 1 }

abbrev pub with_buffer : Response → ℕ → Option (List ℕ) → Option Response
with_buffer s len none = none
with_buffer s len (some buf) =
    some (record s { rx_buffer = buf; total_received = s.total_received + len })

-- `recv` writes its bytes behind those that are there; a write past the buffer is a fault, `none`.
unfoldable pub add_bytes : Response → List ℕ → ℕ → Option Response
add_bytes s bytes len = with_buffer s len (copy_at s.rx_buffer s.total_received bytes)

-- Goes on if the bytes were written and more are expected.
abbrev pub if_more :
    (Response → Io Call (Option Response)) → Option Response → Io Call (Option Response)
if_more next none = return none
if_more next (some s) =
    if leb expected_response_size s.total_received then return (some s) else next s

-- Behind `recv`: an error, the end of the connection, or data.
unfoldable pub after_recv :
    (Response → Io Call (Option Response)) → Response → List ℕ → ℤ → Io Call (Option Response)
after_recv next s bytes (negsuc n) = return (some s)
after_recv next s bytes (pos zero) = return (some s)
after_recv next s bytes (pos (suc n)) = if_more next (add_bytes s bytes (suc n))

abbrev pub receive_once :
    Env Call → ℤ → (Response → Io Call (Option Response)) → Response → Io Call (Option Response)
receive_once env sock next s = ask env (recv sock (bytes_to_receive s.total_received)) >>= λ r.
    ask env delay >>= λ _. after_recv next (tried s) r.bytes r.ret

-- The loop; the first argument is `max_attempts - receive_attempts`.
unfoldable pub receive_loop : ℕ → Env Call → ℤ → Response → Io Call (Option Response)
receive_loop zero env sock s = return (some s)
receive_loop (suc left) env sock s =
    if ltb s.total_received expected_response_size
    then (if leb (remaining_buffer s.total_received) 0
        then return (some s)
        else receive_once env sock (receive_loop left env sock) s)
    else return (some s)

-- The NUL behind what was received.
abbrev pub terminate : Response → Option Response
terminate s =
    if ltb 0 s.total_received
    then with_buffer s 0 (store s.rx_buffer s.total_received 0)
    else some s

unfoldable pub hang_up : Env Call → ℤ → Io Call Task
hang_up env sock = if is_invalid sock then ask env pause >>= (λ _. return restart) else (do
  _ ← ask env (shutdown sock)
  _ ← ask env (close sock)
  _ ← ask env pause
  return restart)

-- A fault keeps the socket in use: nothing is said of what comes then.
abbrev pub if_terminated : Env Call → ℤ → Option Response → Io Call Task
if_terminated env sock none = return (in_use sock)
if_terminated env sock (some s) = hang_up env sock

abbrev pub if_received : Env Call → ℤ → Option Response → Io Call Task
if_received env sock none = return (in_use sock)
if_received env sock (some s) = if_terminated env sock (terminate s)

unfoldable pub use_socket : Env Call → ℤ → Io Call Task
use_socket env sock = ask env (set_receive_buffer sock 512) >>= λ _. ask env (connect sock) >>= λ c.
    if is_zero c.ret
    then ask env (send sock request) >>= (λ r.
      if is_neg r.ret
      then return (left_with sock)
      else receive_loop max_attempts env sock fresh >>= if_received env sock)
    else return (left_with sock)

unfoldable pub connect_once : Env Call → Io Call Task
connect_once env =
    ask env socket >>= λ s. if is_neg s.ret then return no_socket else use_socket env s.ret

-- So many connections, unless the loop is left before.
unfoldable pub tcp_client : ℕ → Env Call → Io Call Task
tcp_client n env = turns n (connect_once env)

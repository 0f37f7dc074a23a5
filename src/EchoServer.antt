-- ===== src/EchoServer.antt =====
-- lwip-intro/sockets/tcp_server.c: a non-blocking echo server over an array of sockets.
pub mod Calls
pub mod Send
pub mod Descriptors
pub mod Shutdown
pub mod Serving
mod Tests
use esp_network_examples.Prelude.{
  ℕ, zero, suc, ℤ, pos, negsuc, is_neg, is_zero, Bool, true, false, not, ◌||◌, List, [], ◌∷◌,
  Option, none, some, ltb, if◌then◌else◌, length, replicate, set, take,
}
use esp_network_examples.Os.{Answer, Env, Io, ask, return, ◌>>=◌, ◌>>◌}
use esp_network_examples.EchoServer.Calls.{
  Call, getaddrinfo, socket, fcntl_getfl, fcntl_setfl, bind, listen, accept, recv, close, free_info,
  invalid_sock, is_invalid, is_transient, is_eagain, is_enotconn,
}
use esp_network_examples.EchoServer.Send.{SendResult, returned, socket_send}

-- The result of `try_receive`, from the answer of `recv`.
abbrev pub receive_code : Answer → ℤ
receive_code r =
    if is_neg r.ret
    then if is_transient r.errno then pos 0 else if is_enotconn r.errno then negsuc 1 else negsuc 0
    else r.ret

-- The result code, and the bytes that `recv` wrote to the buffer.
unfoldable pub try_receive : Env Call → ℤ → Io Call (ℤ × List ℕ)
try_receive env sock = do r ← ask env (recv sock); return (receive_code r, r.bytes)

-- What becomes of a slot, if the call of `socket_send` comes back.
unfoldable pub after_send : Env Call → ℤ → SendResult → Io Call (Option ℤ)
after_send env s (returned (negsuc n)) = do _ ← ask env (close s); return (some invalid_sock)
after_send env s (returned (pos n)) = return (some s)
after_send env s _ = return none

-- What becomes of a slot with an open socket, by the result of `try_receive`.
unfoldable pub after_receive : Env Call → ℕ → ℤ → ℤ → List ℕ → Io Call (Option ℤ)
after_receive env fuel s (negsuc n) bytes = do _ ← ask env (close s); return (some invalid_sock)
after_receive env fuel s (pos zero) bytes = return (some s)
after_receive env fuel s (pos (suc n)) bytes = do
  sent ← socket_send env fuel s (take (suc n) bytes)
  after_send env s sent

-- One turn of the loop over the clients.
unfoldable pub serve_one : Env Call → ℕ → ℤ → Io Call (Option ℤ)
serve_one env fuel s =
    if is_invalid s
    then return (some s)
    else try_receive env s >>= λ r. after_receive env fuel s r.0 r.1

-- The state of the main loop: going on, left by `goto error`, or lost in `socket_send`; with the slots.
pub data Status : Type 0 where
  running failed lost : List ℤ → Status

abbrev pub cons_slot : ℤ → Status → Status
cons_slot s (running ss) = running (s ∷ ss)
cons_slot s (failed ss) = failed (s ∷ ss)
cons_slot s (lost ss) = lost (s ∷ ss)

-- The loop goes on behind a slot, if its call of `socket_send` came back.
abbrev pub serve_rest : ℤ → List ℤ → Option ℤ → Io Call Status → Io Call Status
serve_rest s ss none rest = return (lost (s ∷ ss))
serve_rest s ss (some s') rest = rest >>= λ status. return (cons_slot s' status)

-- The loop over the clients.
unfoldable pub serve_all : Env Call → ℕ → List ℤ → Io Call Status
serve_all env fuel [] = return (running [])
serve_all env fuel (s ∷ ss) =
    serve_one env fuel s >>= λ o. serve_rest s ss o (serve_all env fuel ss)

-- The first slot that is free; the number of slots if none is.
abbrev pub free_index : List ℤ → ℕ
free_index [] = 0
free_index (s ∷ ss) = if is_invalid s then 0 else suc (free_index ss)

-- Makes a socket non-blocking; the answer of the second call counts.
unfoldable pub set_nonblocking : Env Call → ℤ → Io Call Bool
set_nonblocking env s = do
  flags ← ask env (fcntl_getfl s)
  r ← ask env (fcntl_setfl s flags.ret)
  return (not (is_invalid r.ret))

-- Behind `accept`, whose result stands in the slot: whether the server goes on.
unfoldable pub after_accept : Env Call → Answer → Io Call Bool
after_accept env r = if is_neg r.ret then return (is_eagain r.errno) else set_nonblocking env r.ret

-- Accepts a client if a slot is free.
unfoldable pub accept_new : Env Call → ℤ → List ℤ → Io Call (Bool × List ℤ)
accept_new env sock ss =
    if ltb (free_index ss) (length ss)
    then (do
      r ← ask env (accept sock)
      go_on ← after_accept env r
      return (go_on, set ss (free_index ss) r.ret))
    else return (true, ss)

unfoldable pub serve_round : Env Call → ℕ → ℤ → List ℤ → Io Call Status
serve_round env fuel sock ss = do
  r ← accept_new env sock ss
  (if r.0 then serve_all env fuel r.1 else return (failed r.1))

abbrev pub continue_with : Status → (List ℤ → Io Call Status) → Io Call Status
continue_with (running ss) next = next ss
continue_with (failed ss) next = return (failed ss)
continue_with (lost ss) next = return (lost ss)

-- So many rounds of the main loop, unless it ends before.
unfoldable pub serve_loop : Env Call → ℕ → ℕ → ℤ → List ℤ → Io Call Status
serve_loop env fuel zero sock ss = return (running ss)
serve_loop env fuel (suc n) sock ss =
    serve_round env fuel sock ss >>= λ status. continue_with status (serve_loop env fuel n sock)

-- `if (s != INVALID_SOCK) close(s)`
unfoldable pub close_valid : Env Call → ℤ → Io Call (Unit {0})
close_valid env s = if is_invalid s then return tt else (do _ ← ask env (close s); return tt)

unfoldable pub close_all : Env Call → List ℤ → Io Call (Unit {0})
close_all env [] = return tt
close_all env (s ∷ ss) = close_valid env s >> close_all env ss

-- Behind the label `error`.
unfoldable pub clean_up : Env Call → ℤ → List ℤ → Io Call (Unit {0})
clean_up env sock ss = do close_valid env sock; close_all env ss; _ ← ask env free_info; return tt

-- `static int sock[CONFIG_LWIP_MAX_SOCKETS - 1]`, all marked free.
abbrev pub no_clients : List ℤ
no_clients = replicate 999 invalid_sock

-- Makes the listener non-blocking, binds it and listens on it: whether all three succeeded.
unfoldable pub prepare : Env Call → ℤ → Io Call Bool
prepare env sock = do
  ready ← set_nonblocking env sock
  (if ready
      then (do
        b ← ask env (bind sock)
        (if is_zero b.ret
            then (do l ← ask env (listen sock); return (is_zero l.ret))
            else return false))
      else return false)

-- How a run stands after so many rounds: at the end of the program, with the clients it serves,
-- or lost in `socket_send`, with what it holds.
pub data Outcome : Type 0 where
  ended : Outcome
  serving stuck : ℤ → List ℤ → Outcome

unfoldable pub finish : Env Call → ℤ → Status → Io Call Outcome
finish env sock (running ss) = return (serving sock ss)
finish env sock (failed ss) = do clean_up env sock ss; return ended
finish env sock (lost ss) = return (stuck sock ss)

-- Behind `getaddrinfo`.
unfoldable pub serve_address : Env Call → ℕ → ℕ → Io Call Outcome
serve_address env fuel n = do
  s ← ask env socket
  (if is_neg s.ret then (do clean_up env s.ret no_clients; return ended) else (do
    ready ← prepare env s.ret
    (if ready
        then serve_loop env fuel n s.ret no_clients >>= finish env s.ret
        else (do clean_up env s.ret no_clients; return ended))))

-- The address is what `getaddrinfo` writes: no bytes stand for a null pointer.
abbrev pub is_null : List ℕ → Bool
is_null [] = true
is_null _ = false

unfoldable pub tcp_server_task : Env Call → ℕ → ℕ → Io Call Outcome
tcp_server_task env fuel n = do
  a ← ask env getaddrinfo
  (if not (is_zero a.ret) || is_null a.bytes
      then (do clean_up env invalid_sock no_clients; return ended)
      else serve_address env fuel n)

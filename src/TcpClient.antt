-- ===== src/TcpClient.antt =====
-- lwip-intro/sockets/tcp_client.c: a client that sends and receives in turn and connects again, a
-- thread with a non-blocking socket, one with a blocking socket, and a test of `bind`. The system
-- answers each call.
pub mod Calls
pub mod Sockets
pub mod Reading
pub mod BindTest
mod Tests
use esp_network_examples.Prelude.{
  ℕ, zero, suc, ◌+◌, ℤ, pos, negsuc, is_neg, is_zero, Bool, true, false, not, ◌&&◌, List, [], ◌∷◌,
  Option, none, some, take, store, set, if◌then◌else◌, codes,
}
use esp_network_examples.Os.{Answer, Env, Io, ask, return, ◌>>=◌, ◌>>◌}
use esp_network_examples.Os.Tasks.{Task, left_with, in_use, no_socket, restart, turns}
use esp_network_examples.TcpClient.Calls.{
  Call, socket, connect, bind, send, recv, shutdown, close, getfl, setfl, select_write, select_read,
  get_error, set_recv_timeout, set_send_timeout, pause, Net, is_pending, is_in_progress, is_invalid,
  text,
}

-- What a thread comes to: the bytes it shows, or nothing.
abbrev pub Shown : Type 0
Shown = Option (List ℕ)

-- `rx_buffer[len] = 0`, and the text is shown.
abbrev pub shown : ℤ → List ℕ → Shown
shown (pos n) bs = some (take n bs)
shown (negsuc n) bs = none

abbrev pub show : Answer → Shown
show a = shown a.ret a.bytes

-- Whether `getsockopt` says that a delayed connection has no error.
unfoldable pub check_error : Net → ℤ → Io Call Bool
check_error net fd = do
  a ← ask net.env (get_error fd)
  return (not (is_neg a.ret) && is_zero (net.sockerr a))

-- The second `recv`, if the socket is readable; the check of the error behind it has no effect.
unfoldable pub read_ready : Net → ℤ → Bool → Io Call Shown
read_ready net fd true = do a ← ask net.env (recv fd 127); check_error net fd; return (show a)
read_ready net fd false = do check_error net fd; return none

-- Behind `select`: an error, a timeout, or a ready socket.
unfoldable pub read_selected : Net → ℤ → Answer → ℤ → Io Call Shown
read_selected net fd a (pos (suc n)) = read_ready net fd (net.readable a)
read_selected net fd a _ = return none

-- Behind the first `recv`: what it received is not shown.
unfoldable pub after_first : Net → ℤ → Answer → Io Call Shown
after_first net fd r =
    if is_neg r.ret && is_pending r.errno
    then ask net.env (select_read fd) >>= (λ a. read_selected net fd a a.ret)
    else return none

unfoldable pub read_once : Net → ℤ → Io Call Shown
read_once net fd = ask net.env (recv fd 127) >>= after_first net fd

-- Behind `select` for a connection in progress: whether it was made.
unfoldable pub connect_selected : Net → ℤ → ℤ → Io Call Bool
connect_selected net fd (pos (suc n)) = check_error net fd
connect_selected net fd _ = return false

-- Connects, waiting for a connection in progress.
unfoldable pub connect_waiting : Net → ℤ → Io Call Bool
connect_waiting net fd = ask net.env (connect fd) >>= λ a.
    if is_neg a.ret
    then (if is_in_progress a.errno
        then ask net.env (select_write fd) >>= (λ w. connect_selected net fd w.ret)
        else return false)
    else return true

unfoldable pub set_nonblocking : Net → ℤ → Io Call Bool
set_nonblocking net fd = ask net.env (getfl fd) >>= λ a.
    if is_neg a.ret
    then return false
    else ask net.env (setfl fd) >>= (λ b. return (not (is_neg b.ret)))

-- Goes on, if the step before was done.
abbrev pub if_shown : Io Call Shown → Bool → Io Call Shown
if_shown next true = next
if_shown next false = return none

unfoldable pub non_block_sock_thread : Net → ℤ → Io Call Shown
non_block_sock_thread net fd =
    set_nonblocking net fd >>= if_shown (connect_waiting net fd >>= if_shown (read_once net fd))

unfoldable pub block_sock_thread : Net → ℤ → Io Call Shown
block_sock_thread net fd = ask net.env (connect fd) >>= λ a.
    if_shown
      (ask net.env (set_recv_timeout fd) >>= λ b.
        if_shown
          (ask net.env (set_send_timeout fd) >>= λ c.
            if_shown (ask net.env (recv fd 127) >>= λ r. return (show r)) (is_zero c.ret))
          (is_zero b.ret))
      (is_zero a.ret)

-- One exchange with the server: what was received, `none` on an error.
unfoldable pub exchange : Env Call → ℤ → Io Call Shown
exchange env sock = ask env (send sock text) >>= λ a.
    if is_neg a.ret then return none else ask env (recv sock 127) >>= (λ r. return (show r))

-- How the inner loop stands: over, or going on.
pub data Link : Type 0 where
  lost : Link
  linked : Link

abbrev pub if_received : Env Call → Io Call Link → Shown → Io Call Link
if_received env next none = return lost
if_received env next (some bs) = do _ ← ask env pause; next

-- So many exchanges, unless one fails.
unfoldable pub exchange_loop : ℕ → Env Call → ℤ → Io Call Link
exchange_loop zero env sock = return linked
exchange_loop (suc n) env sock = exchange env sock >>= if_received env (exchange_loop n env sock)

-- Behind the inner loop.
unfoldable pub hang_up : Env Call → ℤ → Link → Io Call Task
hang_up env sock linked = return (in_use sock)
hang_up env sock lost =
    if is_invalid sock
    then return restart
    else (do _ ← ask env (shutdown sock); _ ← ask env (close sock); return restart)

unfoldable pub use_socket : ℕ → Env Call → ℤ → Io Call Task
use_socket n env sock = ask env (connect sock) >>= λ a.
    if is_zero a.ret then exchange_loop n env sock >>= hang_up env sock else return (left_with sock)

-- One turn of the outer loop.
unfoldable pub connect_once : ℕ → Env Call → Io Call Task
connect_once n env =
    ask env socket >>= λ s. if is_neg s.ret then return no_socket else use_socket n env s.ret

-- So many turns, each of at most `n` exchanges, unless the task ends before.
unfoldable pub tcp_client_task : ℕ → ℕ → Env Call → Io Call Task
tcp_client_task times n env = turns times (connect_once n env)

-- The sockets that were bound, each to the next port, for so many more turns.
unfoldable pub bind_from : ℕ → ℕ → Env Call → Io Call (List ℤ)
bind_from zero port env = return []
bind_from (suc n) port env =
    let rest = bind_from n (port + 1) env in
    ask env socket >>= λ s.
    if is_neg s.ret
    then return []
    else ask env (bind s.ret port) >>= λ b.
        if is_zero b.ret
        then ask env pause >> rest >>= (λ ss. return (s.ret ∷ ss))
        else return (s.ret ∷ [])

unfoldable pub tcp_bind_test : ℕ → Env Call → Io Call (List ℤ)
tcp_bind_test port env = bind_from 1000 port env

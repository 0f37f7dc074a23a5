-- ===== src/Disconnect.antt =====
-- devcon22/demo_3_sockets/main/tcp_client.c: a client that connects without blocking, sends and
-- closes, over and over; an event of the Ethernet driver ends the wait for a connection.
pub mod Calls
pub mod GivingUp
pub mod Sockets
mod Tests
use esp_network_examples.Prelude.{
  ℕ, zero, suc, ◌+◌, ℤ, pos, negsuc, is_neg, is_zero, Bool, true, false, not, List, Option, none,
  some, if◌then◌else◌, ◌==◌,
}
use esp_network_examples.Os.{Answer, Env, Errno, Io, ask, return, ◌>>=◌, ◌>>◌}
use esp_network_examples.Os.Tasks.{Task, left_with, in_use, no_socket, restart, turns}
use esp_network_examples.Disconnect.Calls.{
  Call, socket, getfl, setfl, connect, select, get_error, set_linger, pause, send, close, read_mac,
  signal, Net, is_in_progress, first_bytes,
}

-- The events of the Ethernet driver.
pub data EthEvent : Type 0 where
  connected disconnected started stopped other_event : EthEvent

-- `val == sizeof(signal)`
abbrev is_eight : ℤ → Bool
is_eight (pos n) = n == 8
is_eight (negsuc n) = false

-- Whether the handler's assertion holds: all 8 bytes of the signal were written.
unfoldable pub eth_event_handler : Env Call → EthEvent → Io Call Bool
eth_event_handler env connected = ask env read_mac >>= λ _. return true
eth_event_handler env disconnected = ask env signal >>= λ a. return (is_eight a.ret)
eth_event_handler env _ = return true

-- What comes of a connection: it was made, the wait was ended by a signal, or it failed.
pub data Connection : Type 0 where
  made signalled failed : Connection

-- `getsockopt` on a connection in progress.
unfoldable pub check_error : Net → ℤ → Io Call Connection
check_error net sock = ask net.env (get_error sock) >>= λ a.
    if is_neg a.ret
    then return failed
    else return (if is_zero (net.sockerr a) then made else failed)

-- Behind `select`: an error, a timeout, a signal or a connection.
unfoldable pub after_select : Net → ℤ → Answer → ℤ → Io Call Connection
after_select net sock a (pos (suc n)) =
    if net.is_signalled a then return signalled else check_error net sock
after_select net sock a _ = return failed

abbrev pub await_connection : Net → ℤ → Io Call Connection
await_connection net sock = ask net.env (select sock) >>= λ a. after_select net sock a a.ret

unfoldable pub try_connect : Net → ℤ → Io Call Connection
try_connect net sock = ask net.env (connect sock) >>= λ a.
    if is_neg a.ret
    then (if is_in_progress a.errno then await_connection net sock else return failed)
    else return made

-- Sends on a connection and closes it. The rest of the loop is behind a `continue`.
unfoldable pub use_connection : Net → ℤ → Connection → Io Call Task
use_connection net sock failed = return (left_with sock)
use_connection net sock signalled = ask net.env (close sock) >>= λ _. return restart
use_connection net sock made = do
  _ ← ask net.env (set_linger sock)
  _ ← ask net.env pause
  a ← ask net.env (send sock first_bytes)
  (if is_neg a.ret
      then return (left_with sock)
      else ask net.env (close sock) >>= (λ _. return restart))

unfoldable pub set_nonblocking : Net → ℤ → Io Call Bool
set_nonblocking net sock = ask net.env (getfl sock) >>= λ a.
    if is_neg a.ret
    then return false
    else ask net.env (setfl sock) >>= (λ b. return (not (is_neg b.ret)))

abbrev pub if_nonblocking : Net → ℤ → Bool → Io Call Task
if_nonblocking net sock true = try_connect net sock >>= use_connection net sock
if_nonblocking net sock false = return (left_with sock)

unfoldable pub connect_once : Net → Io Call Task
connect_once net = ask net.env socket >>= λ s.
    if is_neg s.ret
    then return no_socket
    else set_nonblocking net s.ret >>= if_nonblocking net s.ret

-- So many connections, unless the loop is left before.
unfoldable pub tcp_client_task : ℕ → Net → Io Call Task
tcp_client_task n net = turns n (connect_once net)

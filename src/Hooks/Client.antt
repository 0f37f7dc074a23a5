-- ===== src/Hooks/Client.antt =====
-- The clients of lwip_output_hooks/tcp_client/main: tcp_client_v4.c, and tcp_client_v6.c, which looks
-- for an interface before it connects, on Linux by itself and on a chip through `esp_netif`.
use esp_network_examples.Prelude.{
  ℕ, zero, suc, ℤ, is_neg, is_zero, Bool, true, false, not, List, Option, replicate, if◌then◌else◌,
}
use esp_network_examples.Os.{Env, Io, ask, return, ◌>>=◌}
use esp_network_examples.Os.Tasks.{Task, left_with, in_use, no_socket, restart, turns}
use esp_network_examples.Hooks.Calls.{
  Call, socket, connect, send, recv, shutdown, close, find_if, interface_index, Net, is_minus_one,
  is_pointer, message,
}
use esp_network_examples.Hooks.Interfaces.{Interface, found, unavailable, overflow, get_src_iface}

-- One exchange with the server: whether another follows.
unfoldable pub exchange : Env Call → ℤ → Io Call Bool
exchange env sock = ask env (send sock message) >>= λ a.
    if is_neg a.ret
    then return false
    else ask env (recv sock 127) >>= (λ r. return (not (is_neg r.ret)))

abbrev pub if_going : Io Call Bool → Bool → Io Call Bool
if_going next true = next
if_going next false = return false

-- So many exchanges, unless one fails: whether the loop goes on.
unfoldable pub exchange_loop : ℕ → Env Call → ℤ → Io Call Bool
exchange_loop zero env sock = return true
exchange_loop (suc n) env sock = exchange env sock >>= if_going (exchange_loop n env sock)

unfoldable pub hang_up : Env Call → ℤ → Bool → Io Call Task
hang_up env sock true = return (in_use sock)
hang_up env sock false =
    if is_minus_one sock
    then return restart
    else (do _ ← ask env (shutdown sock); _ ← ask env (close sock); return restart)

unfoldable pub use_socket : ℕ → Env Call → ℤ → Io Call Task
use_socket n env sock = ask env (connect sock) >>= λ a.
    if is_zero a.ret then exchange_loop n env sock >>= hang_up env sock else return (left_with sock)

-- What comes of the choice of an interface: it is there, it is not, or its name did not fit, and
-- nothing is said of what comes then.
pub data Choice : Type 0 where
  ready missing broken : Choice

abbrev pub if_ready : (ℤ → Io Call Task) → ℤ → Choice → Io Call Task
if_ready next sock ready = next sock
if_ready next sock missing = return (left_with sock)
if_ready next sock broken = return (in_use sock)

-- One turn of the loop of a client that does this before it connects.
abbrev pub connect_once : (ℤ → Io Call Choice) → ℕ → Env Call → Io Call Task
connect_once prepare n env = ask env socket >>= λ s.
    if is_neg s.ret then return no_socket else prepare s.ret >>= if_ready (use_socket n env) s.ret

-- The client for IPv4: so many turns, each of at most `n` exchanges.
unfoldable pub tcp_client_v4 : ℕ → ℕ → Env Call → Io Call Task
tcp_client_v4 times n env = turns times (connect_once (λ sock. return ready) n env)

-- The index of the interface whose name stands in the buffer.
unfoldable pub with_interface : Env Call → ℤ → Interface → Io Call Choice
with_interface env sock unavailable = return missing
with_interface env sock overflow = return broken
with_interface env sock (found name) =
    ask env (interface_index sock name) >>= λ a. return (if is_neg a.ret then missing else ready)

unfoldable pub prepare_linux : Net → Option (List ℕ) → ℤ → Io Call Choice
prepare_linux net wanted sock =
    get_src_iface net wanted (replicate 10 0) >>= with_interface net.env sock

unfoldable pub prepare_chip : Env Call → ℤ → Io Call Choice
prepare_chip env sock =
    ask env find_if >>= λ a. return (if is_pointer a.ret then ready else missing)

-- `CONFIG_IDF_TARGET_LINUX`, or not
pub data Target : Type 0 where
  linux chip : Target

unfoldable pub prepare_v6 : Target → Net → Option (List ℕ) → ℤ → Io Call Choice
prepare_v6 linux net wanted = prepare_linux net wanted
prepare_v6 chip net wanted = prepare_chip net.env

-- The client for IPv6, where `wanted` is the name of a configured interface.
unfoldable pub tcp_client_v6 : Target → Option (List ℕ) → ℕ → ℕ → Net → Io Call Task
tcp_client_v6 target wanted times n net =
    turns times (connect_once (prepare_v6 target net wanted) n net.env)

-- ===== src/Disconnect/Calls.antt =====
-- The calls of devcon22/demo_3_sockets/main/tcp_client.c. The program never reads the descriptor of
-- its signal.
use esp_network_examples.Prelude.{ℕ, ℤ, Bool, true, false, List, Option, none, some, take, codes}
use esp_network_examples.Os.{Answer, Env, Errno, einprogress}
use esp_network_examples.Os.Descriptors.{Opening}

pub data Call : Type 0 where
  socket pause read_mac signal : Call
  getfl setfl connect select get_error set_linger close : ℤ → Call
  send : ℤ → List ℕ → Call

-- The system: its answers; whether `select` found the signal's descriptor readable, and the error
-- that `getsockopt` wrote, each by the answer.
pub record Net : Type 0 where
  pub env : Env Call
  pub is_signalled : Answer → Bool
  pub sockerr : Answer → ℤ

-- `errno == EINPROGRESS`
abbrev pub is_in_progress : Errno → Bool
is_in_progress einprogress = true
is_in_progress _ = false

-- The first 9 bytes of `payload`.
abbrev pub first_bytes : List ℕ
first_bytes = take 9 (codes "Message from ESP32 ")

abbrev is_socket : Call → Bool
is_socket socket = true
is_socket _ = false

abbrev closing_of : Call → Option ℤ
closing_of (close fd) = some fd
closing_of _ = none

abbrev pub sockets : Opening Call
sockets = record { is_open = is_socket; closing = closing_of }

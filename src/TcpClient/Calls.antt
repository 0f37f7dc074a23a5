-- ===== src/TcpClient/Calls.antt =====
-- The calls of lwip-intro/sockets/tcp_client.c, and its tests of their answers.
use esp_network_examples.Prelude.{
  Option, none, some, ℕ, zero, ℤ, negsuc, Bool, true, false, List, codes,
}
use esp_network_examples.Os.Descriptors.{Opening}
use esp_network_examples.Os.{Answer, Env, Errno, einprogress, eagain}

-- Connections go to the host's port; `bind` names the port.
pub data Call : Type 0 where
  socket pause : Call
  connect shutdown close getfl setfl select_write select_read get_error : ℤ → Call
  set_recv_timeout set_send_timeout : ℤ → Call
  bind recv : ℤ → ℕ → Call
  send : ℤ → List ℕ → Call

-- The system: its answers; whether `select` left the socket in the set for reading, and the error
-- that `getsockopt` wrote, each by the answer.
pub record Net : Type 0 where
  pub env : Env Call
  pub readable : Answer → Bool
  pub sockerr : Answer → ℤ

-- `errno == EINPROGRESS`
abbrev pub is_in_progress : Errno → Bool
is_in_progress einprogress = true
is_in_progress _ = false

-- `errno == EINPROGRESS || errno == EAGAIN`
abbrev pub is_pending : Errno → Bool
is_pending einprogress = true
is_pending eagain = true
is_pending _ = false

-- `sockfd == -1`
abbrev pub is_invalid : ℤ → Bool
is_invalid (negsuc zero) = true
is_invalid _ = false

-- `payload`
abbrev pub text : List ℕ
text = codes "Message from ESP32 "

abbrev is_socket : Call → Bool
is_socket socket = true
is_socket _ = false

abbrev closing_of : Call → Option ℤ
closing_of (close fd) = some fd
closing_of _ = none

abbrev pub sockets : Opening Call
sockets = record { is_open = is_socket; closing = closing_of }

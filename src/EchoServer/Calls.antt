-- ===== src/EchoServer/Calls.antt =====
-- The calls that lwip-intro/sockets/tcp_server.c makes, and its tests of their answers.
use esp_network_examples.Prelude.{ℕ, zero, ℤ, negsuc, Bool, true, false, List}
use esp_network_examples.Os.{Errno, einprogress, eagain, enotconn}

pub data Call : Type 0 where
  getaddrinfo socket free_info : Call
  fcntl_getfl bind listen accept recv close : ℤ → Call
  fcntl_setfl : ℤ → ℤ → Call
  send : ℤ → List ℕ → Call

-- `INVALID_SOCK`
abbrev pub invalid_sock : ℤ
invalid_sock = negsuc 0

abbrev pub is_invalid : ℤ → Bool
is_invalid (negsuc zero) = true
is_invalid _ = false

-- `errno == EINPROGRESS || errno == EAGAIN || errno == EWOULDBLOCK`
abbrev pub is_transient : Errno → Bool
is_transient einprogress = true
is_transient eagain = true
is_transient _ = false

-- `errno == EWOULDBLOCK`
abbrev pub is_eagain : Errno → Bool
is_eagain eagain = true
is_eagain _ = false

abbrev pub is_enotconn : Errno → Bool
is_enotconn enotconn = true
is_enotconn _ = false

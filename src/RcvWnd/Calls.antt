-- ===== src/RcvWnd/Calls.antt =====
-- The calls of lwip/rcvwnd_issue/tcp_client/main/tcp_client_v4.c.
use esp_network_examples.Prelude.{
  ℕ, zero, ℤ, pos, negsuc, Bool, true, false, ◌≡◌, ◌≤◌, List, Option, none, some, codes, length,
}
use esp_network_examples.Os.{Env, Trace}
use esp_network_examples.Os.Descriptors.{Opening}

pub data Call : Type 0 where
  socket delay pause : Call
  connect shutdown close : ℤ → Call
  set_receive_buffer recv : ℤ → ℕ → Call
  send : ℤ → List ℕ → Call

-- `sock == -1`
abbrev pub is_invalid : ℤ → Bool
is_invalid (negsuc zero) = true
is_invalid _ = false

-- `payload`
abbrev pub request : List ℕ
request = codes "GET /test HTTP/1.1\r\nHost: test\r\nConnection: close\r\n\r\n"

abbrev is_socket : Call → Bool
is_socket socket = true
is_socket _ = false

abbrev closing_of : Call → Option ℤ
closing_of (close fd) = some fd
closing_of _ = none

abbrev pub sockets : Opening Call
sockets = record { is_open = is_socket; closing = closing_of }

-- What is documented of `recv`: it fails, or it writes as many bytes as it returns, which are no
-- more than were asked for.
abbrev pub Fits : ℕ → List ℕ → ℤ → Type 0
Fits n bytes (pos k) = (length bytes ≡ k) × (k ≤ n)
Fits n bytes (negsuc k) = Unit

abbrev pub ReadsAtMost : Env Call → Type 0
ReadsAtMost env =
    (t : Trace Call) (fd : ℤ) (n : ℕ) → Fits n (env t (recv fd n)).bytes (env t (recv fd n)).ret

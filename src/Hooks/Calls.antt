-- ===== src/Hooks/Calls.antt =====
-- The calls of lwip_output_hooks/tcp_client/main/tcp_client_v4.c and tcp_client_v6.c.
use esp_network_examples.Prelude.{
  ℕ, zero, suc, ℤ, pos, negsuc, Bool, true, false, List, Option, none, some, codes,
}
use esp_network_examples.Os.{Answer, Env}
use esp_network_examples.Os.Descriptors.{Opening}

pub data Call : Type 0 where
  socket getifaddrs freeifaddrs find_if : Call
  connect shutdown close : ℤ → Call
  interface_index : ℤ → List ℕ → Call
  recv : ℤ → ℕ → Call
  send : ℤ → List ℕ → Call

-- An entry of `getifaddrs`: its name, and of its address, if it is one of IPv6, the first byte.
pub record IfAddr : Type 0 where
  pub ifa_name : List ℕ
  pub first_byte : Option ℕ

-- The system: its answers, and the entries that `getifaddrs` gives, by its answer.
pub record Net : Type 0 where
  pub env : Env Call
  pub ifaddrs : Answer → List IfAddr

abbrev is_socket : Call → Bool
is_socket socket = true
is_socket _ = false

abbrev closing_of : Call → Option ℤ
closing_of (close fd) = some fd
closing_of _ = none

abbrev pub sockets : Opening Call
sockets = record { is_open = is_socket; closing = closing_of }

-- `getifaddrs(&ifap) == -1`, `sock == -1`
abbrev pub is_minus_one : ℤ → Bool
is_minus_one (negsuc zero) = true
is_minus_one _ = false

-- A pointer that is not NULL.
abbrev pub is_pointer : ℤ → Bool
is_pointer (pos (suc n)) = true
is_pointer _ = false

-- `payload`
abbrev pub message : List ℕ
message = codes "Message from ESP32 "

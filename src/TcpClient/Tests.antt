-- ===== src/TcpClient/Tests.antt =====
-- The theorems on the client, applied to runs.
use esp_network_examples.Prelude.{ℕ, pos, negsuc, true, [], ◌∷◌, none, ◌≡◌, refl, codes}
use esp_network_examples.Os.{Answer, Env, other}
use esp_network_examples.TcpClient.Calls.{Call, socket, connect, recv, getfl, setfl, Net}
use esp_network_examples.TcpClient.{tcp_bind_test, non_block_sock_thread}
use esp_network_examples.TcpClient.Reading.{non_block_sock_thread-drops}

abbrev answer : ℕ → Answer
answer n = record { ret = pos n; errno = other; bytes = [] }

-- Nobody listens.
abbrev refusing : Env Call
refusing t socket = answer 4
refusing t (connect fd) = record { ret = negsuc 0; errno = other; bytes = [] }
refusing t _ = answer 0

-- The server speaks first.
abbrev greeting : Env Call
greeting t (recv fd n) = record { ret = pos 5; errno = other; bytes = codes "hello" }
greeting t _ = answer 0

abbrev net : Net
net = record { env = greeting; readable = λ a. true; sockerr = λ a. pos 0 }

greeting_dropped : non_block_sock_thread net (pos 3) [] ≡ (
  none,
  (recv (pos 3) 127, record { ret = pos 5; errno = other; bytes = codes "hello" })
      ∷ (connect (pos 3), answer 0)
      ∷ (setfl (pos 3), answer 0)
      ∷ (getfl (pos 3), answer 0)
      ∷ [],
)
unfolding esp_network_examples.TcpClient.set_nonblocking
    esp_network_examples.TcpClient.connect_waiting
greeting_dropped =
    non_block_sock_thread-drops net (pos 3)
      ((setfl (pos 3), answer 0) ∷ (getfl (pos 3), answer 0) ∷ [])
      ((connect (pos 3), answer 0) ∷ (setfl (pos 3), answer 0) ∷ (getfl (pos 3), answer 0) ∷ []) 5
      refl refl refl

-- ===== src/EchoServer/Tests.antt =====
-- The theorems on lwip-intro/sockets/tcp_server.c at concrete environments.
use esp_network_examples.Prelude.{ℕ, pos, negsuc, [], ◌∷◌, ◌≡◌, ap, inl, refl, arith, length, codes}
use esp_network_examples.Os.{other, eagain, Env}
use esp_network_examples.EchoServer.Calls.{Call, getaddrinfo, socket, accept, recv, send}
use esp_network_examples.EchoServer.Send.{faulted, socket_send}
use esp_network_examples.EchoServer.Send.Delivery.{
  AcceptsOrFails, Delivers, socket_send-Delivers, socket_send_again,
}
use esp_network_examples.EchoServer.Descriptors.{opens}
use esp_network_examples.EchoServer.Shutdown.{OutcomeBalanced, tcp_server_task-Balanced}
use esp_network_examples.EchoServer.Serving.{Echoes, serve_one-Echoes, serve_loop-gone}
use esp_network_examples.EchoServer.{running, serve_one, serve_loop, tcp_server_task}

-- A system that gives the descriptor 3 to the listener and 5 to each client, takes at most two
-- bytes in one `send`, and hands over two bytes by each `recv`.
abbrev small_env : Env Call
small_env t (accept l) = record { ret = pos 5; errno = other; bytes = [] }
small_env t socket = record { ret = pos 3; errno = other; bytes = [] }
small_env t getaddrinfo = record { ret = pos 0; errno = other; bytes = 1 ∷ [] }
small_env t (send s []) = record { ret = pos 0; errno = other; bytes = [] }
small_env t (send s (x ∷ [])) = record { ret = pos 1; errno = other; bytes = [] }
small_env t (send s (x ∷ y ∷ r)) = record { ret = pos 2; errno = other; bytes = [] }
small_env t (recv s) = record { ret = pos 2; errno = other; bytes = codes "hi" }
small_env t _ = record { ret = pos 0; errno = other; bytes = [] }

small_env-AcceptsOrFails : AcceptsOrFails small_env
small_env-AcceptsOrFails t s [] ne = absurd (ne refl)
small_env-AcceptsOrFails t s (x ∷ []) ne = inl (0, refl, omega arith)
small_env-AcceptsOrFails t s (x ∷ y ∷ r) ne = inl (1, refl, omega arith)

socket_send-Delivers_example :
    Delivers 5 (codes "hello") [] (socket_send small_env 6 (pos 5) (codes "hello") [])
socket_send-Delivers_example =
    socket_send-Delivers small_env small_env-AcceptsOrFails 6 (pos 5) (codes "hello") []
      (omega arith)

serve_one-Echoes_example : Echoes (pos 5) (codes "hi") [] (serve_one small_env 3 (pos 5) [])
serve_one-Echoes_example =
    serve_one-Echoes small_env 3 (pos 5) [] refl 1 small_env-AcceptsOrFails refl (omega arith)

tcp_server_task-Balanced_example : OutcomeBalanced 5 (tcp_server_task small_env 3 2 [])
tcp_server_task-Balanced_example = tcp_server_task-Balanced small_env 3 2 5

-- A system whose `send` would block, and whose peers have gone.
abbrev blocked_env : Env Call
blocked_env t (send s xs) = record { ret = negsuc 0; errno = eagain; bytes = [] }
blocked_env t _ = record { ret = pos 0; errno = other; bytes = [] }

socket_send_again_example : (socket_send blocked_env 2 (pos 5) (codes "hi") []).0 ≡ faulted
socket_send_again_example =
    socket_send_again blocked_env 0 (pos 5) (codes "hi") 0 []
      (λ e. absurd (omega (arith, ap length e))) refl refl

serve_loop-gone_example :
    ((serve_loop blocked_env 3 4 (pos 3) (pos 5 ∷ pos 6 ∷ []) []).0 ≡ running (pos 5 ∷ pos 6 ∷ []))
    × ((d : ℕ)
        → opens d (serve_loop blocked_env 3 4 (pos 3) (pos 5 ∷ pos 6 ∷ []) []).1 ≡ opens d [])
serve_loop-gone_example =
    serve_loop-gone blocked_env 3 4 (pos 3) (pos 5 ∷ pos 6 ∷ []) []
      (refl, (λ t. refl), (refl, (λ t. refl), tt))

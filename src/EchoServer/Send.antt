-- ===== src/EchoServer/Send.antt =====
-- `socket_send` of lwip-intro/sockets/tcp_server.c.
pub mod Delivery
use esp_network_examples.Prelude.{
  ℕ, zero, suc, ◌+◌, ◌-◌, ℤ, pos, negsuc, is_neg, Bool, true, false, not, ◌&&◌, List, [], ◌∷◌, ltb,
  ◌==◌, if◌then◌else◌, length, drop,
}
use esp_network_examples.Os.{Answer, Env, Io, ask, return, ◌>>=◌}
use esp_network_examples.EchoServer.Calls.{Call, send, is_transient}

-- How a call ends: with its result, with a read outside of `data`, or not within the rounds given.
pub data SendResult : Type 0 where
  returned : ℤ → SendResult
  faulted : SendResult
  sending : SendResult

-- `to_write -= written`, where the loop goes on while `to_write > 0`: a result that would be
-- negative is as good as 0. A `written` of -1 adds one.
abbrev pub left_after : ℕ → ℤ → ℕ
left_after to_write (pos w) = to_write - w
left_after to_write (negsuc n) = to_write + suc n

-- The loop, for at most so many rounds. The bytes handed to `send` begin at
-- `data + (len - to_write)`, which lies before `data` where `to_write` exceeds `len`.
unfoldable pub send_loop : Env Call → ℕ → ℤ → List ℕ → ℕ → Io Call SendResult
send_loop env zero sock xs to_write = return sending
send_loop env (suc fuel) sock xs zero = return (returned (pos (length xs)))
send_loop env (suc fuel) sock xs (suc n) = elim (ltb (length xs) (suc n)) [
  | true ↦ return faulted
  | false ↦ ask env (send sock (drop (length xs - suc n) xs)) >>= λ r.
      elim (is_neg r.ret && not (is_transient r.errno)) [
        | true ↦ return (returned (negsuc 0))
        | false ↦ send_loop env fuel sock xs (left_after (suc n) r.ret)
      ]
]

unfoldable pub socket_send : Env Call → ℕ → ℤ → List ℕ → Io Call SendResult
unfolding send_loop
socket_send env fuel sock xs = send_loop env fuel sock xs (length xs)

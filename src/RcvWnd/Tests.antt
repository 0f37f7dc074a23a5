-- ===== src/RcvWnd/Tests.antt =====
-- The theorems on the client with a small window, applied to runs.
use esp_network_examples.Prelude.{
  ℕ, pos, negsuc, [], refl, arith, codes, ltb, if◌then◌else◌, Bool-cases, inl, inr,
}
use esp_network_examples.Os.{Answer, Env, other}
use esp_network_examples.RcvWnd.Calls.{Call, socket, send, recv, ReadsAtMost}
use esp_network_examples.RcvWnd.{fresh, receive_loop}
use esp_network_examples.RcvWnd.Receiving.{Ends, receive_loop-Holds}

abbrev answer : ℕ → Answer
answer n = record { ret = pos n; errno = other; bytes = [] }

-- The server sends two bytes at a time, or nothing where fewer are asked for.
abbrev slow : Env Call
slow t socket = answer 3
slow t (recv fd n) =
    if ltb n 2 then answer 0 else record { ret = pos 2; errno = other; bytes = codes "ab" }
slow t _ = answer 0

slow-ReadsAtMost : ReadsAtMost slow
slow-ReadsAtMost t fd n = elim (Bool-cases (ltb n 2)) [
  | inl few ↦ rw few ((refl, omega arith))
  | inr enough ↦ rw enough ((refl, ground arith))
]

receive_loop-Holds_example : Ends [] (receive_loop 100 slow (pos 3) fresh [])
receive_loop-Holds_example = receive_loop-Holds slow (pos 3) [] slow-ReadsAtMost

-- The request cannot be sent.
abbrev mute : Env Call
mute t socket = answer 3
mute t (send fd bytes) = record { ret = negsuc 0; errno = other; bytes = [] }
mute t _ = answer 0

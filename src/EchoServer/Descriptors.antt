-- ===== src/EchoServer/Descriptors.antt =====
-- Every descriptor that lwip-intro/sockets/tcp_server.c opens is held in a slot or has been closed.
use esp_network_examples.Prelude.{
  ℕ, zero, suc, ◌+◌, ◌-◌, drop, ℤ, pos, negsuc, true, List, [], ◌∷◌, Option, none, some, ◌≡◌, inl,
  inr, refl, arith, Bool-cases, ◌==◌, if◌then◌else◌, length, take,
}
use esp_network_examples.Os.{Env, Io, Trace}
use esp_network_examples.EchoServer.Calls.{Call, socket, accept, recv, send, close, is_invalid}
use esp_network_examples.EchoServer.Send.{
  SendResult, returned, faulted, sending, left_after, send_loop, socket_send,
}
use esp_network_examples.EchoServer.{
  receive_code, try_receive, after_send, after_receive, serve_one, Status, running, failed, lost,
  cons_slot, serve_rest, serve_all,
}

-- 1 where an integer is the descriptor `d`, else 0.
abbrev pub one : ℕ → ℤ → ℕ
one d (pos n) = if d == n then 1 else 0
one d (negsuc n) = 0

-- How many of the slots hold the descriptor.
abbrev pub held : ℕ → List ℤ → ℕ
held d [] = 0
held d (s ∷ ss) = one d s + held d ss

-- How often a call opens or closes the descriptor, and how often a trace does.
abbrev opens_by : ℕ → Call → ℤ → ℕ
opens_by d socket z = one d z
opens_by d (accept l) z = one d z
opens_by d _ z = 0

abbrev closes_by : ℕ → Call → ℕ
closes_by d (close s) = one d s
closes_by d _ = 0

abbrev pub opens : ℕ → Trace Call → ℕ
opens d [] = 0
opens d ((c, r) ∷ t) = opens_by d c r.ret + opens d t

abbrev pub closes : ℕ → Trace Call → ℕ
closes d [] = 0
closes d ((c, r) ∷ t) = closes_by d c + closes d t

-- Every time the descriptor was opened it was closed again, or it is one of `k` that are held.
abbrev pub Balanced : ℕ → ℕ → Trace Call → Type 0
Balanced d k t = opens d t ≡ closes d t + k

pub invalid_one : (d : ℕ) (s : ℤ) → is_invalid s ≡ true → one d s ≡ 0
invalid_one d (pos n) h = absurd (cc)
invalid_one d (negsuc n) h = refl

send_loop-Balanced :
    (env : Env Call) (d k fuel : ℕ) (s : ℤ) (xs : List ℕ) (n : ℕ) (t : Trace Call)
    → Balanced d k t
    → Balanced d k (send_loop env fuel s xs n t).1
unfolding send_loop
send_loop-Balanced env d k zero s xs n t h = h
send_loop-Balanced env d k (suc fuel) s xs zero t h = h
send_loop-Balanced env d k (suc fuel) s xs (suc n) t h =
    let c = send s (drop (length xs - suc n) xs) in
    let r = env t c in
    ground (
      arith,
      send_loop-Balanced env d k fuel s xs (left_after (suc n) r.ret) ((c, r) ∷ t) (omega arith),
    )

socket_send-Balanced :
    (env : Env Call) (d k fuel : ℕ) (s : ℤ) (xs : List ℕ) (t : Trace Call)
    → Balanced d k t
    → Balanced d k (socket_send env fuel s xs t).1
unfolding socket_send
socket_send-Balanced env d k fuel s xs t h = send_loop-Balanced env d k fuel s xs (length xs) t h

-- A slot, by what became of it: balanced with the slot's new socket, or with the one that it keeps.
abbrev SlotBalanced : ℕ → ℕ → ℤ → Option ℤ × Trace Call → Type 0
SlotBalanced d k s (none, t) = Balanced d (one d s + k) t
SlotBalanced d k s (some s', t) = Balanced d (one d s' + k) t

after_send-Balanced :
    (env : Env Call) (d k : ℕ) (s : ℤ) (r : SendResult) (t : Trace Call)
    → Balanced d (one d s + k) t
    → SlotBalanced d k s (after_send env s r t)
unfolding after_send
after_send-Balanced env d k s (returned (pos n)) t h = h
after_send-Balanced env d k s (returned (negsuc n)) t h = omega arith
after_send-Balanced env d k s faulted t h = h
after_send-Balanced env d k s sending t h = h

after_receive-Balanced :
    (env : Env Call) (d k fuel : ℕ) (s z : ℤ) (bytes : List ℕ) (t : Trace Call)
    → Balanced d (one d s + k) t
    → SlotBalanced d k s (after_receive env fuel s z bytes t)
unfolding after_receive
after_receive-Balanced env d k fuel s (negsuc n) bytes t h = omega arith
after_receive-Balanced env d k fuel s (pos zero) bytes t h = h
after_receive-Balanced env d k fuel s (pos (suc n)) bytes t h =
    after_send-Balanced env d k s _ _
      (socket_send-Balanced env d (one d s + k) fuel s (take (suc n) bytes) t h)

serve_one-Balanced :
    (env : Env Call) (d k fuel : ℕ) (s : ℤ) (t : Trace Call)
    → Balanced d (one d s + k) t
    → SlotBalanced d k s (serve_one env fuel s t)
unfolding serve_one try_receive
serve_one-Balanced env d k fuel s t h = elim (Bool-cases (is_invalid s)) [
  | inl free ↦ rw free h
  | inr open_one ↦ rw open_one (
      after_receive-Balanced env d k fuel s (receive_code (env t (recv s))) (env t (recv s)).bytes
        ((recv s, env t (recv s)) ∷ t) (omega arith))
]

-- The slots, however the main loop stands.
abbrev pub slots_of : Status → List ℤ
slots_of (running ss) = ss
slots_of (failed ss) = ss
slots_of (lost ss) = ss

abbrev pub StatusBalanced : ℕ → ℕ → Status × Trace Call → Type 0
StatusBalanced d k (status, t) = Balanced d (held d (slots_of status) + k) t

cons_slot-Balanced :
    (d k : ℕ) (s : ℤ) (status : Status) (t : Trace Call)
    → StatusBalanced d (one d s + k) (status, t)
    → StatusBalanced d k (cons_slot s status, t)
cons_slot-Balanced d k s (running ss) t h = omega arith
cons_slot-Balanced d k s (failed ss) t h = omega arith
cons_slot-Balanced d k s (lost ss) t h = omega arith

serve_rest-Balanced :
    (d k : ℕ) (s : ℤ) (ss : List ℤ) (rest : Io Call Status)
    → ((j : ℕ) (t : Trace Call) → Balanced d (held d ss + j) t → StatusBalanced d j (rest t))
    → (o : Option ℤ) (t : Trace Call) → SlotBalanced d (held d ss + k) s (o, t)
    → StatusBalanced d k (serve_rest s ss o rest t)
serve_rest-Balanced d k s ss rest keep none t h = omega arith
serve_rest-Balanced d k s ss rest keep (some s') t h =
    cons_slot-Balanced d k s' (rest t).0 (rest t).1 (keep (one d s' + k) t (omega arith))

pub serve_all-Balanced :
    (env : Env Call) (d k fuel : ℕ) (ss : List ℤ) (t : Trace Call)
    → Balanced d (held d ss + k) t
    → StatusBalanced d k (serve_all env fuel ss t)
unfolding serve_all
serve_all-Balanced env d k fuel [] t h = h
serve_all-Balanced env d k fuel (s ∷ ss) t h =
    serve_rest-Balanced d k s ss (serve_all env fuel ss)
      (λ j t' b. serve_all-Balanced env d j fuel ss t' b) (serve_one env fuel s t).0
      (serve_one env fuel s t).1 (serve_one-Balanced env d (held d ss + k) fuel s t (omega arith))

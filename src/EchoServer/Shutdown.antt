-- ===== src/EchoServer/Shutdown.antt =====
-- A run of lwip-intro/sockets/tcp_server.c leaks no descriptor, whatever the system answers.
use esp_network_examples.Prelude.{
  ℕ, zero, suc, ◌+◌, ◌<◌, ℤ, is_neg, is_zero, Bool, not, ◌||◌, List, [], ◌∷◌, ◌≡◌, inl, inr, refl,
  arith, ltb, ltb→lt, Bool-cases, length, replicate, set,
}
use esp_network_examples.Os.{Answer, Env, Io, Trace, if_both}
use esp_network_examples.EchoServer.Calls.{
  Call, getaddrinfo, socket, bind, listen, accept, invalid_sock, is_invalid,
}
use esp_network_examples.EchoServer.{
  free_index, set_nonblocking, after_accept, accept_new, continue_with, Status, running, failed,
  lost, serve_round, serve_loop, close_valid, close_all, clean_up, no_clients, prepare, Outcome,
  ended, serving, stuck, finish, serve_address, is_null, tcp_server_task,
}
use esp_network_examples.EchoServer.Descriptors.{
  one, held, opens, closes, Balanced, StatusBalanced, invalid_one, serve_all-Balanced,
}

behind : {m n : ℕ} → suc m < suc n → m < n
behind h = omega arith

-- The slot that `accept` fills was free.
held-set_free :
    (d : ℕ) (ss : List ℤ) (v : ℤ)
    → free_index ss < length ss
    → held d (set ss (free_index ss) v) ≡ one d v + held d ss
held-set_free d [] v h = elim h [ ]
held-set_free d (s ∷ ss) v h = elim (Bool-cases (is_invalid s)) [
  | inl free ↦ rw free (omega (arith, invalid_one d s free))
  | inr open_one ↦ rw open_one (omega (arith, held-set_free d ss v (behind (rw open_one at h))))
]

set_nonblocking-Balanced :
    (env : Env Call) (d k : ℕ) (s : ℤ) (t : Trace Call)
    → Balanced d k t
    → Balanced d k (set_nonblocking env s t).1
unfolding set_nonblocking
set_nonblocking-Balanced env d k s t h = omega arith

after_accept-Balanced :
    (env : Env Call) (d k : ℕ) (r : Answer) (t : Trace Call)
    → Balanced d k t
    → Balanced d k (after_accept env r t).1
unfolding after_accept
after_accept-Balanced env d k r t h = elim (Bool-cases (is_neg r.ret)) [
  | inl refused ↦ rw refused h
  | inr taken ↦ rw taken (set_nonblocking-Balanced env d k r.ret t h)
]

accept_new-Balanced :
    (env : Env Call) (d k : ℕ) (sock : ℤ) (ss : List ℤ) (t : Trace Call)
    → Balanced d (held d ss + k) t
    → Balanced d (held d (accept_new env sock ss t).0.1 + k) (accept_new env sock ss t).1
unfolding accept_new
accept_new-Balanced env d k sock ss t h = elim (Bool-cases (ltb (free_index ss) (length ss))) [
  | inl some_free ↦
      let r = env t (accept sock) in
      let room = held-set_free d ss r.ret (ltb→lt _ _ some_free) in
      rw some_free (
        after_accept-Balanced env d (held d (set ss (free_index ss) r.ret) + k) r
          ((accept sock, r) ∷ t) (omega (arith, room)))
  | inr full ↦ rw full h
]

serve_round-Balanced :
    (env : Env Call) (d k fuel : ℕ) (sock : ℤ) (ss : List ℤ) (t : Trace Call)
    → Balanced d (held d ss + k) t
    → StatusBalanced d k (serve_round env fuel sock ss t)
unfolding serve_round
serve_round-Balanced env d k fuel sock ss t h =
    let next = accept_new env sock ss t in
    let b = accept_new-Balanced env d k sock ss t h in
    elim (Bool-cases next.0.0) [
      | inl go_on ↦ rw go_on (serve_all-Balanced env d k fuel next.0.1 next.1 b)
      | inr stop ↦ rw stop b
    ]

continue_with-Balanced :
    (d k : ℕ) (next : List ℤ → Io Call Status)
    → ((ss : List ℤ) (t : Trace Call)
        → Balanced d (held d ss + k) t
        → StatusBalanced d k (next ss t))
    → (status : Status) (t : Trace Call) → StatusBalanced d k (status, t)
    → StatusBalanced d k (continue_with status next t)
continue_with-Balanced d k next keep (running ss) t h = keep ss t h
continue_with-Balanced d k next keep (failed ss) t h = h
continue_with-Balanced d k next keep (lost ss) t h = h

serve_loop-Balanced :
    (env : Env Call) (d k fuel n : ℕ) (sock : ℤ) (ss : List ℤ) (t : Trace Call)
    → Balanced d (held d ss + k) t
    → StatusBalanced d k (serve_loop env fuel n sock ss t)
unfolding serve_loop
serve_loop-Balanced env d k fuel zero sock ss t h = h
serve_loop-Balanced env d k fuel (suc n) sock ss t h =
    continue_with-Balanced d k (serve_loop env fuel n sock)
      (λ ss' t' b. serve_loop-Balanced env d k fuel n sock ss' t' b) _ _
      (serve_round-Balanced env d k fuel sock ss t h)

close_valid-Balanced :
    (env : Env Call) (d k : ℕ) (s : ℤ) (t : Trace Call)
    → Balanced d (one d s + k) t
    → Balanced d k (close_valid env s t).1
unfolding close_valid
close_valid-Balanced env d k s t h = elim (Bool-cases (is_invalid s)) [
  | inl free ↦ rw free (omega (arith, invalid_one d s free))
  | inr valid ↦ rw valid (omega arith)
]

close_all-Balanced :
    (env : Env Call) (d k : ℕ) (ss : List ℤ) (t : Trace Call)
    → Balanced d (held d ss + k) t
    → Balanced d k (close_all env ss t).1
unfolding close_all
close_all-Balanced env d k [] t h = omega arith
close_all-Balanced env d k (s ∷ ss) t h =
    close_all-Balanced env d k ss _ (close_valid-Balanced env d (held d ss + k) s t (omega arith))

-- The clean-up closes all that is held.
clean_up-Balanced :
    (env : Env Call) (d : ℕ) (sock : ℤ) (ss : List ℤ) (t : Trace Call)
    → Balanced d (held d ss + one d sock) t
    → Balanced d 0 (clean_up env sock ss t).1
unfolding clean_up
clean_up-Balanced env d sock ss t h =
    let b =
      close_all-Balanced env d 0 ss _
        (close_valid-Balanced env d (held d ss + 0) sock t (omega arith)) in
    omega (arith, b)

prepare-Balanced :
    (env : Env Call) (d k : ℕ) (s : ℤ) (t : Trace Call)
    → Balanced d k t
    → Balanced d k (prepare env s t).1
unfolding prepare
prepare-Balanced env d k s t h =
    let b = set_nonblocking-Balanced env d k s t h in
    let t1 = (set_nonblocking env s t).1 in
    let t2 = (bind s, env t1 (bind s)) ∷ t1 in
    let b2 : Balanced d k t2 = omega (arith, b) in
    let b3 : Balanced d k ((listen s, env t2 (listen s)) ∷ t2) = omega (arith, b) in
    if_both {A = Bool} (λ r. Balanced d k r.1) (set_nonblocking env s t).0 _ _ t1
      (if_both {A = Bool} (λ r. Balanced d k r.1) (is_zero (env t1 (bind s)).ret) _ _ t2 b3 b2) b

-- The run, by its outcome.
abbrev pub OutcomeBalanced : ℕ → Outcome × Trace Call → Type 0
OutcomeBalanced d (ended, t) = opens d t ≡ closes d t
OutcomeBalanced d (serving sock ss, t) = opens d t ≡ closes d t + (held d ss + one d sock)
OutcomeBalanced d (stuck sock ss, t) = opens d t ≡ closes d t + (held d ss + one d sock)

ended-Balanced :
    (env : Env Call) (d : ℕ) (sock : ℤ) (ss : List ℤ) (t : Trace Call)
    → Balanced d (held d ss + one d sock) t
    → OutcomeBalanced d (ended, (clean_up env sock ss t).1)
ended-Balanced env d sock ss t h = omega (arith, clean_up-Balanced env d sock ss t h)

finish-Balanced :
    (env : Env Call) (d : ℕ) (sock : ℤ) (status : Status) (t : Trace Call)
    → StatusBalanced d (one d sock) (status, t)
    → OutcomeBalanced d (finish env sock status t)
unfolding finish
finish-Balanced env d sock (running ss) t h = h
finish-Balanced env d sock (failed ss) t h = ended-Balanced env d sock ss t h
finish-Balanced env d sock (lost ss) t h = h

no_clients-held : (d n : ℕ) → held d (replicate n invalid_sock) ≡ 0
no_clients-held d zero = refl
no_clients-held d (suc n) = omega (arith, no_clients-held d n)

serve_address-Balanced :
    (env : Env Call) (d fuel n : ℕ) (t : Trace Call)
    → Balanced d 0 t
    → OutcomeBalanced d (serve_address env fuel n t)
unfolding serve_address
serve_address-Balanced env d fuel n t h =
    let s = (env t socket).ret in
    let t' = (socket, env t socket) ∷ t in
    let fresh : Balanced d (held d no_clients + one d s) t' =
      omega (arith, no_clients-held d 999) in
    if_both (OutcomeBalanced d) (is_neg s) _ _ t' (ended-Balanced env d s no_clients t' fresh) (
      if_both (OutcomeBalanced d) (prepare env s t').0 _ _ (prepare env s t').1
        (finish-Balanced env d s _ _ (
          serve_loop-Balanced env d (one d s) fuel n s no_clients (prepare env s t').1
            (prepare-Balanced env d _ s t' fresh)))
        (ended-Balanced env d s no_clients _ (prepare-Balanced env d _ s t' fresh)))

-- Whatever the system answers: after any number of rounds every descriptor was opened as often as
-- it was closed and is held now, by the listener or in a slot, also where a call of `socket_send` does
-- not come back; and where the program has ended, it was opened exactly as often as it was closed.
pub tcp_server_task-Balanced :
    (env : Env Call) (fuel n d : ℕ) → OutcomeBalanced d (tcp_server_task env fuel n [])
unfolding tcp_server_task
tcp_server_task-Balanced env fuel n d =
    let a = env [] getaddrinfo in
    let t = (getaddrinfo, a) ∷ [] in
    let fresh : Balanced d (held d no_clients + 0) t = omega (arith, no_clients-held d 999) in
    if_both (OutcomeBalanced d) (not (is_zero a.ret) || is_null a.bytes) _ _ t
      (ended-Balanced env d invalid_sock no_clients t fresh)
      (serve_address-Balanced env d fuel n t refl)

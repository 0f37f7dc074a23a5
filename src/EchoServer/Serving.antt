-- ===== src/EchoServer/Serving.antt =====
-- What lwip-intro/sockets/tcp_server.c does for its clients: it echoes, it gives up a socket that
-- fails, and it keeps one whose peer has gone.
use esp_network_examples.Prelude.{
  ℕ, zero, suc, ◌<◌, ℤ, pos, negsuc, false, List, [], ◌∷◌, ◌++◌, Option, some, ◌≡◌, ◌⊎◌, inl, inr,
  refl, ap, ◌∙◌, arith, ltb, le→not_ltb, length, take, append-nil,
}
use esp_network_examples.Os.{Answer, Env, Trace}
use esp_network_examples.EchoServer.Calls.{Call, recv, invalid_sock, is_invalid, is_transient}
use esp_network_examples.EchoServer.Descriptors.{opens}
use esp_network_examples.EchoServer.Send.{SendResult, socket_send}
use esp_network_examples.EchoServer.Send.Delivery.{
  delivered, AcceptsOrFails, Delivers, socket_send-Delivers,
}
use esp_network_examples.EchoServer.{
  try_receive, after_send, after_receive, serve_one, serve_all, free_index, accept_new, running,
  Status, serve_round, serve_loop,
}

-- What serving a client that sent `xs` comes to: the bytes are delivered and the slot is kept; or
-- the connection fails behind a prefix of them, and the slot is free.
abbrev pub Echoes : ℤ → List ℕ → Trace Call → Option ℤ × Trace Call → Type 0
Echoes s xs before r =
    ((r.0 ≡ some s) × (delivered r.1 ≡ delivered before ++ xs))
    ⊎ ((r.0 ≡ some invalid_sock) × ((m : ℕ) × (delivered r.1 ≡ delivered before ++ take m xs)))

after_send-Echoes :
    (env : Env Call) (s : ℤ) (xs : List ℕ) (before : Trace Call) (r : SendResult) (t : Trace Call)
    → Delivers (length xs) xs before (r, t)
    → Echoes s xs before (after_send env s r t)
unfolding after_send delivered
after_send-Echoes env s xs before r t (inl (e, d)) = rw e (inl (refl, d))
after_send-Echoes env s xs before r t (inr (e, (m, d))) =
    rw e (inr (refl, (m, append-nil (delivered t) ∙ d)))

module _ (env : Env Call) (fuel : ℕ) (s : ℤ) (t : Trace Call) (valid : is_invalid s ≡ false) where
  abbrev answer : Answer
  answer = env t (recv s)

  abbrev after : Trace Call
  after = (recv s, answer) ∷ t

  serve_one_receiving :
      (n : ℕ)
      → answer.ret ≡ pos (suc n)
      → serve_one env fuel s t
        ≡ after_send env s
            (socket_send env fuel s (take (suc n) answer.bytes) after).0
            (socket_send env fuel s (take (suc n) answer.bytes) after).1
  unfolding serve_one try_receive after_receive
  serve_one_receiving n e = ground arith

  delivered-after : delivered after ≡ delivered t
  unfolding delivered
  delivered-after = append-nil (delivered t)

  -- A client that sent bytes gets them back, in order and once each, and keeps its slot; or the
  -- connection fails behind some of them, and then its slot is freed: where each send takes some of
  -- its bytes or fails for good (none is transient), and the fuel exceeds the bytes received.
  pub serve_one-Echoes :
      (n : ℕ)
      → AcceptsOrFails env
      → answer.ret ≡ pos (suc n)
      → length (take (suc n) answer.bytes) < fuel
      → Echoes s (take (suc n) answer.bytes) t (serve_one env fuel s t)
  serve_one-Echoes n ok e h =
      let xs = take (suc n) answer.bytes in
      let sent = socket_send env fuel s xs after in
      rw (serve_one_receiving n e, ← delivered-after)
        (after_send-Echoes env s xs after sent.0 sent.1
          (socket_send-Delivers env ok fuel s xs after h))

  -- A failed reception closes the socket and frees its slot.
  pub serve_one_failed :
      (m : ℕ)
      → answer.ret ≡ negsuc m
      → is_transient answer.errno ≡ false
      → (serve_one env fuel s t).0 ≡ some invalid_sock
  unfolding serve_one try_receive after_receive
  serve_one_failed m e f = ground arith

  -- A peer that has closed its connection, for which `recv` returns 0, keeps its slot.
  pub serve_one_kept : answer.ret ≡ pos 0 → serve_one env fuel s t ≡ (some s, after)
  unfolding serve_one try_receive after_receive
  serve_one_kept e = ground arith

-- Every slot holds a socket whose peer has closed the connection.
abbrev pub AllGone : Env Call → List ℤ → Type 0
AllGone env [] = Unit
AllGone env (s ∷ ss) =
    (is_invalid s ≡ false) × ((t : Trace Call) → (env t (recv s)).ret ≡ pos 0) × AllGone env ss

module _ (env : Env Call) (fuel : ℕ) where
  free_index-gone : (ss : List ℤ) → AllGone env ss → free_index ss ≡ length ss
  free_index-gone [] h = refl
  free_index-gone (s ∷ ss) h = rw h.0 (ap suc (free_index-gone ss h.2))

  -- A step that keeps the slots and opens nothing.
  abbrev Keeps : List ℤ → Trace Call → Status × Trace Call → Type 0
  Keeps ss t r = (r.0 ≡ running ss) × ((d : ℕ) → opens d r.1 ≡ opens d t)

  serve_all-gone :
      (ss : List ℤ) (t : Trace Call) → AllGone env ss → Keeps ss t (serve_all env fuel ss t)
  unfolding serve_all
  serve_all-gone [] t h = (refl, λ d. refl)
  serve_all-gone (s ∷ ss) t h =
      let (same, quiet) = serve_all-gone ss ((recv s, env t (recv s)) ∷ t) h.2 in
      rw (serve_one_kept env fuel s t h.0 (h.1 t), same) (refl, λ d. omega (arith, quiet d))

  serve_round-gone :
      (sock : ℤ) (ss : List ℤ) (t : Trace Call)
      → AllGone env ss
      → ((serve_round env fuel sock ss t).0 ≡ running ss)
        × ((d : ℕ) → opens d (serve_round env fuel sock ss t).1 ≡ opens d t)
  unfolding serve_round accept_new
  serve_round-gone sock ss t h =
      let (same, quiet) = serve_all-gone ss t h in
      let full : ltb (free_index ss) (length ss) ≡ false =
        le→not_ltb _ _ (omega (arith, free_index-gone ss h)) in
      rw (full, same) (refl, quiet)

  -- Once every slot belongs to a peer that has closed its connection, the server goes on with
  -- these slots for any number of rounds, and accepts no connection again.
  pub serve_loop-gone :
      (n : ℕ) (sock : ℤ) (ss : List ℤ) (t : Trace Call)
      → AllGone env ss
      → ((serve_loop env fuel n sock ss t).0 ≡ running ss)
        × ((d : ℕ) → opens d (serve_loop env fuel n sock ss t).1 ≡ opens d t)
  unfolding serve_loop
  serve_loop-gone zero sock ss t h = (refl, λ d. refl)
  serve_loop-gone (suc n) sock ss t h =
      let (same, quiet) = serve_round-gone sock ss t h in
      let (same', quiet') = serve_loop-gone n sock ss (serve_round env fuel sock ss t).1 h in
      rw same (same', λ d. quiet' d ∙ quiet d)

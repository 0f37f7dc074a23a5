-- ===== src/RcvWnd/Sockets.antt =====
-- The sockets that lwip/rcvwnd_issue/tcp_client/main/tcp_client_v4.c opens, closes and holds.
use esp_network_examples.Prelude.{
  ℕ, zero, suc, ◌+◌, ℤ, pos, negsuc, is_neg, is_zero, List, [], ◌∷◌, Option, none, some, ◌≡◌, inl,
  inr, refl, arith, ltb, leb, Bool-cases,
}
use esp_network_examples.Os.{Env, Io, Trace, if_both}
use esp_network_examples.Os.Descriptors.{Balanced, opens, closes, one, one_neg}
use esp_network_examples.Os.Tasks.{holds, TaskBalanced, turns-Balanced}
use esp_network_examples.RcvWnd.Calls.{
  Call, socket, set_receive_buffer, connect, send, recv, delay, request, sockets,
}
use esp_network_examples.RcvWnd.{
  Response, fresh, tried, remaining_buffer, bytes_to_receive, add_bytes, if_more, after_recv,
  receive_loop, terminate, hang_up, if_terminated, if_received, use_socket, connect_once,
  tcp_client,
}

module _ (d k : ℕ) where
  abbrev Keeps : (Response → Io Call (Option Response)) → Type 0
  Keeps next =
      (s : Response) (t : Trace Call) → Balanced sockets d k t → Balanced sockets d k (next s t).1

  if_more-Keeps :
      (next : Response → Io Call (Option Response))
      → Keeps next
      → (o : Option Response) (t : Trace Call) → Balanced sockets d k t
      → Balanced sockets d k (if_more next o t).1
  if_more-Keeps next keep none t h = h
  if_more-Keeps next keep (some s) t h =
      if_both (λ r. Balanced sockets d k r.1) (leb 1500 s.total_received) _ _ t h (keep s t h)

  after_recv-Keeps :
      (next : Response → Io Call (Option Response))
      → Keeps next
      → (s : Response) (bytes : List ℕ) (ret : ℤ) (t : Trace Call) → Balanced sockets d k t
      → Balanced sockets d k (after_recv next s bytes ret t).1
  unfolding after_recv
  after_recv-Keeps next keep s bytes (negsuc n) t h = h
  after_recv-Keeps next keep s bytes (pos zero) t h = h
  after_recv-Keeps next keep s bytes (pos (suc n)) t h =
      if_more-Keeps next keep (add_bytes s bytes (suc n)) t h

  receive_loop-Keeps : (left : ℕ) (env : Env Call) (sock : ℤ) → Keeps (receive_loop left env sock)
  unfolding receive_loop
  receive_loop-Keeps zero env sock s t h = h
  receive_loop-Keeps (suc left) env sock s t h =
      let n = bytes_to_receive s.total_received in
      let r = env t (recv sock n) in
      let t1 : Trace Call = (recv sock n, r) ∷ t in
      let t2 : Trace Call = (delay, env t1 delay) ∷ t1 in
      if_both (λ r. Balanced sockets d k r.1) (ltb s.total_received 1500) _ _ t
        (if_both (λ r. Balanced sockets d k r.1) (leb (remaining_buffer s.total_received) 0) _ _ t h
          (after_recv-Keeps (receive_loop left env sock) (receive_loop-Keeps left env sock)
            (tried s) r.bytes r.ret t2 (omega arith)))
        h

module _ (env : Env Call) (d : ℕ) where
  hang_up-Balanced :
      (sock : ℤ) (t : Trace Call)
      → Balanced sockets d (one d sock) t
      → TaskBalanced sockets d (hang_up env sock t)
  unfolding hang_up
  hang_up-Balanced (pos n) t h = omega arith
  hang_up-Balanced (negsuc zero) t h = omega arith
  hang_up-Balanced (negsuc (suc n)) t h = omega arith

  if_terminated-Balanced :
      (sock : ℤ) (o : Option Response) (t : Trace Call)
      → Balanced sockets d (one d sock) t
      → TaskBalanced sockets d (if_terminated env sock o t)
  if_terminated-Balanced sock none t h = h
  if_terminated-Balanced sock (some s) t h = hang_up-Balanced sock t h

  if_received-Balanced :
      (sock : ℤ) (o : Option Response) (t : Trace Call)
      → Balanced sockets d (one d sock) t
      → TaskBalanced sockets d (if_received env sock o t)
  if_received-Balanced sock none t h = h
  if_received-Balanced sock (some s) t h = if_terminated-Balanced sock (terminate s) t h

  use_socket-Balanced :
      (sock : ℤ) (t : Trace Call)
      → Balanced sockets d (one d sock) t
      → TaskBalanced sockets d (use_socket env sock t)
  unfolding use_socket
  use_socket-Balanced sock t h =
      let t1 : Trace Call =
        (set_receive_buffer sock 512, env t (set_receive_buffer sock 512)) ∷ t in
      let c = env t1 (connect sock) in
      let t2 : Trace Call = (connect sock, c) ∷ t1 in
      let r = env t2 (send sock request) in
      let t3 : Trace Call = (send sock request, r) ∷ t2 in
      let h3 : Balanced sockets d (one d sock) t3 = omega arith in
      if_both (TaskBalanced sockets d) (is_zero c.ret) _ _ t2
        (if_both (TaskBalanced sockets d) (is_neg r.ret) _ _ t3 h3 (
          if_received-Balanced sock (receive_loop 100 env sock fresh t3).0
            (receive_loop 100 env sock fresh t3).1
            (receive_loop-Keeps d (one d sock) 100 env sock fresh t3 h3)))
        (omega arith)

  connect_once-Balanced :
      (t : Trace Call) → Balanced sockets d 0 t → TaskBalanced sockets d (connect_once env t)
  unfolding connect_once
  connect_once-Balanced t h =
      let s = env t socket in
      elim (Bool-cases (is_neg s.ret)) [
        | inl e ↦ rw e (omega (arith, one_neg d s.ret e))
        | inr e ↦ rw e (use_socket-Balanced s.ret ((socket, s) ∷ t) (omega arith))
      ]

-- Whatever the system answers, after any number of connections each descriptor has been closed as
-- often as it was opened, but for the one in use, and for the one that the loop was left with:
-- behind a failed connect or a failed send the task ends and its socket stays open.
pub tcp_client-Balanced :
    (n : ℕ) (env : Env Call) (d : ℕ)
    → opens sockets d (tcp_client n env []).1
      ≡ closes sockets d (tcp_client n env []).1 + holds d (tcp_client n env []).0
unfolding tcp_client
tcp_client-Balanced n env d =
    turns-Balanced sockets d (connect_once env) (connect_once-Balanced env d) n [] refl

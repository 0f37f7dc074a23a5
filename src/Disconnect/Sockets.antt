-- ===== src/Disconnect/Sockets.antt =====
-- The sockets that devcon22/demo_3_sockets/main/tcp_client.c opens, closes and holds.
use esp_network_examples.Prelude.{
  ℕ, zero, suc, ◌+◌, ℤ, pos, negsuc, is_neg, Bool, true, false, [], ◌∷◌, ◌≡◌, inl, inr, refl, arith,
  Bool-cases,
}
use esp_network_examples.Os.{Answer, Trace, if_both}
use esp_network_examples.Os.Descriptors.{Balanced, opens, closes, one, one_neg}
use esp_network_examples.Os.Tasks.{holds, TaskBalanced, turns-Balanced}
use esp_network_examples.Disconnect.Calls.{
  Call, socket, getfl, connect, select, get_error, set_linger, pause, send, sockets, Net,
  is_in_progress, first_bytes,
}
use esp_network_examples.Disconnect.{
  Connection, made, signalled, failed, check_error, after_select, try_connect, use_connection,
  set_nonblocking, if_nonblocking, connect_once, tcp_client_task,
}

module _ (net : Net) (d : ℕ) where
  module _ (k : ℕ) where
    after_select-Keeps :
        (sock : ℤ) (a : Answer) (ret : ℤ) (t : Trace Call)
        → Balanced sockets d k t
        → Balanced sockets d k (after_select net sock a ret t).1
    unfolding after_select check_error
    after_select-Keeps sock a (negsuc n) t h = h
    after_select-Keeps sock a (pos zero) t h = h
    after_select-Keeps sock a (pos (suc n)) t h =
        let e = net.env t (get_error sock) in
        let t1 : Trace Call = (get_error sock, e) ∷ t in
        if_both (λ r. Balanced sockets d k r.1) (net.is_signalled a) _ _ t h
          (if_both (λ r. Balanced sockets d k r.1) (is_neg e.ret) _ _ t1 h h)

    try_connect-Keeps :
        (sock : ℤ) (t : Trace Call)
        → Balanced sockets d k t
        → Balanced sockets d k (try_connect net sock t).1
    unfolding try_connect
    try_connect-Keeps sock t h =
        let a = net.env t (connect sock) in
        let t1 : Trace Call = (connect sock, a) ∷ t in
        let b = net.env t1 (select sock) in
        let t2 : Trace Call = (select sock, b) ∷ t1 in
        if_both (λ r. Balanced sockets d k r.1) (is_neg a.ret) _ _ t1
          (if_both (λ r. Balanced sockets d k r.1) (is_in_progress a.errno) _ _ t1
            (after_select-Keeps sock b b.ret t2 h) h)
          h

    set_nonblocking-Keeps :
        (sock : ℤ) (t : Trace Call)
        → Balanced sockets d k t
        → Balanced sockets d k (set_nonblocking net sock t).1
    unfolding set_nonblocking
    set_nonblocking-Keeps sock t h =
        let a = net.env t (getfl sock) in
        let t1 : Trace Call = (getfl sock, a) ∷ t in
        if_both (λ r. Balanced sockets d k r.1) (is_neg a.ret) _ _ t1 h h

  use_connection-Balanced :
      (sock : ℤ) (c : Connection) (t : Trace Call)
      → Balanced sockets d (one d sock) t
      → TaskBalanced sockets d (use_connection net sock c t)
  unfolding use_connection
  use_connection-Balanced sock failed t h = h
  use_connection-Balanced sock signalled t h = omega arith
  use_connection-Balanced sock made t h =
      let t1 : Trace Call = (set_linger sock, net.env t (set_linger sock)) ∷ t in
      let t2 : Trace Call = (pause, net.env t1 pause) ∷ t1 in
      let a = net.env t2 (send sock first_bytes) in
      let t3 : Trace Call = (send sock first_bytes, a) ∷ t2 in
      if_both (TaskBalanced sockets d) (is_neg a.ret) _ _ t3 h (omega arith)

  if_nonblocking-Balanced :
      (sock : ℤ) (b : Bool) (t : Trace Call)
      → Balanced sockets d (one d sock) t
      → TaskBalanced sockets d (if_nonblocking net sock b t)
  if_nonblocking-Balanced sock false t h = h
  if_nonblocking-Balanced sock true t h =
      use_connection-Balanced sock (try_connect net sock t).0 (try_connect net sock t).1
        (try_connect-Keeps (one d sock) sock t h)

  connect_once-Balanced :
      (t : Trace Call) → Balanced sockets d 0 t → TaskBalanced sockets d (connect_once net t)
  unfolding connect_once
  connect_once-Balanced t h =
      let s = net.env t socket in
      let t1 : Trace Call = (socket, s) ∷ t in
      elim (Bool-cases (is_neg s.ret)) [
        | inl e ↦ rw e (omega (arith, one_neg d s.ret e))
        | inr e ↦ rw e (
            if_nonblocking-Balanced s.ret (set_nonblocking net s.ret t1).0
              (set_nonblocking net s.ret t1).1
              (set_nonblocking-Keeps (one d s.ret) s.ret t1 (omega arith)))
      ]

-- Whatever the system answers, after any number of connections each descriptor has been closed as
-- often as it was opened, but for the one that the loop was left with: behind each of its errors
-- the task ends and its socket stays open.
pub tcp_client_task-LinkBalanced :
    (n : ℕ) (net : Net) (d : ℕ)
    → opens sockets d (tcp_client_task n net []).1
      ≡ closes sockets d (tcp_client_task n net []).1 + holds d (tcp_client_task n net []).0
unfolding tcp_client_task
tcp_client_task-LinkBalanced n net d =
    turns-Balanced sockets d (connect_once net) (connect_once-Balanced net d) n [] refl

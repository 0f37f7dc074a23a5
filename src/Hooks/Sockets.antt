-- ===== src/Hooks/Sockets.antt =====
-- The sockets that the clients of lwip_output_hooks/tcp_client/main open, close and hold.
use esp_network_examples.Prelude.{
  ℕ, zero, suc, ◌+◌, ℤ, pos, negsuc, is_neg, is_zero, Bool, true, false, List, [], ◌∷◌, Option,
  none, some, ◌≡◌, inl, inr, refl, arith, Bool-cases, if◌then◌else◌, replicate, put_text, text_eq,
}
use esp_network_examples.Os.{Env, Io, Trace, if_both, return}
use esp_network_examples.Os.Descriptors.{Balanced, opens, closes, one, one_neg}
use esp_network_examples.Os.Tasks.{holds, TaskBalanced, turns-Balanced}
use esp_network_examples.Hooks.Calls.{
  Call, socket, connect, send, getifaddrs, IfAddr, Net, sockets, message, is_minus_one,
}
use esp_network_examples.Hooks.Interfaces.{
  Interface, found, unavailable, overflow, free_and, if_copied, try_entry, visit, scan,
  get_src_iface, ip6_addr_isglobal,
}
use esp_network_examples.Hooks.Client.{
  exchange, if_going, exchange_loop, hang_up, use_socket, Choice, ready, missing, broken, if_ready,
  connect_once, tcp_client_v4, with_interface, prepare_linux, prepare_chip, Target, linux, chip,
  prepare_v6, tcp_client_v6,
}

-- The call leaves the count of descriptors as it is.
abbrev Keeps : {A : Type 0} → ℕ → ℕ → Io Call A → Type 0
Keeps d k m = (t : Trace Call) → Balanced sockets d k t → Balanced sockets d k (m t).1

module _ (env : Env Call) (d : ℕ) where
  exchange-Keeps : (k : ℕ) (sock : ℤ) → Keeps d k (exchange env sock)
  unfolding exchange
  exchange-Keeps k sock t h =
      if_both (λ r. Balanced sockets d k r.1) (is_neg (env t (send sock message)).ret) _ _
        ((send sock message, env t (send sock message)) ∷ t) h h

  if_going-Keeps :
      (k : ℕ) (next : Io Call Bool) → Keeps d k next → (b : Bool) → Keeps d k (if_going next b)
  if_going-Keeps k next keep true t h = keep t h
  if_going-Keeps k next keep false t h = h

  exchange_loop-Keeps : (k n : ℕ) (sock : ℤ) → Keeps d k (exchange_loop n env sock)
  unfolding exchange_loop
  exchange_loop-Keeps k zero sock t h = h
  exchange_loop-Keeps k (suc n) sock t h =
      if_going-Keeps k (exchange_loop n env sock) (exchange_loop-Keeps k n sock)
        (exchange env sock t).0 (exchange env sock t).1 (exchange-Keeps k sock t h)

  hang_up-Balanced :
      (sock : ℤ) (going : Bool) (t : Trace Call)
      → Balanced sockets d (one d sock) t
      → TaskBalanced sockets d (hang_up env sock going t)
  unfolding hang_up
  hang_up-Balanced sock true t h = h
  hang_up-Balanced (pos n) false t h = omega arith
  hang_up-Balanced (negsuc zero) false t h = h
  hang_up-Balanced (negsuc (suc n)) false t h = omega arith

  use_socket-Balanced :
      (n : ℕ) (sock : ℤ) (t : Trace Call)
      → Balanced sockets d (one d sock) t
      → TaskBalanced sockets d (use_socket n env sock t)
  unfolding use_socket
  use_socket-Balanced n sock t h =
      let t1 : Trace Call = (connect sock, env t (connect sock)) ∷ t in
      if_both (TaskBalanced sockets d) (is_zero (env t (connect sock)).ret) _ _ t1
        (hang_up-Balanced sock (exchange_loop n env sock t1).0 (exchange_loop n env sock t1).1
          (exchange_loop-Keeps (one d sock) n sock t1 h))
        h

  if_ready-Balanced :
      (n : ℕ) (sock : ℤ) (c : Choice) (t : Trace Call)
      → Balanced sockets d (one d sock) t
      → TaskBalanced sockets d (if_ready (use_socket n env) sock c t)
  if_ready-Balanced n sock ready t h = use_socket-Balanced n sock t h
  if_ready-Balanced n sock missing t h = h
  if_ready-Balanced n sock broken t h = h

  connect_once-Balanced :
      (prepare : ℤ → Io Call Choice)
      → ((k : ℕ) (sock : ℤ) → Keeps d k (prepare sock))
      → (n : ℕ) (t : Trace Call) → Balanced sockets d 0 t
      → TaskBalanced sockets d (connect_once prepare n env t)
  connect_once-Balanced prepare keep n t h =
      let s = env t socket in
      let t1 : Trace Call = (socket, s) ∷ t in
      elim (Bool-cases (is_neg s.ret)) [
        | inl e ↦ rw e (omega (arith, one_neg d s.ret e))
        | inr e ↦ rw e (
            if_ready-Balanced n s.ret (prepare s.ret t1).0 (prepare s.ret t1).1
              (keep (one d s.ret) s.ret t1 (omega arith)))
      ]

module _ (net : Net) (d k : ℕ) where
  if_copied-Keeps :
      (next : List ℕ → Io Call Interface)
      → ((buf : List ℕ) → Keeps d k (next buf))
      → (o : Option (List ℕ)) → Keeps d k (if_copied next o)
  if_copied-Keeps next keep none t h = h
  if_copied-Keeps next keep (some buf) t h = keep buf t h

  try_entry-Keeps :
      (wanted : Option (List ℕ)) (next : List ℕ → Io Call Interface)
      → ((buf : List ℕ) → Keeps d k (next buf))
      → (name : List ℕ) (b : ℕ) (buf : List ℕ) → Keeps d k (try_entry net wanted next name b buf)
  unfolding try_entry
  try_entry-Keeps (some w) next keep name b buf t h =
      if_both (λ r. Balanced sockets d k r.1) (text_eq w name) _ _ t
        (if_copied-Keeps (λ buf'. free_and net (found buf')) (λ buf' u g. g) (put_text buf name) t
          h)
        (keep buf t h)
  try_entry-Keeps none next keep name b buf t h =
      if_copied-Keeps (λ buf'. if ip6_addr_isglobal b then free_and net (found buf') else next buf')
        (λ buf' u g.
          if_both (λ r. Balanced sockets d k r.1) (ip6_addr_isglobal b) _ _ u g (keep buf' u g))
        (put_text buf name) t h

  visit-Keeps :
      (wanted : Option (List ℕ)) (next : List ℕ → Io Call Interface)
      → ((buf : List ℕ) → Keeps d k (next buf))
      → (name : List ℕ) (b : Option ℕ) (buf : List ℕ) → Keeps d k (visit net wanted next name b buf)
  visit-Keeps wanted next keep name none buf t h = keep buf t h
  visit-Keeps wanted next keep name (some b) buf t h =
      try_entry-Keeps wanted next keep name b buf t h

  scan-Keeps :
      (wanted : Option (List ℕ)) (es : List IfAddr) (buf : List ℕ)
      → Keeps d k (scan net wanted es buf)
  unfolding scan
  scan-Keeps wanted [] buf t h = h
  scan-Keeps wanted (e ∷ es) buf t h =
      visit-Keeps wanted (scan net wanted es) (scan-Keeps wanted es) e.ifa_name e.first_byte buf t h

  get_src_iface-Keeps :
      (wanted : Option (List ℕ)) (buf : List ℕ) → Keeps d k (get_src_iface net wanted buf)
  unfolding get_src_iface
  get_src_iface-Keeps wanted buf t h =
      let a = net.env t getifaddrs in
      if_both (λ r. Balanced sockets d k r.1) (is_minus_one a.ret) _ _ ((getifaddrs, a) ∷ t) h
        (scan-Keeps wanted (net.ifaddrs a) buf ((getifaddrs, a) ∷ t) h)

  with_interface-Keeps : (sock : ℤ) (i : Interface) → Keeps d k (with_interface net.env sock i)
  unfolding with_interface
  with_interface-Keeps sock unavailable t h = h
  with_interface-Keeps sock overflow t h = h
  with_interface-Keeps sock (found name) t h = h

  prepare_v6-Keeps :
      (target : Target) (wanted : Option (List ℕ)) (sock : ℤ)
      → Keeps d k (prepare_v6 target net wanted sock)
  unfolding prepare_v6 prepare_linux prepare_chip
  prepare_v6-Keeps linux wanted sock t h =
      with_interface-Keeps sock _ _ (get_src_iface-Keeps wanted (replicate 10 0) t h)
  prepare_v6-Keeps chip wanted sock t h = h

-- Whatever the system answers, after any number of connections of the client for IPv6, on Linux or
-- on a chip, each descriptor has been closed as often as it was opened, but for the one in use, and
-- for the one that the loop was left with: where there is no interface, or connect fails, the
-- socket stays open behind the end of the task.
pub tcp_client_v6-Balanced :
    (target : Target) (wanted : Option (List ℕ)) (times n : ℕ) (net : Net) (d : ℕ)
    → opens sockets d (tcp_client_v6 target wanted times n net []).1
      ≡ closes sockets d (tcp_client_v6 target wanted times n net []).1
        + holds d (tcp_client_v6 target wanted times n net []).0
unfolding tcp_client_v6
tcp_client_v6-Balanced target wanted times n net d =
    turns-Balanced sockets d (connect_once (prepare_v6 target net wanted) n net.env)
      (connect_once-Balanced net.env d (prepare_v6 target net wanted)
        (λ k sock. prepare_v6-Keeps net d k target wanted sock) n)
      times [] refl

-- The same of the client for IPv4, which looks for no interface.
pub tcp_client_v4-Balanced :
    (times n : ℕ) (env : Env Call) (d : ℕ)
    → opens sockets d (tcp_client_v4 times n env []).1
      ≡ closes sockets d (tcp_client_v4 times n env []).1 + holds d (tcp_client_v4 times n env []).0
unfolding tcp_client_v4
tcp_client_v4-Balanced times n env d =
    turns-Balanced sockets d (connect_once (λ sock. return ready) n env)
      (connect_once-Balanced env d (λ sock. return ready) (λ k sock t h. h) n) times [] refl

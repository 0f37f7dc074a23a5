-- ===== src/Mdns/Laws.antt =====
-- The sockets and the packets of avahi-test/main/avahi-port/socket.c are released on every error.
use esp_network_examples.Prelude.{
  ℕ, zero, suc, ◌+◌, ℤ, pos, negsuc, is_neg, Bool, false, [], ◌∷◌, ◌≡◌, ◌⊎◌, inl, inr, refl, arith,
  Bool-cases, if◌then◌else◌, ◌==◌,
}
use esp_network_examples.Os.{Answer, Env, Io, Trace, return}
use esp_network_examples.Mdns.Calls.{
  Call, socket, set_ttl, set_loop, set_reuse, bind, close, fionread, packet_new, packet_free,
  Sockaddr, htons, mdns_port, Net,
}
use esp_network_examples.Mdns.{
  fail_open, if_done, bind_local, reuse_address, loop_back, limit_hops, open_socket_ipv4, Reception,
  received, after_recvfrom, receive_into, receive_waiting, recv_dns_packet_ipv4,
}

abbrev one : ℕ → ℤ → ℕ
one d (pos n) = if d == n then 1 else 0
one d (negsuc n) = 0

abbrev pub opens : ℕ → Trace Call → ℕ
opens d [] = 0
opens d ((socket, a) ∷ t) = one d a.ret + opens d t
opens d (_ ∷ t) = opens d t

abbrev pub closes : ℕ → Trace Call → ℕ
closes d [] = 0
closes d ((close fd, a) ∷ t) = one d fd + closes d t
closes d (_ ∷ t) = closes d t

-- The result is a descriptor that is held, or -1.
abbrev pub Opened : ℕ → ℤ × Trace Call → Type 0
Opened d (fd, t) = (opens d t ≡ closes d t + one d fd) × ((is_neg fd ≡ false) ⊎ (fd ≡ negsuc 0))

fail_open-Opened :
    (env : Env Call) (d : ℕ) (fd : ℤ) (t : Trace Call)
    → opens d t ≡ closes d t + one d fd
    → Opened d (fail_open env fd t)
unfolding fail_open
fail_open-Opened env d (pos n) t h = (omega arith, inr refl)
fail_open-Opened env d (negsuc n) t h = (h, inr refl)

if_done-Opened :
    (env : Env Call) (d : ℕ) (fd : ℤ) (a : Answer) (next : Io Call ℤ) (t : Trace Call)
    → opens d t ≡ closes d t + one d fd
    → (is_neg a.ret ≡ false → Opened d (next t))
    → Opened d (if_done env fd a next t)
if_done-Opened env d fd a next t h k = elim (Bool-cases (is_neg a.ret)) [
  | inl failed ↦ rw failed (fail_open-Opened env d fd t h)
  | inr fine ↦ rw fine (k fine)
]

-- Whatever the system answers: the result is a descriptor, which was opened once more than it was
-- closed, or -1, where each descriptor was closed as often as it was opened.
pub open_socket_ipv4-Opened :
    (env : Env Call) (no_reuse : Bool) (d : ℕ) → Opened d (open_socket_ipv4 env no_reuse [])
unfolding open_socket_ipv4 limit_hops loop_back reuse_address bind_local
open_socket_ipv4-Opened env no_reuse d =
    let s = env [] socket in
    let fd = s.ret in
    let t1 : Trace Call = (socket, s) ∷ [] in
    let t2 : Trace Call = (set_ttl fd 255, env t1 (set_ttl fd 255)) ∷ t1 in
    let t3 : Trace Call = (set_loop fd, env t2 (set_loop fd)) ∷ t2 in
    let t4 : Trace Call = (set_reuse fd, env t3 (set_reuse fd)) ∷ t3 in
    let local : Sockaddr = record { port = htons mdns_port; address = 0 } in
    let t5 : Trace Call = (bind fd local, env t4 (bind fd local)) ∷ t4 in
    if_done-Opened env d fd s (limit_hops env fd) t1 (omega arith) (λ valid.
      if_done-Opened env d fd (env t1 (set_ttl fd 255)) (loop_back env fd) t2 (omega arith) (λ _.
        if_done-Opened env d fd (env t2 (set_loop fd)) (reuse_address env fd) t3 (omega arith) (λ _.
          if_done-Opened env d fd (env t3 (set_reuse fd)) (bind_local env fd) t4 (omega arith) (λ _.
            if_done-Opened env d fd (env t4 (bind fd local)) (return fd) t5 (omega arith)
              (λ _. (omega arith, inl valid))))))

abbrev pub allocations : ℕ → Trace Call → ℕ
allocations d [] = 0
allocations d ((packet_new n, a) ∷ t) = one d a.ret + allocations d t
allocations d (_ ∷ t) = allocations d t

abbrev pub releases : ℕ → Trace Call → ℕ
releases d [] = 0
releases d ((packet_free p, a) ∷ t) = one d (pos p) + releases d t
releases d (_ ∷ t) = releases d t

-- A packet is handed on exactly if it is not released.
abbrev pub Handed : ℕ → Reception × Trace Call → Type 0
Handed (suc d) (received r, t) =
    allocations (suc d) t ≡ releases (suc d) t + one (suc d) (pos r.packet)
Handed (suc d) (_, t) = allocations (suc d) t ≡ releases (suc d) t
Handed zero _ = Unit

after_recvfrom-Handed :
    (env : Env Call) (d p : ℕ) (source : Sockaddr) (n : ℤ) (t : Trace Call)
    → allocations (suc d) t ≡ releases (suc d) t + one (suc d) (pos p)
    → Handed (suc d) (after_recvfrom env p source n t)
unfolding after_recvfrom
after_recvfrom-Handed env d p source (pos n) t h = h
after_recvfrom-Handed env d p source (negsuc n) t h = omega arith

receive_into-Handed :
    (net : Net) (d : ℕ) (fd : ℤ) (max : ℕ) (a : ℤ) (t : Trace Call)
    → allocations (suc d) t ≡ releases (suc d) t + one (suc d) a
    → Handed (suc d) (receive_into net fd max a t)
unfolding receive_into
receive_into-Handed net d fd max (pos (suc p)) t h =
    after_recvfrom-Handed net.env d (suc p) _ _ _ (omega arith)
receive_into-Handed net d fd max (pos zero) t h = grind arith
receive_into-Handed net d fd max (negsuc n) t h = omega arith

receive_waiting-Handed :
    (net : Net) (d extra : ℕ) (fd ms : ℤ) (t : Trace Call)
    → allocations (suc d) t ≡ releases (suc d) t
    → Handed (suc d) (receive_waiting net extra fd ms t)
unfolding receive_waiting
receive_waiting-Handed net d extra fd (negsuc n) t h = h
receive_waiting-Handed net d extra fd (pos ms) t h =
    receive_into-Handed net d fd (ms + extra) _ _ (omega arith)

-- Whatever the system answers: a packet that was allocated is handed on, or has been released; it
-- is not both.
pub recv_dns_packet_ipv4-Handed :
    (net : Net) (extra : ℕ) (fd : ℤ) (d : ℕ) → Handed (suc d) (recv_dns_packet_ipv4 net extra fd [])
unfolding recv_dns_packet_ipv4
recv_dns_packet_ipv4-Handed net extra fd d =
    let a = net.env [] (fionread fd) in
    elim (Bool-cases (is_neg a.ret)) [
      | inl failed ↦ rw failed refl
      | inr fine ↦ rw fine (receive_waiting-Handed net d extra fd (net.waiting a) _ refl)
    ]

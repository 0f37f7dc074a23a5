-- ===== src/Mdns.antt =====
-- avahi-test/main/avahi-port/socket.c: the sockets that avahi uses on the ESP32, over IPv4. The
-- system and avahi's packets are parameters: they answer each call.
pub mod Calls
pub mod Laws
pub mod Monitor
mod Tests
use esp_network_examples.Prelude.{
  ℕ, zero, suc, ◌+◌, ◌/◌, ◌%◌, ◌*◌, ℤ, pos, negsuc, is_neg, Bool, true, false, List, [], ◌∷◌,
  Option, none, some, leb, ltb, if◌then◌else◌, ◌&&◌,
}
use esp_network_examples.Os.{Answer, Env, Io, ask, return, ◌>>=◌}
use esp_network_examples.Mdns.Calls.{
  Call, socket, set_ttl, set_loop, set_reuse, bind, close, join_group, leave_group, sendto,
  fionread, packet_new, packet_free, recvfrom, Sockaddr, htons, ntohs, mdns_port, mcast_group, Net,
}

-- The first argument is the group and its interface's address.
unfoldable pub mcast_join_ipv4 : Env Call → ℤ → ℕ → Bool → Io Call ℤ
mcast_join_ipv4 env fd interface join = do
  a ←
      ask env
        (if join then join_group fd mcast_group interface else leave_group fd mcast_group interface)
  return (if is_neg a.ret then negsuc 0 else pos 0)

-- Behind the label `fail` of `avahi_open_socket_ipv4`.
unfoldable pub fail_open : Env Call → ℤ → Io Call ℤ
fail_open env fd =
    if is_neg fd then return (negsuc 0) else (do _ ← ask env (close fd); return (negsuc 0))

-- Goes on if a call did not fail.
abbrev pub if_done : Env Call → ℤ → Answer → Io Call ℤ → Io Call ℤ
if_done env fd a next = if is_neg a.ret then fail_open env fd else next

unfoldable pub bind_local : Env Call → ℤ → Io Call ℤ
bind_local env fd = ask env (bind fd (record { port = htons mdns_port; address = 0 })) >>= λ a.
    if_done env fd a (return fd)

unfoldable pub reuse_address : Env Call → ℤ → Io Call ℤ
reuse_address env fd = ask env (set_reuse fd) >>= λ a. if_done env fd a (bind_local env fd)

unfoldable pub loop_back : Env Call → ℤ → Io Call ℤ
loop_back env fd = ask env (set_loop fd) >>= λ a. if_done env fd a (reuse_address env fd)

unfoldable pub limit_hops : Env Call → ℤ → Io Call ℤ
limit_hops env fd = ask env (set_ttl fd 255) >>= λ a. if_done env fd a (loop_back env fd)

-- The flag `no_reuse` has no effect.
unfoldable pub open_socket_ipv4 : Env Call → Bool → Io Call ℤ
open_socket_ipv4 env no_reuse = ask env socket >>= λ s. if_done env s.ret s (limit_hops env s.ret)

abbrev pub destination : Option ℕ → ℕ → Sockaddr
destination none dst_port = record { port = htons mdns_port; address = mcast_group }
destination (some a) dst_port = record { port = htons dst_port; address = a }

-- `!dst_address || dst_port > 0`
abbrev pub has_port : Option ℕ → ℕ → Bool
has_port none dst_port = true
has_port (some a) dst_port = ltb 0 dst_port

-- The packet is its first `p->size` bytes; `valid` is what avahi says of it; `none` when an
-- assertion fails.
unfoldable pub send_dns_packet_ipv4 :
    Env Call → ℤ → List ℕ → Bool → Option ℕ → ℕ → Io Call (Option ℤ)
send_dns_packet_ipv4 env fd p valid dst_address dst_port =
    if is_neg fd
    then return none
    else if valid && has_port dst_address dst_port
    then (do
      a ← ask env (sendto fd p (destination dst_address dst_port))
      return (some (if is_neg a.ret then negsuc 0 else pos 0)))
    else return none

-- A packet that was received: which it is, its size, and what is told of where it came from.
pub record Received : Type 0 where
  pub packet : ℕ
  pub size : ℕ
  pub src_port : ℕ
  pub src_address : ℕ
  pub ttl : ℕ
  pub iface : ℕ

-- What `avahi_recv_dns_packet_ipv4` comes to: a packet, NULL, or a packet that could not be had
-- and is used all the same.
pub data Reception : Type 0 where
  received : Received → Reception
  nothing : Reception
  null_used : Reception

-- Behind `recvfrom`, which wrote `source`.
unfoldable pub after_recvfrom : Env Call → ℕ → Sockaddr → ℤ → Io Call Reception
after_recvfrom env p source (negsuc n) = do _ ← ask env (packet_free p); return nothing
after_recvfrom env p source (pos n) = return (
    received (record {
      packet = p;
      size = n;
      src_port = ntohs source.port;
      src_address = source.address;
      ttl = 255;
      iface = 1;
    }))

-- Behind `avahi_dns_packet_new`.
unfoldable pub receive_into : Net → ℤ → ℕ → ℤ → Io Call Reception
receive_into net fd max (pos (suc p)) t =
    after_recvfrom net.env (suc p) (net.source t) (net.env t (recvfrom fd (suc p) max)).ret
      ((recvfrom fd (suc p) max, net.env t (recvfrom fd (suc p) max)) ∷ t)
receive_into net fd max _ t = (null_used, t)

-- Behind `ioctl`, which wrote the number of bytes that wait; the packet has `extra` more.
unfoldable pub receive_waiting : Net → ℕ → ℤ → ℤ → Io Call Reception
receive_waiting net extra fd (negsuc n) = return nothing
receive_waiting net extra fd (pos ms) =
    ask net.env (packet_new (ms + extra)) >>= λ a. receive_into net fd (ms + extra) a.ret

unfoldable pub recv_dns_packet_ipv4 : Net → ℕ → ℤ → Io Call Reception
recv_dns_packet_ipv4 net extra fd = ask net.env (fionread fd) >>= λ a.
    if is_neg a.ret then return nothing else receive_waiting net extra fd (net.waiting a)

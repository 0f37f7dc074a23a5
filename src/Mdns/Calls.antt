-- ===== src/Mdns/Calls.antt =====
-- The calls of avahi-test/main/avahi-port/socket.c, and addresses in the order of the network.
use esp_network_examples.Prelude.{ℕ, ◌+◌, ◌/◌, ◌%◌, ◌*◌, ℤ, List}
use esp_network_examples.Os.{Answer, Env, Trace}

-- `struct sockaddr_in`: the port's two bytes, and the address as the system keeps it.
pub record Sockaddr : Type 0 where
  pub port : ℕ × ℕ
  pub address : ℕ

pub data Call : Type 0 where
  socket : Call
  set_ttl : ℤ → ℕ → Call
  set_loop set_reuse close fionread : ℤ → Call
  bind : ℤ → Sockaddr → Call
  join_group leave_group : ℤ → ℕ → ℕ → Call
  sendto : ℤ → List ℕ → Sockaddr → Call
  packet_new packet_free : ℕ → Call
  recvfrom : ℤ → ℕ → ℕ → Call

-- A port of 16 bits, the high byte first.
abbrev pub htons : ℕ → ℕ × ℕ
htons p = (p / 256, p % 256)

abbrev pub ntohs : ℕ × ℕ → ℕ
ntohs (h, l) = h * 256 + l

-- `AVAHI_MDNS_PORT`
abbrev pub mdns_port : ℕ
mdns_port = 5353

-- `AVAHI_IPV4_MCAST_GROUP`, 224.0.0.251
abbrev pub mcast_group : ℕ
mcast_group = 3758096635

-- The system: its answers, the number that `ioctl` wrote, by its answer, and the address that the
-- next `recvfrom` writes.
pub record Net : Type 0 where
  pub env : Env Call
  pub waiting : Answer → ℤ
  pub source : Trace Call → Sockaddr

-- ===== src/Hooks/Tests.antt =====
-- The theorems on the filters and the clients, applied to runs.
use esp_network_examples.Prelude.{
  ℕ, ◌<◌, ◌≢◌, pos, true, false, List, [], ◌∷◌, none, some, ◌≡◌, refl, arith, codes, replicate,
}
use esp_network_examples.Os.{Answer, Env, other}
use esp_network_examples.Hooks.Output.{
  Packet, err_rte, Datagram, v4, v6, Config, hooked, plain, send_all, send_all-hooked,
}
use esp_network_examples.Hooks.Output
use esp_network_examples.Hooks.Calls.{Call, socket, find_if, IfAddr, Net, getifaddrs}
use esp_network_examples.Hooks.Interfaces.{get_src_iface, Chooses, get_src_iface-Chooses}

abbrev answer : ℕ → Answer
answer n = record { ret = pos n; errno = other; bytes = [] }

-- A packet of this protocol.
abbrev packet : ℕ → Packet
packet proto = record { p = 1; src = 2; dest = 3; ttl = 64; tos = 0; proto = proto; netif = 1 }

abbrev sending : Env Output.Call
sending t c = answer 0

abbrev drop_v4 : Config
drop_v4 = record { drop_tcp4 = true; drop_tcp6 = false }

send_all-hooked_example :
    send_all (hooked drop_v4 sending) (v4 (packet 6) ∷ v4 (packet 17) ∷ v6 (packet 6) ∷ []) [] ≡ (
      err_rte ∷ pos 0 ∷ pos 0 ∷ [],
      (send_all (plain sending) (v4 (packet 17) ∷ v6 (packet 6) ∷ []) []).1,
    )
unfolding send_all
send_all-hooked_example =
    send_all-hooked drop_v4 sending (v4 (packet 6) ∷ v4 (packet 17) ∷ v6 (packet 6) ∷ []) []

-- No interface is found.
abbrev isolated : Env Call
isolated t socket = answer 3
isolated t find_if = answer 0
isolated t _ = answer 1

-- A loopback interface and one with a global address.
abbrev entries : List IfAddr
entries =
    record { ifa_name = codes "lo"; first_byte = some 0 }
    ∷ record { ifa_name = codes "eth0"; first_byte = some 32 }
    ∷ []

abbrev net : Net
net = record { env = isolated; ifaddrs = λ a. entries }

ne_zero : (a : ℕ) → 0 < a → a ≢ 0
ne_zero a h e = absurd (omega arith)

get_src_iface-Chooses_example :
    Chooses net
      (some (codes "eth0"))
      ((getifaddrs, answer 1) ∷ [])
      (get_src_iface net none (replicate 10 0) [])
get_src_iface-Chooses_example = get_src_iface-Chooses net (replicate 10 0) [] refl (
  (ne_zero 108 (omega arith), (ne_zero 111 (omega arith), tt)),
  omega arith,
  (
    (
      ne_zero 101 (omega arith),
      (ne_zero 116 (omega arith), (ne_zero 104 (omega arith), (ne_zero 48 (omega arith), tt))),
    ),
    omega arith,
    tt,
  ),
)

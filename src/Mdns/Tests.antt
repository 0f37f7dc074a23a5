-- ===== src/Mdns/Tests.antt =====
-- The theorems on the sockets of avahi, applied to runs.
use esp_network_examples.Prelude.{ℕ, pos, negsuc, false, []}
use esp_network_examples.Os.{Answer, Env, other}
use esp_network_examples.Mdns.Calls.{Call, socket, bind, packet_new, Net, htons}
use esp_network_examples.Mdns.{open_socket_ipv4, recv_dns_packet_ipv4}
use esp_network_examples.Mdns.Monitor.{MonitorCall, new_address, Monitor}
use esp_network_examples.Mdns.Laws.{
  Opened, open_socket_ipv4-Opened, Handed, recv_dns_packet_ipv4-Handed,
}

abbrev answer : ℕ → Answer
answer n = record { ret = pos n; errno = other; bytes = [] }

-- The port is taken.
abbrev busy : Env Call
busy t socket = answer 3
busy t (bind fd local) = record { ret = negsuc 0; errno = other; bytes = [] }
busy t (packet_new n) = answer 7
busy t _ = answer 0

open_socket_ipv4-Opened_example : Opened 3 (open_socket_ipv4 busy false [])
open_socket_ipv4-Opened_example = open_socket_ipv4-Opened busy false 3

abbrev net : Net
net = record {
  env = busy;
  waiting = λ a. pos 40;
  source = λ t. record { port = htons 5353; address = 1 };
}

recv_dns_packet_ipv4-Handed_example : Handed 7 (recv_dns_packet_ipv4 net 128 (pos 3) [])
recv_dns_packet_ipv4-Handed_example = recv_dns_packet_ipv4-Handed net 128 (pos 3) 6

-- The address cannot be had.
abbrev unlucky : Env MonitorCall
unlucky t (new_address i) = answer 0
unlucky t _ = answer 1

abbrev fresh : Monitor
fresh = record {
  name = pos 0;
  flags_ok = false;
  mtu = 0;
  global_scope = false;
  list_complete = false;
}

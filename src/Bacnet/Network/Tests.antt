-- ===== src/Bacnet/Network/Tests.antt =====
-- The theorems on the network of the BACnet server, applied to runs.
use esp_network_examples.Prelude.{
  pos, negsuc, false, List, [], ◌∷◌, ◌≡◌, refl, arith, ◌==◌, if◌then◌else◌,
}
use esp_network_examples.Prelude.Masks.{digit}
use esp_network_examples.Os.{Env, other}
use esp_network_examples.Bacnet.Network.{
  NetCall, open_socket, get_ip_info, broadcast_addr, WifiEvent, sta_start, sta_disconnected,
  sta_got_ip, EthEvent, wifi_event_handler, eth_event_handler, handle_events, on_got_ip,
  unless_connected, start_bacnet, bip_init, bip_cleanup,
}
use esp_network_examples.Bacnet.Network.Following.{
  Follows, wifi_change, eth_change, up_after, starts_in, unconnected, events-Follow, sockets_asked,
}
use esp_network_examples.Bacnet.Network.Broadcast.{broadcast_addr-digit}

-- 192.168.3.7 with the mask 255.255.255.0; sockets are number 54.
abbrev at_home : Env NetCall
at_home t get_ip_info = record {
  ret = pos 0;
  errno = other;
  bytes = 192 ∷ 168 ∷ 3 ∷ 7 ∷ 255 ∷ 255 ∷ 255 ∷ 0 ∷ [];
}
at_home t open_socket = record { ret = pos 54; errno = other; bytes = [] }
at_home t _ = record { ret = pos 0; errno = other; bytes = [] }

-- The link comes up after a failed attempt, gets another address, is lost and comes up again.
abbrev events : List WifiEvent
events = sta_start ∷ sta_disconnected ∷ sta_got_ip ∷ sta_got_ip ∷ sta_disconnected ∷ sta_got_ip ∷ []

two_sockets :
    sockets_asked (handle_events (wifi_event_handler at_home) events (unconnected (negsuc 0)) []).1
    ≡ 2
unfolding handle_events wifi_event_handler on_got_ip unless_connected start_bacnet bip_init
    bip_cleanup
two_sockets = refl

events-Follow_example :
    ((es : List WifiEvent)
      → Follows 54
          (up_after wifi_change false es)
          (starts_in wifi_change false es)
          (handle_events (wifi_event_handler at_home) es (unconnected (negsuc 0)) []))
    × ((es : List EthEvent)
        → Follows 54
            (up_after eth_change false es)
            (starts_in eth_change false es)
            (handle_events (eth_event_handler at_home) es (unconnected (negsuc 0)) []))
events-Follow_example = events-Follow 54 at_home (negsuc 0) refl

-- 192.168.3.7 as the processor has it, and its broadcast address 192.168.3.255.
broadcast_at_home : broadcast_addr 0x0703A8C0 0x00FFFFFF ≡ 0xFF03A8C0
unfolding broadcast_addr
broadcast_at_home = refl

broadcast_addr-digit_example :
    digit 26 (broadcast_addr 0x0703A8C0 0x00FFFFFF)
    ≡ (if digit 26 0x00FFFFFF == 1 then digit 26 0x0703A8C0 else 1)
broadcast_addr-digit_example =
    broadcast_addr-digit 0x0703A8C0 0x00FFFFFF 26 (omega arith) (omega arith)

-- ===== src/Bacnet/Network.antt =====
-- backnet-sever/main: the handlers of the network's events in wifi_init.c and eth_init.c, the socket of
-- bip_init.c that they open and close, and StartBACnet of main.c. The system and the BACnet stack
-- answer each call; the stack keeps the socket that bip_set_socket gave it.
pub mod Following
pub mod Broadcast
mod Tests
use Prim.Native.Nat.{bit_and, bit_or}
use esp_network_examples.Prelude.{
  ℕ, zero, suc, ◌+◌, ◌-◌, ◌*◌, ℤ, pos, negsuc, Bool, true, false, List, [], ◌∷◌, Option, none, some,
  drop,
}
use esp_network_examples.Os.{Env, Io, ask, return, ◌>>=◌, ◌>>◌}
use esp_network_examples.Os.Descriptors.{Opening}

-- The services that the stack is given a handler for.
pub data Service : Type 0 where
  who_is unrecognized read_property read_prop_multiple write_property subscribe_cov : Service

-- `set_broadcast_option` and `set_reuse_option` are the two calls of `setsockopt`.
pub data NetCall : Type 0 where
  esp_wifi_connect get_mac_addr get_ip_info open_socket address_init send_i_am : NetCall
  set_handler : Service → NetCall
  close_socket set_broadcast_option set_reuse_option bip_set_socket : ℤ → NetCall
  bind_any : ℤ → ℕ → NetCall
  bip_set_port bip_set_addr bip_set_broadcast_addr : ℕ → NetCall

abbrev pub bip_sockets : Opening NetCall
bip_sockets = record {
  is_open = λ c. elim c [ open_socket ↦ true | _ ↦ false ];
  closing = λ c. elim c [ close_socket fd ↦ some fd | _ ↦ none ];
}

-- CONNECTED_BIT of the event group, and the socket that the stack keeps.
pub record Network : Type 0 where
  pub connected_bit : Bool
  pub bip_socket : ℤ

-- A `uint32_t` in the memory of the processor, which a call that failed left zero.
abbrev pub word : List ℕ → ℕ
word (a ∷ b ∷ c ∷ d ∷ rest) = a + 256 * (b + 256 * (c + 256 * d))
word _ = 0

-- `~`
abbrev pub invert : ℕ → ℕ
invert mask = 4294967295 - mask

unfoldable pub broadcast_addr : ℕ → ℕ → ℕ
broadcast_addr ip mask = bit_or (bit_and ip mask) (invert mask)

unfoldable pub bip_cleanup : Env NetCall → Network → Io NetCall Network
bip_cleanup env s = do
  _ ← ask env (close_socket s.bip_socket)
  _ ← ask env (bip_set_socket (negsuc 0))
  return (record s { bip_socket = negsuc 0 })

-- `bip_init`; the address and the mask are the first two words of what `esp_netif_get_ip_info` wrote.
unfoldable pub bip_init : Env NetCall → Network → Io NetCall Network
bip_init env s = do
  info ← ask env get_ip_info
  _ ← ask env (bip_set_port 0xBAC0)
  _ ← ask env (bip_set_addr (word info.bytes))
  _ ← ask env (bip_set_broadcast_addr (broadcast_addr (word info.bytes) (word (drop 4 info.bytes))))
  sock ← ask env open_socket
  _ ← ask env (bind_any sock.ret 0xBAC0)
  _ ← ask env (set_broadcast_option sock.ret)
  _ ← ask env (set_reuse_option sock.ret)
  _ ← ask env (bip_set_socket sock.ret)
  return (record s { bip_socket = sock.ret })

unfoldable pub start_bacnet : Env NetCall → Network → Io NetCall Network
start_bacnet env s = do
  _ ← ask env (set_handler who_is)
  _ ← ask env (set_handler unrecognized)
  _ ← ask env (set_handler read_property)
  _ ← ask env (set_handler read_prop_multiple)
  _ ← ask env (set_handler write_property)
  _ ← ask env (set_handler subscribe_cov)
  _ ← ask env address_init
  s' ← bip_init env s
  _ ← ask env send_i_am
  return s'

-- The test of CONNECTED_BIT.
unfoldable pub unless_connected : Bool → Env NetCall → Network → Io NetCall Network
unless_connected true env s = return s
unless_connected false env s = start_bacnet env (record s { connected_bit = true })

-- Both programs: an address was got.
unfoldable pub on_got_ip : Env NetCall → Network → Io NetCall Network
on_got_ip env s = unless_connected s.connected_bit env s

-- The events of Wi-Fi that `event_handler` of wifi_init.c is registered for.
pub data WifiEvent : Type 0 where
  sta_start sta_disconnected sta_got_ip other_wifi : WifiEvent

unfoldable pub wifi_event_handler : Env NetCall → WifiEvent → Network → Io NetCall Network
wifi_event_handler env sta_start s = ask env esp_wifi_connect >> return s
wifi_event_handler env sta_disconnected s = do
  _ ← ask env esp_wifi_connect
  bip_cleanup env (record s { connected_bit = false })
wifi_event_handler env sta_got_ip s = on_got_ip env s
wifi_event_handler env other_wifi s = return s

-- The events of `eth_event_handler` and `got_ip_event_handler` of eth_init.c.
pub data EthEvent : Type 0 where
  eth_connected eth_disconnected eth_start eth_stop eth_got_ip other_eth : EthEvent

unfoldable pub eth_event_handler : Env NetCall → EthEvent → Network → Io NetCall Network
eth_event_handler env eth_connected s = ask env get_mac_addr >> return s
eth_event_handler env eth_disconnected s = bip_cleanup env (record s { connected_bit = false })
eth_event_handler env eth_start s = return s
eth_event_handler env eth_stop s = return s
eth_event_handler env eth_got_ip s = on_got_ip env s
eth_event_handler env other_eth s = return s

-- Events one after the other, as the event loop of the system hands them over.
unfoldable pub handle_events :
    {E : Type 0} → (E → Network → Io NetCall Network) → List E → Network → Io NetCall Network
handle_events handler [] s = return s
handle_events handler (e ∷ es) s = handler e s >>= handle_events handler es

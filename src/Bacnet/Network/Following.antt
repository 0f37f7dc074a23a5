-- ===== src/Bacnet/Network/Following.antt =====
-- The socket of backnet-sever/main, as wifi_init.c and eth_init.c open and close it.
use esp_network_examples.Prelude.{
  ℕ, suc, ◌+◌, ℤ, is_neg, Bool, true, false, List, [], ◌∷◌, ◌≡◌, refl, sym, subst, ◌∙◌, arith,
}
use esp_network_examples.Os.{Env, Io, Trace}
use esp_network_examples.Os.Descriptors.{Balanced, one, one_neg}
use esp_network_examples.Bacnet.Network.{
  NetCall, bip_sockets, open_socket, esp_wifi_connect, Network, unless_connected, bip_cleanup,
  bip_init, start_bacnet, on_got_ip, WifiEvent, sta_start, sta_disconnected, sta_got_ip, other_wifi,
  wifi_event_handler, EthEvent, eth_connected, eth_disconnected, eth_start, eth_stop, eth_got_ip,
  other_eth, eth_event_handler, handle_events,
}

-- What an event means to the network: an address was got, the link was lost, or neither.
pub data Change : Type 0 where
  got lost same : Change

abbrev pub wifi_change : WifiEvent → Change
wifi_change sta_got_ip = got
wifi_change sta_disconnected = lost
wifi_change _ = same

abbrev pub eth_change : EthEvent → Change
eth_change eth_got_ip = got
eth_change eth_disconnected = lost
eth_change _ = same

-- A link that is up, or down; and how often it came up.
abbrev pub is_up : Bool → Change → Bool
is_up up got = true
is_up up lost = false
is_up up same = up

abbrev pub up_after : {E : Type 0} → (E → Change) → Bool → List E → Bool
up_after change up [] = up
up_after change up (e ∷ es) = up_after change (is_up up (change e)) es

abbrev pub came_up : Bool → Change → ℕ
came_up false got = 1
came_up _ _ = 0

abbrev pub starts_in : {E : Type 0} → (E → Change) → Bool → List E → ℕ
starts_in change up [] = 0
starts_in change up (e ∷ es) = came_up up (change e) + starts_in change (is_up up (change e)) es

-- How often a socket was asked for.
abbrev pub sockets_asked : Trace NetCall → ℕ
sockets_asked [] = 0
sockets_asked ((open_socket, a) ∷ t) = suc (sockets_asked t)
sockets_asked (_ ∷ t) = sockets_asked t

-- The stack has a socket only while the bit is set.
abbrev pub IdleWhenDown : Bool → ℤ → Type 0
IdleWhenDown true sock = Unit {0}
IdleWhenDown false sock = is_neg sock ≡ true

module _ (d : ℕ) where
  -- A link's state and its number of starts are those of the program, and each descriptor was opened as
  -- often as it was closed, but for the one that the stack has.
  abbrev pub Follows : Bool → ℕ → Network × Trace NetCall → Type 0
  Follows up n (s, t) =
      (s.connected_bit ≡ up)
      × (sockets_asked t ≡ n)
      × IdleWhenDown s.connected_bit s.bip_socket
      × Balanced bip_sockets d (one d s.bip_socket) t

  bip_cleanup-Follows :
      (env : Env NetCall) (n : ℕ) (s : Network) (t : Trace NetCall)
      → sockets_asked t ≡ n
      → Balanced bip_sockets d (one d s.bip_socket) t
      → Follows false n (bip_cleanup env (record s { connected_bit = false }) t)
  unfolding bip_cleanup
  bip_cleanup-Follows env n s t e b = (refl, e, refl, omega arith)

  start_bacnet-Follows :
      (env : Env NetCall) (n : ℕ) (s : Network) (t : Trace NetCall)
      → sockets_asked t ≡ n
      → Balanced bip_sockets d 0 t
      → Follows true (1 + n) (start_bacnet env (record s { connected_bit = true }) t)
  unfolding start_bacnet bip_init
  start_bacnet-Follows env n s t e b = (refl, omega (arith, e), tt, omega arith)

  unless_connected-Follows :
      (env : Env NetCall) (bit : Bool) (n : ℕ) (s : Network) (t : Trace NetCall)
      → s.connected_bit ≡ bit
      → sockets_asked t ≡ n
      → IdleWhenDown bit s.bip_socket
      → Balanced bip_sockets d (one d s.bip_socket) t
      → Follows true (came_up bit got + n) (unless_connected bit env s t)
  unfolding unless_connected
  unless_connected-Follows env true n s t u a i b = (u, omega (arith, a), rw u tt, b)
  unless_connected-Follows env false n s t u a i b =
      let nothing = one_neg d s.bip_socket i in
      start_bacnet-Follows env n s t a (omega (arith, nothing, b))

  on_got_ip-Follows :
      (env : Env NetCall) (up : Bool) (n : ℕ) (s : Network) (t : Trace NetCall)
      → Follows up n (s, t)
      → Follows true (came_up up got + n) (on_got_ip env s t)
  unfolding on_got_ip
  on_got_ip-Follows env up n s t (u, a, i, b) =
      subst (λ bit. Follows true (came_up bit got + n) (unless_connected s.connected_bit env s t)) u
        (unless_connected-Follows env s.connected_bit n s t refl a i b)

  same_starts : (up : Bool) (n : ℕ) → came_up up same + n ≡ n
  same_starts true n = omega arith
  same_starts false n = omega arith

  lost_starts : (up : Bool) (n : ℕ) → came_up up lost + n ≡ n
  lost_starts true n = omega arith
  lost_starts false n = omega arith

  -- A handler follows a link, if each event changes both alike.
  abbrev HandlerFollows : {E : Type 0} → (E → Change) → (E → Network → Io NetCall Network) → Type 0
  HandlerFollows {E} change handler =
      (e : E) (up : Bool) (n : ℕ) (s : Network) (t : Trace NetCall)
      → Follows up n (s, t)
      → Follows (is_up up (change e)) (came_up up (change e) + n) (handler e s t)

  wifi-HandlerFollows : (env : Env NetCall) → HandlerFollows wifi_change (wifi_event_handler env)
  unfolding wifi_event_handler
  wifi-HandlerFollows env sta_start up n s t (u, a, i, b) = (u, a ∙ sym (same_starts up n), i, b)
  wifi-HandlerFollows env sta_disconnected up n s t (u, a, i, b) =
      bip_cleanup-Follows env (came_up up lost + n) s
        ((esp_wifi_connect, env t esp_wifi_connect) ∷ t) (a ∙ sym (lost_starts up n)) b
  wifi-HandlerFollows env sta_got_ip up n s t h = on_got_ip-Follows env up n s t h
  wifi-HandlerFollows env other_wifi up n s t (u, a, i, b) = (u, a ∙ sym (same_starts up n), i, b)

  eth-HandlerFollows : (env : Env NetCall) → HandlerFollows eth_change (eth_event_handler env)
  unfolding eth_event_handler
  eth-HandlerFollows env eth_connected up n s t (u, a, i, b) = (u, a ∙ sym (same_starts up n), i, b)
  eth-HandlerFollows env eth_disconnected up n s t (u, a, i, b) =
      bip_cleanup-Follows env (came_up up lost + n) s t (a ∙ sym (lost_starts up n)) b
  eth-HandlerFollows env eth_start up n s t (u, a, i, b) = (u, a ∙ sym (same_starts up n), i, b)
  eth-HandlerFollows env eth_stop up n s t (u, a, i, b) = (u, a ∙ sym (same_starts up n), i, b)
  eth-HandlerFollows env eth_got_ip up n s t h = on_got_ip-Follows env up n s t h
  eth-HandlerFollows env other_eth up n s t (u, a, i, b) = (u, a ∙ sym (same_starts up n), i, b)

  handle_events-Follows :
      {E : Type 0} (change : E → Change) (handler : E → Network → Io NetCall Network)
      → HandlerFollows change handler
      → (es : List E) (up : Bool) (n : ℕ) (s : Network) (t : Trace NetCall) → Follows up n (s, t)
      → Follows (up_after change up es) (starts_in change up es + n) (handle_events handler es s t)
  unfolding handle_events
  handle_events-Follows change handler keep [] up n s t (u, a, i, b) = (u, a ∙ omega arith, i, b)
  handle_events-Follows change handler keep (e ∷ es) up n s t h =
      let next = handler e s t in
      let go =
        handle_events-Follows change handler keep es (is_up up (change e))
          (came_up up (change e) + n) next.0 next.1 (keep e up n s t h) in
      (go.0, go.1 ∙ omega arith, go.2, go.3)

-- In front of the first event: the stack has no socket.
abbrev pub unconnected : ℤ → Network
unconnected sock = record { connected_bit = false; bip_socket = sock }

-- Whatever the events and the system's answers are, if the stack has no socket at first: over Wi-Fi and
-- over Ethernet the bit is set exactly while the link is up, a socket is asked for exactly when it
-- comes up, the stack has a socket only while it is up, and every descriptor was opened as often as
-- it was closed, but for the one that the stack has.
pub events-Follow :
    (d : ℕ) (env : Env NetCall) (sock : ℤ)
    → is_neg sock ≡ true
    → ((es : List WifiEvent)
        → Follows d
            (up_after wifi_change false es)
            (starts_in wifi_change false es)
            (handle_events (wifi_event_handler env) es (unconnected sock) []))
      × ((es : List EthEvent)
          → Follows d
              (up_after eth_change false es)
              (starts_in eth_change false es)
              (handle_events (eth_event_handler env) es (unconnected sock) []))
events-Follow d env sock idle =
    let start : Follows d false 0 (unconnected sock, []) =
      (refl, refl, idle, omega (arith, one_neg d sock idle)) in
    (
      λ es.
          let h =
            handle_events-Follows d wifi_change (wifi_event_handler env) (wifi-HandlerFollows d env)
              es false 0 (unconnected sock) [] start in
          (h.0, h.1 ∙ omega arith, h.2, h.3),
      λ es.
          let h =
            handle_events-Follows d eth_change (eth_event_handler env) (eth-HandlerFollows d env) es
              false 0 (unconnected sock) [] start in
          (h.0, h.1 ∙ omega arith, h.2, h.3),
    )

-- ===== src/Netifs.antt =====
-- devcon22/demo_2_netifs/wifi_2_netifs/main/softap_example_main.c: an access point whose interface has a
-- DHCP client, beside a station. The event task, which runs the handlers one behind the other, and
-- the main task take turns, and a turn makes one call. The system answers each call.
pub mod Trace
pub mod Invariant
pub mod Running
mod Tests
use esp_network_examples.Prelude.{
  ℕ, zero, suc, ◌+◌, ◌*◌, Bool, true, false, List, [], ◌∷◌, ◌==◌, if◌then◌else◌, is_zero,
}
use esp_network_examples.Os.{Answer, Env, Io, ask, return, ◌>>=◌}

-- The calls on interfaces are on `ap`, but for `set_default_sta`.
pub data NetifCall : Type 0 where
  dhcpc_stop dhcpc_start clear_ip_info action_connected action_disconnected link_down : NetifCall
  get_ap_ip_info set_default_sta delay_5s : NetifCall
  http_init http_perform http_content_length http_status http_close http_cleanup : NetifCall

-- The ids that `wifi_event_handler` tells apart.
pub data ApEvent : Type 0 where
  ap_staconnected ap_stadisconnected sta_connected sta_disconnected other_wifi : ApEvent

-- Those of `on_ip_event`, and whether the interface is `ap`.
pub data IpEvent : Type 0 where
  sta_got_ip sta_lost_ip : Bool → IpEvent
  other_ip : IpEvent

-- Where the main task stands in `app_main`: before its wait, or before the next call.
pub data Point : Type 0 where
  waiting starting asking leaving defaulting making performing : Point
  measuring checking closing cleaning sleeping : Point

-- The bits of `event_group`, the main task, and the calls that the running handler still makes.
pub record Demo : Type 0 where
  pub sta_joined : Bool
  pub got_ip : Bool
  pub point : Point
  pub pending : List NetifCall

unfoldable pub new_demo : Demo
new_demo = record { sta_joined = false; got_ip = false; point = waiting; pending = [] }

-- Both handlers set the bit before their calls.
unfoldable pub ap_event_handler : ApEvent → Demo → Demo
ap_event_handler ap_staconnected s = record s {
  sta_joined = true;
  pending = dhcpc_stop ∷ clear_ip_info ∷ dhcpc_start ∷ action_connected ∷ [];
}
ap_event_handler ap_stadisconnected s = s
ap_event_handler sta_connected s = s
ap_event_handler sta_disconnected s = s
ap_event_handler other_wifi s = s

unfoldable pub on_ip_event : IpEvent → Demo → Demo
on_ip_event (sta_got_ip true) s = record s { got_ip = true; pending = action_connected ∷ [] }
on_ip_event (sta_got_ip false) s = record s { got_ip = true }
on_ip_event (sta_lost_ip true) s = record s { pending = action_disconnected ∷ link_down ∷ [] }
on_ip_event (sta_lost_ip false) s = s
on_ip_event other_ip s = s

-- The next call of the running handler.
unfoldable pub handler_turn : Env NetifCall → List NetifCall → Demo → Io NetifCall Demo
handler_turn env [] s = return s
handler_turn env (c ∷ cs) s = ask env c >>= λ _. return (record s { pending = cs })

-- An event is handled once the handler before it has returned.
abbrev pub if_idle : List NetifCall → Demo → Demo → Demo
if_idle [] handled s = handled
if_idle _ handled s = s

-- `addr == 0`, of the four bytes of the address.
abbrev pub no_address : List ℕ → Bool
no_address (a ∷ b ∷ c ∷ d ∷ rest) = a + 256 * (b + 256 * (c + 256 * d)) == 0
no_address _ = true

-- Makes a call, and goes on at the point that its answer chooses.
abbrev pub call_at : Env NetifCall → NetifCall → (Answer → Point) → Demo → Io NetifCall Demo
call_at env c next s = ask env c >>= λ a. return (record s { point = next a })

-- The next call of the main task. The wait for GOT_IP clears it, and the loop starts behind a delay;
-- its turns begin at `asking`. ESP_OK is 0.
unfoldable pub main_turn : Env NetifCall → Point → Demo → Io NetifCall Demo
main_turn env waiting s =
    return (record s { got_ip = false; point = if s.got_ip then starting else waiting })
main_turn env starting s = call_at env delay_5s (λ a. asking) s
main_turn env asking s =
    call_at env get_ap_ip_info (λ a. if no_address a.bytes then leaving else making) s
main_turn env leaving s = call_at env link_down (λ a. defaulting) s
main_turn env defaulting s = call_at env set_default_sta (λ a. making) s
main_turn env making s = call_at env http_init (λ a. performing) s
main_turn env performing s =
    call_at env http_perform (λ a. if is_zero a.ret then measuring else closing) s
main_turn env measuring s = call_at env http_content_length (λ a. checking) s
main_turn env checking s = call_at env http_status (λ a. closing) s
main_turn env closing s = call_at env http_close (λ a. cleaning) s
main_turn env cleaning s = call_at env http_cleanup (λ a. sleeping) s
main_turn env sleeping s = call_at env delay_5s (λ a. asking) s

pub data DemoTurn : Type 0 where
  wifi_turn : ApEvent → DemoTurn
  ip_turn : IpEvent → DemoTurn
  event_task app_turn : DemoTurn

unfoldable pub demo_turn : Env NetifCall → DemoTurn → Demo → Io NetifCall Demo
demo_turn env (wifi_turn e) s = return (if_idle s.pending (ap_event_handler e s) s)
demo_turn env (ip_turn e) s = return (if_idle s.pending (on_ip_event e s) s)
demo_turn env event_task s = handler_turn env s.pending s
demo_turn env app_turn s = main_turn env s.point s

unfoldable pub run_demo : Env NetifCall → List DemoTurn → Demo → Io NetifCall Demo
run_demo env [] s = return s
run_demo env (turn ∷ turns) s = demo_turn env turn s >>= run_demo env turns

-- ===== src/Netifs/Tests.antt =====
-- The theorem on the demo with two interfaces, applied to a run.
use esp_network_examples.Prelude.{pos, true, false, Bool, List, [], ◌∷◌, ◌≡◌, refl}
use esp_network_examples.Os.{Env, other, Trace}
use esp_network_examples.Netifs.{
  NetifCall, get_ap_ip_info, action_connected, action_disconnected, link_down, http_perform,
  ap_staconnected, sta_got_ip, new_demo, DemoTurn, wifi_turn, ip_turn, event_task, app_turn,
  run_demo, demo_turn, ap_event_handler, on_ip_event, handler_turn, main_turn,
}
use esp_network_examples.Netifs.Trace.{requests}

-- The access point never has an address.
abbrev no_ap : Env NetifCall
no_ap t get_ap_ip_info = record { ret = pos 0; errno = other; bytes = 0 ∷ 0 ∷ 0 ∷ 0 ∷ [] }
no_ap t _ = record { ret = pos 0; errno = other; bytes = [] }

-- The station gets an address, and the main task goes on to its request. A station joins the access
-- point meanwhile, whose handler makes its last call between `netif_set_default` and the request.
abbrev schedule : List DemoTurn
schedule =
    app_turn
    ∷ ip_turn (sta_got_ip false)
    ∷ app_turn
    ∷ wifi_turn ap_staconnected
    ∷ event_task
    ∷ app_turn
    ∷ app_turn
    ∷ event_task
    ∷ app_turn
    ∷ app_turn
    ∷ event_task
    ∷ event_task
    ∷ app_turn
    ∷ app_turn
    ∷ []

one_request : requests (run_demo no_ap schedule new_demo []).1 ≡ 1
unfolding run_demo demo_turn ap_event_handler on_ip_event handler_turn main_turn new_demo
one_request = refl

-- The link of `ap`, as it was set last.
abbrev ap_up : Trace NetifCall → Bool
ap_up [] = false
ap_up ((action_connected, a) ∷ t) = true
ap_up ((action_disconnected, a) ∷ t) = false
ap_up ((link_down, a) ∷ t) = false
ap_up (_ ∷ t) = ap_up t

-- Whether the link of `ap` was up at the latest request.
abbrev up_at_request : Trace NetifCall → Bool
up_at_request [] = false
up_at_request ((http_perform, a) ∷ t) = ap_up t
up_at_request (_ ∷ t) = up_at_request t

-- The request is made with the link of `ap` up again, though it has no address.
up_again : up_at_request (run_demo no_ap schedule new_demo []).1 ≡ true
unfolding run_demo demo_turn ap_event_handler on_ip_event handler_turn main_turn new_demo
up_again = refl

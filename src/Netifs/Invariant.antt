-- ===== src/Netifs/Invariant.antt =====
-- The invariant of
-- devcon22/demo_2_netifs/wifi_2_netifs/main/softap_example_main.c:
-- its HTTP client, and how its requests are routed.
use esp_network_examples.Prelude.{
  Bool, true, false, List, [], ◌∷◌, ◌≡◌, refl, ap, is_zero, All, if◌then◌else◌, ◌∙◌,
}
use esp_network_examples.Os.{Answer, Env, Trace}
use esp_network_examples.Netifs.{
  NetifCall, dhcpc_stop, dhcpc_start, clear_ip_info, action_connected, action_disconnected,
  link_down, get_ap_ip_info, http_init, http_perform, http_content_length, http_status, http_close,
  http_cleanup, ApEvent, ap_staconnected, ap_stadisconnected, sta_connected, sta_disconnected,
  other_wifi, IpEvent, sta_got_ip, sta_lost_ip, other_ip, Point, waiting, starting, asking, leaving,
  defaulting, making, performing, measuring, checking, closing, cleaning, sleeping, Demo,
  ap_event_handler, on_ip_event, handler_turn, if_idle, no_address, main_turn, DemoTurn, wifi_turn,
  ip_turn, event_task, app_turn, demo_turn, run_demo,
}
use esp_network_examples.Netifs.Trace.{
  absent, used, next_client, client_of, client_at, was_downed, sta_default, had_none, WithoutAp,
  IsRouted,
}

-- The calls of the handlers.
abbrev pub IsHandlers : NetifCall → Type 0
IsHandlers dhcpc_stop = Unit {0}
IsHandlers dhcpc_start = Unit {0}
IsHandlers clear_ip_info = Unit {0}
IsHandlers action_connected = Unit {0}
IsHandlers action_disconnected = Unit {0}
IsHandlers link_down = Unit {0}
IsHandlers _ = ⊥

-- What the main task relies on at a point.
abbrev pub Ready : Point → Bool → Bool → Bool → Type 0
Ready defaulting none_had downed default = downed ≡ true
Ready making none_had downed default = WithoutAp none_had downed default
Ready performing none_had downed default = WithoutAp none_had downed default
Ready _ none_had downed default = Unit {0}

abbrev pub IsReady : Point → Trace NetifCall → Type 0
IsReady p t = Ready p (had_none t) (was_downed t) (sta_default t)

-- The invariant of a run.
abbrev pub Holds : Demo × Trace NetifCall → Type 0
Holds (s, t) =
    (client_of t ≡ client_at s.point) × IsRouted t × IsReady s.point t × All IsHandlers s.pending

WithoutAp-downed :
    (none_had downed default : Bool)
    → WithoutAp none_had downed default
    → WithoutAp none_had true default
WithoutAp-downed true downed default h = (refl, h.1)
WithoutAp-downed false downed default h = tt

-- Setting the link down takes nothing back.
Ready-downed :
    (p : Point) (none_had downed default : Bool)
    → Ready p none_had downed default
    → Ready p none_had true default
Ready-downed waiting n d e h = tt
Ready-downed starting n d e h = tt
Ready-downed asking n d e h = tt
Ready-downed leaving n d e h = tt
Ready-downed defaulting n d e h = refl
Ready-downed making n d e h = WithoutAp-downed n d e h
Ready-downed performing n d e h = WithoutAp-downed n d e h
Ready-downed measuring n d e h = tt
Ready-downed checking n d e h = tt
Ready-downed closing n d e h = tt
Ready-downed cleaning n d e h = tt
Ready-downed sleeping n d e h = tt

call-Holds :
    (c : NetifCall) (a : Answer) (s : Demo) (t : Trace NetifCall)
    → IsHandlers c
    → Holds (s, t)
    → Holds (s, (c, a) ∷ t)
call-Holds dhcpc_stop a s t i h = h
call-Holds dhcpc_start a s t i h = h
call-Holds clear_ip_info a s t i h = h
call-Holds action_connected a s t i h = h
call-Holds action_disconnected a s t i h = h
call-Holds link_down a s t i (client, routed, ready, calls) =
    (client, routed, Ready-downed s.point (had_none t) (was_downed t) (sta_default t) ready, calls)
call-Holds _ a s t i h = absurd i

-- Where the main task goes on behind the address of `ap`.
behind_asking :
    (b downed default : Bool)
    → (absent ≡ client_at (if b then leaving else making))
      × Ready (if b then leaving else making) b downed default
behind_asking true downed default = (refl, tt)
behind_asking false downed default = (refl, tt)

behind_performing :
    (b none_had downed default : Bool)
    → (used ≡ client_at (if b then measuring else closing))
      × Ready (if b then measuring else closing) none_had downed default
behind_performing true n d e = (refl, tt)
behind_performing false n d e = (refl, tt)

behind_waiting :
    (b none_had downed default : Bool)
    → (absent ≡ client_at (if b then starting else waiting))
      × Ready (if b then starting else waiting) none_had downed default
behind_waiting true n d e = (refl, tt)
behind_waiting false n d e = (refl, tt)

all_defaulted : (none_had downed : Bool) → downed ≡ true → WithoutAp none_had downed true
all_defaulted true downed h = (h, refl)
all_defaulted false downed h = tt

module _ (env : Env NetifCall) where
  main_turn-Holds :
      (p : Point) (s : Demo) (t : Trace NetifCall)
      → client_of t ≡ client_at p
      → IsRouted t
      → IsReady p t
      → All IsHandlers s.pending
      → Holds (main_turn env p s t)
  unfolding main_turn
  main_turn-Holds waiting s t c r h k =
      let (next, ready) = behind_waiting s.got_ip (had_none t) (was_downed t) (sta_default t) in
      (c ∙ next, r, ready, k)
  main_turn-Holds starting s t c r h k = (c, r, tt, k)
  main_turn-Holds asking s t c r h k =
      let a = env t get_ap_ip_info in
      let (next, ready) = behind_asking (no_address a.bytes) false (sta_default t) in
      (c ∙ next, r, ready, k)
  main_turn-Holds leaving s t c r h k = (c, r, refl, k)
  main_turn-Holds defaulting s t c r h k = (c, r, all_defaulted (had_none t) (was_downed t) h, k)
  main_turn-Holds making s t c r h k = (ap (next_client http_init) c, r, h, k)
  main_turn-Holds performing s t c r h k =
      let a = env t http_perform in
      let (next, ready) =
        behind_performing (is_zero a.ret) (had_none t) (was_downed t) (sta_default t) in
      (ap (next_client http_perform) c ∙ next, (h, r), ready, k)
  main_turn-Holds measuring s t c r h k = (ap (next_client http_content_length) c, r, tt, k)
  main_turn-Holds checking s t c r h k = (ap (next_client http_status) c, r, tt, k)
  main_turn-Holds closing s t c r h k = (ap (next_client http_close) c, r, tt, k)
  main_turn-Holds cleaning s t c r h k = (ap (next_client http_cleanup) c, r, tt, k)
  main_turn-Holds sleeping s t c r h k = (c, r, tt, k)

  handler_turn-Holds :
      (cs : List NetifCall) (s : Demo) (t : Trace NetifCall)
      → All IsHandlers cs
      → Holds (s, t)
      → Holds (handler_turn env cs s t)
  unfolding handler_turn
  handler_turn-Holds [] s t k h = h
  handler_turn-Holds (c ∷ cs) s t k (client, routed, ready, calls) =
      call-Holds c (env t c) (record s { pending = cs }) t k.0 (client, routed, ready, k.1)

  ap_event_handler-Holds :
      (e : ApEvent) (s : Demo) (t : Trace NetifCall)
      → Holds (s, t)
      → Holds (ap_event_handler e s, t)
  unfolding ap_event_handler
  ap_event_handler-Holds ap_staconnected s t (c, r, h, k) = (c, r, h, (tt, (tt, (tt, (tt, tt)))))
  ap_event_handler-Holds ap_stadisconnected s t h = h
  ap_event_handler-Holds sta_connected s t h = h
  ap_event_handler-Holds sta_disconnected s t h = h
  ap_event_handler-Holds other_wifi s t h = h

  on_ip_event-Holds :
      (e : IpEvent) (s : Demo) (t : Trace NetifCall) → Holds (s, t) → Holds (on_ip_event e s, t)
  unfolding on_ip_event
  on_ip_event-Holds (sta_got_ip true) s t (c, r, h, k) = (c, r, h, (tt, tt))
  on_ip_event-Holds (sta_got_ip false) s t h = h
  on_ip_event-Holds (sta_lost_ip true) s t (c, r, h, k) = (c, r, h, (tt, (tt, tt)))
  on_ip_event-Holds (sta_lost_ip false) s t h = h
  on_ip_event-Holds other_ip s t h = h

  if_idle-Holds :
      (cs : List NetifCall) (handled s : Demo) (t : Trace NetifCall)
      → Holds (handled, t)
      → Holds (s, t)
      → Holds (if_idle cs handled s, t)
  if_idle-Holds [] handled s t h k = h
  if_idle-Holds (c ∷ cs) handled s t h k = k

  demo_turn-Holds :
      (turn : DemoTurn) (s : Demo) (t : Trace NetifCall)
      → Holds (s, t)
      → Holds (demo_turn env turn s t)
  unfolding demo_turn
  demo_turn-Holds (wifi_turn e) s t h =
      if_idle-Holds s.pending (ap_event_handler e s) s t (ap_event_handler-Holds e s t h) h
  demo_turn-Holds (ip_turn e) s t h =
      if_idle-Holds s.pending (on_ip_event e s) s t (on_ip_event-Holds e s t h) h
  demo_turn-Holds event_task s t h = handler_turn-Holds s.pending s t h.3 h
  demo_turn-Holds app_turn s t (c, r, h, k) = main_turn-Holds s.point s t c r h k

  pub run_demo-Holds :
      (turns : List DemoTurn) (s : Demo) (t : Trace NetifCall)
      → Holds (s, t)
      → Holds (run_demo env turns s t)
  unfolding run_demo
  run_demo-Holds [] s t h = h
  run_demo-Holds (turn ∷ turns) s t h =
      run_demo-Holds turns (demo_turn env turn s t).0 (demo_turn env turn s t).1
        (demo_turn-Holds turn s t h)

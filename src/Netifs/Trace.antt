-- ===== src/Netifs/Trace.antt =====
-- What the calls of
-- devcon22/demo_2_netifs/wifi_2_netifs/main/softap_example_main.c
-- say of its HTTP clients, its requests and the access point.
use esp_network_examples.Prelude.{ℕ, suc, Bool, true, false, ◌||◌, List, [], ◌∷◌, ◌≡◌}
use esp_network_examples.Os.{Trace}
use esp_network_examples.Netifs.{
  NetifCall, link_down, get_ap_ip_info, set_default_sta, http_init, http_perform,
  http_content_length, http_status, http_close, http_cleanup, sta_got_ip, Point, performing,
  measuring, checking, closing, cleaning, Demo, no_address, DemoTurn, ip_turn,
}

-- What an HTTP client goes through, by the rules of `esp_http_client`.
pub data HttpClient : Type 0 where
  absent fresh used closed misused : HttpClient

-- A client is made where none is, used once, asked about its response, closed and freed.
abbrev pub next_client : NetifCall → HttpClient → HttpClient
next_client http_init absent = fresh
next_client http_init _ = misused
next_client http_perform fresh = used
next_client http_perform _ = misused
next_client http_content_length used = used
next_client http_content_length _ = misused
next_client http_status used = used
next_client http_status _ = misused
next_client http_close used = closed
next_client http_close _ = misused
next_client http_cleanup closed = absent
next_client http_cleanup _ = misused
next_client _ client = client

abbrev pub client_of : Trace NetifCall → HttpClient
client_of [] = absent
client_of ((c, a) ∷ t) = next_client c (client_of t)

-- The client that the main task has at a point.
abbrev pub client_at : Point → HttpClient
client_at performing = fresh
client_at measuring = used
client_at checking = used
client_at closing = used
client_at cleaning = closed
client_at _ = absent

abbrev pub requests : Trace NetifCall → ℕ
requests [] = 0
requests ((http_perform, a) ∷ t) = suc (requests t)
requests (_ ∷ t) = requests t

-- Whether the link of `ap` was set down since its address was asked for.
abbrev pub was_downed : Trace NetifCall → Bool
was_downed [] = false
was_downed ((link_down, a) ∷ t) = true
was_downed ((get_ap_ip_info, a) ∷ t) = false
was_downed (_ ∷ t) = was_downed t

-- Whether the station was made the default interface, which nothing takes back.
abbrev pub sta_default : Trace NetifCall → Bool
sta_default [] = false
sta_default ((set_default_sta, a) ∷ t) = true
sta_default (_ ∷ t) = sta_default t

-- Whether `ap` had no address when it was asked last.
abbrev pub had_none : Trace NetifCall → Bool
had_none [] = false
had_none ((get_ap_ip_info, a) ∷ t) = no_address a.bytes
had_none (_ ∷ t) = had_none t

-- Where `ap` had no address, its link was set down since, and the station is the default.
abbrev pub WithoutAp : Bool → Bool → Bool → Type 0
WithoutAp true downed default = (downed ≡ true) × (default ≡ true)
WithoutAp false downed default = Unit {0}

-- So it was at each request.
abbrev pub IsRouted : Trace NetifCall → Type 0
IsRouted [] = Unit {0}
IsRouted ((http_perform, a) ∷ t) =
    WithoutAp (had_none t) (was_downed t) (sta_default t) × IsRouted t
IsRouted (_ ∷ t) = IsRouted t

-- The client of the trace is the one of the main task, and its requests were routed.
abbrev pub TraceHolds : Demo × Trace NetifCall → Type 0
TraceHolds (s, t) = (client_of t ≡ client_at s.point) × IsRouted t

abbrev pub is_got : DemoTurn → Bool
is_got (ip_turn (sta_got_ip is_ap)) = true
is_got _ = false

-- Whether an interface got an address.
abbrev pub any_got : List DemoTurn → Bool
any_got [] = false
any_got (turn ∷ turns) = is_got turn || any_got turns

-- ===== src/Station.antt =====
-- reflection/main/station_example_main.cpp: the handler of the events of a Wi-Fi station, with its
-- retries, the main task's wait for its bits, and the text of the station's settings.
pub mod Outcome
pub mod Early
pub mod Retries
pub mod Settings
mod Tests
use esp_network_examples.Prelude.{
  ℕ, zero, suc, ◌+◌, Bool, true, false, ◌||◌, List, [], ◌∷◌, ltb, if◌then◌else◌,
}

-- WIFI_EVENT_STA_START, WIFI_EVENT_STA_DISCONNECTED, IP_EVENT_STA_GOT_IP, and any other.
pub data StationEvent : Type 0 where
  started disconnected got_address other_event : StationEvent

-- `s_retry_num`, the two bits of `s_wifi_event_group`, and the calls of `esp_wifi_connect` so far.
pub record Station : Type 0 where
  pub retry_num : ℕ
  pub connected_bit : Bool
  pub fail_bit : Bool
  pub connect_calls : ℕ

unfoldable pub new_station : Station
new_station = record { retry_num = 0; connected_bit = false; fail_bit = false; connect_calls = 0 }

-- `esp_wifi_connect`
unfoldable pub wifi_connect : Station → Station
wifi_connect s = record s { connect_calls = s.connect_calls + 1 }

-- The first argument is EXAMPLE_ESP_MAXIMUM_RETRY.
unfoldable pub event_handler : ℕ → StationEvent → Station → Station
event_handler maximum_retry started s = wifi_connect s
event_handler maximum_retry disconnected s =
    if ltb s.retry_num maximum_retry
    then record (wifi_connect s) { retry_num = s.retry_num + 1 }
    else record s { fail_bit = true }
event_handler maximum_retry got_address s = record s { retry_num = 0; connected_bit = true }
event_handler maximum_retry other_event s = s

unfoldable pub handle_all_events : ℕ → List StationEvent → Station → Station
handle_all_events maximum_retry [] s = s
handle_all_events maximum_retry (e ∷ es) s =
    handle_all_events maximum_retry es (event_handler maximum_retry e s)

-- How `wifi_init_sta` ends, where it does.
pub data JoinOutcome : Type 0 where
  still_waiting joined gave_up unexpected : JoinOutcome

-- The tests of the bits that `xEventGroupWaitBits` gave back.
unfoldable pub outcome_of : Station → JoinOutcome
outcome_of s = if s.connected_bit then joined else (if s.fail_bit then gave_up else unexpected)

-- The wait ends with the first event behind which a bit is set, which it may be at first, and gives back
-- the bits of that time.
unfoldable pub wait_bits : ℕ → List StationEvent → Station → JoinOutcome
wait_bits maximum_retry [] s = if s.connected_bit || s.fail_bit then outcome_of s else still_waiting
wait_bits maximum_retry (e ∷ es) s =
    let rest = wait_bits maximum_retry es (event_handler maximum_retry e s) in
    if s.connected_bit || s.fail_bit then outcome_of s else rest

-- `wifi_init_sta`, where some events are handled before the wait and others during it.
unfoldable pub wifi_init_sta : ℕ → List StationEvent → List StationEvent → JoinOutcome
wifi_init_sta maximum_retry early late =
    wait_bits maximum_retry late (handle_all_events maximum_retry early new_station)

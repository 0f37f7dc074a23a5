-- ===== src/Station/Tests.antt =====
-- The theorems on the Wi-Fi station, applied to runs.
use esp_network_examples.Prelude.{ℕ, List, [], ◌∷◌, ◌≡◌, refl, arith, negsuc, codes, length, drop}
use esp_network_examples.Station.{
  StationEvent, started, disconnected, got_address, other_event, new_station, wifi_connect,
  event_handler, handle_all_events, gave_up, joined, wifi_init_sta, wait_bits, outcome_of,
}
use esp_network_examples.Station.Outcome.{expected}
use esp_network_examples.Station.Early.{wifi_init_sta-expected}
use esp_network_examples.Station.Settings.{
  colon_hex, append_uint8_array, uint8_array, uint8, int8, append_member, append_members, to_string,
  read_array, append_uint8_array-read_array,
}

-- Two retries are allowed: the third failure ends the wait, though an address follows.
abbrev failing : List StationEvent
failing = disconnected ∷ other_event ∷ disconnected ∷ disconnected ∷ got_address ∷ []

third_failure : wifi_init_sta 2 (started ∷ []) failing ≡ gave_up
unfolding wifi_init_sta wait_bits handle_all_events event_handler wifi_connect new_station
    outcome_of
third_failure = refl

-- An address that is got before the wait hides the failure.
address_before_wait : wifi_init_sta 2 (started ∷ failing) [] ≡ joined
unfolding wifi_init_sta wait_bits handle_all_events event_handler wifi_connect new_station
    outcome_of
address_before_wait = refl

wifi_init_sta-expected_example :
    wifi_init_sta 2 (started ∷ []) failing ≡ expected 2 (started ∷ []) failing
wifi_init_sta-expected_example = wifi_init_sta-expected 2 (started ∷ []) failing

-- 1, 16 and 255 of a MAC address, and a text that ends in front of its array.
abbrev mac : List ℕ
mac = 1 ∷ 16 ∷ 255 ∷ 0 ∷ 10 ∷ 9 ∷ []

settings_text :
    to_string (codes "sta") (
      (codes "bssid", uint8_array mac)
      ∷ (codes "ssid", uint8_array (97 ∷ 98 ∷ 0 ∷ 99 ∷ []))
      ∷ (codes "channel", uint8 11)
      ∷ (codes "rssi", int8 (negsuc 69))
      ∷ [])
    ≡ codes
        "sta \n{\tbssid = 01:10:ff:00:0a:09, \n\tssid = \"ab\", \n\tchannel = 11, \n\trssi = -70 }"
unfolding to_string append_members append_member append_uint8_array colon_hex
settings_text = refl

append_uint8_array-read_array_example :
    read_array (length mac) (drop 3 (append_uint8_array (codes "a =") mac)) ≡ mac
append_uint8_array-read_array_example =
    append_uint8_array-read_array (codes "a =") mac (omega arith)

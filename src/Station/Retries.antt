-- ===== src/Station/Retries.antt =====
-- How often reflection/main/station_example_main.cpp connects again.
use esp_network_examples.Prelude.{
  ℕ, suc, ◌+◌, ◌-◌, ◌*◌, ◌≤◌, List, [], ◌∷◌, ◌≡◌, inl, inr, arith, ltb, ltb→lt, Bool-cases,
}
use esp_network_examples.Station.{
  StationEvent, started, disconnected, got_address, other_event, Station, new_station, wifi_connect,
  event_handler, handle_all_events,
}

abbrev pub starts : List StationEvent → ℕ
starts [] = 0
starts (started ∷ es) = suc (starts es)
starts (_ ∷ es) = starts es

abbrev pub addresses : List StationEvent → ℕ
addresses [] = 0
addresses (got_address ∷ es) = suc (addresses es)
addresses (_ ∷ es) = addresses es

-- The calls made, and those that the retries leave, are within an allowance.
abbrev Within : ℕ → ℕ → Station → Type 0
Within m allowance s = (s.retry_num ≤ m) × (s.connect_calls + (m - s.retry_num) ≤ allowance)

product : (m n : ℕ) → m * (1 + n) ≡ m + m * n
product m n = grind arith

module _ (m : ℕ) where
  handle_all_events-Within :
      (es : List StationEvent) (a : ℕ) (s : Station)
      → Within m a s
      → Within m (a + (starts es + m * addresses es)) (handle_all_events m es s)
  unfolding handle_all_events event_handler wifi_connect
  handle_all_events-Within [] a s (r, c) = (r, omega (arith, c))
  handle_all_events-Within (started ∷ es) a s (r, c) =
      let rest =
        handle_all_events-Within es (a + 1) (event_handler m started s) (r, omega (arith, c)) in
      (rest.0, omega (arith, rest.1))
  handle_all_events-Within (other_event ∷ es) a s h = handle_all_events-Within es a s h
  handle_all_events-Within (got_address ∷ es) a s (r, c) =
      let rest =
        handle_all_events-Within es (a + m) (event_handler m got_address s)
          (omega arith, omega (arith, r, c)) in
      (rest.0, omega (arith, rest.1, product m (addresses es)))
  handle_all_events-Within (disconnected ∷ es) a s (r, c) =
      handle_all_events-Within es a (event_handler m disconnected s)
        (elim (Bool-cases (ltb s.retry_num m)) [
          | inl more ↦
              let lt = ltb→lt s.retry_num m more in
              rw more ((omega (arith, lt), omega (arith, c, lt)))
          | inr over ↦ rw over ((r, c))
        ])

  -- Whatever events are handled: the retries are within EXAMPLE_ESP_MAXIMUM_RETRY, and `esp_wifi_connect`
  -- is called at most once for each start of the station, and at most that often in each run of
  -- retries: the first one, and one behind each address that is got.
  pub handle_all_events-bounded :
      (es : List StationEvent)
      → ((handle_all_events m es new_station).retry_num ≤ m)
        × ((handle_all_events m es new_station).connect_calls ≤ starts es + m * (1 + addresses es))
  unfolding new_station
  handle_all_events-bounded es =
      let h = handle_all_events-Within es m new_station (omega arith, omega arith) in
      (h.0, omega (arith, h.1, product m (addresses es)))

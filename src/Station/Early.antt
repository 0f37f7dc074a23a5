-- ===== src/Station/Early.antt =====
-- The events that reflection/main/station_example_main.cpp, wifi_init_sta, has handled before it waits.
use esp_network_examples.Prelude.{
  ℕ, ◌+◌, ◌≤◌, ◌<◌, true, false, ◌||◌, List, [], ◌∷◌, ◌≡◌, inl, inr, refl, arith, sym, subst, ap,
  ◌∙◌, ltb, ltb→lt, not_ltb→le, if◌then◌else◌, Bool-cases,
}
use native.Mathlib.Decide.{dec_lt}
use esp_network_examples.Station.{
  StationEvent, started, disconnected, got_address, other_event, Station, new_station, wifi_connect,
  event_handler, handle_all_events, joined, gave_up, unexpected, outcome_of, wait_bits,
  wifi_init_sta,
}
use esp_network_examples.Station.Outcome.{
  failures, has_address, expected_late, expected, wait_bits-set, Trying, retried, failed,
  wait_bits-expected,
}

module _ (m : ℕ) where
  -- The bits stay set, and CONNECTED is set by an address only.
  connected_stays :
      (es : List StationEvent) (s : Station)
      → s.connected_bit ≡ true
      → (handle_all_events m es s).connected_bit ≡ true
  unfolding handle_all_events event_handler wifi_connect
  connected_stays [] s c = c
  connected_stays (started ∷ es) s c = connected_stays es (event_handler m started s) c
  connected_stays (other_event ∷ es) s c = connected_stays es s c
  connected_stays (got_address ∷ es) s c = connected_stays es (event_handler m got_address s) refl
  connected_stays (disconnected ∷ es) s c =
      connected_stays es (event_handler m disconnected s)
        (elim (Bool-cases (ltb s.retry_num m)) [ inl more ↦ rw more c | inr over ↦ rw over c ])

  connected_by_address :
      (es : List StationEvent) (s : Station)
      → has_address es ≡ true
      → (handle_all_events m es s).connected_bit ≡ true
  unfolding handle_all_events event_handler
  connected_by_address [] s h = absurd (cc)
  connected_by_address (got_address ∷ es) s h =
      connected_stays es (event_handler m got_address s) refl
  connected_by_address (e ∷ es) s h = connected_by_address es (event_handler m e s) h

  failed_stays :
      (es : List StationEvent) (s : Station)
      → has_address es ≡ false
      → s.connected_bit ≡ false
      → s.fail_bit ≡ true
      → ((handle_all_events m es s).connected_bit ≡ false)
        × ((handle_all_events m es s).fail_bit ≡ true)
  unfolding handle_all_events event_handler wifi_connect
  failed_stays [] s h c f = (c, f)
  failed_stays (started ∷ es) s h c f = failed_stays es (event_handler m started s) h c f
  failed_stays (other_event ∷ es) s h c f = failed_stays es s h c f
  failed_stays (got_address ∷ es) s h c f = absurd (cc)
  failed_stays (disconnected ∷ es) s h c f =
      failed_stays es (event_handler m disconnected s) h
        (elim (Bool-cases (ltb s.retry_num m)) [ inl more ↦ rw more c | inr over ↦ rw over c ])
        (elim (Bool-cases (ltb s.retry_num m)) [ inl more ↦ rw more f | inr over ↦ rw over refl ])

  still-Trying :
      (es : List StationEvent) (n : ℕ) (s : Station)
      → has_address es ≡ false
      → n + failures es ≤ m
      → Trying n s
      → Trying (n + failures es) (handle_all_events m es s)
  unfolding handle_all_events event_handler wifi_connect
  still-Trying [] n s h le t = (t.0 ∙ omega arith, t.1, t.2)
  still-Trying (started ∷ es) n s h le t = still-Trying es n (event_handler m started s) h le t
  still-Trying (other_event ∷ es) n s h le t = still-Trying es n s h le t
  still-Trying (got_address ∷ es) n s h le t = absurd (cc)
  still-Trying (disconnected ∷ es) n s h le t =
      let next =
        still-Trying es (n + 1) (event_handler m disconnected s) h (omega (arith, le))
          (retried m n s (omega (arith, le)) t) in
      (next.0 ∙ omega arith, next.1, next.2)

  has_failed_by :
      (es : List StationEvent) (n : ℕ) (s : Station)
      → has_address es ≡ false
      → m < n + failures es
      → n ≤ m
      → Trying n s
      → ((handle_all_events m es s).connected_bit ≡ false)
        × ((handle_all_events m es s).fail_bit ≡ true)
  unfolding handle_all_events event_handler wifi_connect
  has_failed_by [] n s h lt le t = absurd (omega (arith, lt, le))
  has_failed_by (started ∷ es) n s h lt le t =
      has_failed_by es n (event_handler m started s) h lt le t
  has_failed_by (other_event ∷ es) n s h lt le t = has_failed_by es n s h lt le t
  has_failed_by (got_address ∷ es) n s h lt le t = absurd (cc)
  has_failed_by (disconnected ∷ es) n s h lt le t = elim (dec_lt n m) [
    | yes more ↦
        has_failed_by es (n + 1) (event_handler m disconnected s) h (omega (arith, lt))
          (omega (arith, more)) (retried m n s more t)
    | no over ↦
        let last : n ≡ m = omega (arith, over, le) in
        let fails = failed m s (t.0 ∙ last, t.1, t.2) in
        subst
          (λ (r : Station).
            ((handle_all_events m es r).connected_bit ≡ false)
            × ((handle_all_events m es r).fail_bit ≡ true))
          (sym fails) (failed_stays es (record s { fail_bit = true }) h t.1 refl)
  ]

  -- Each way that the events before the wait may have gone.
  early_joined :
      (early late : List StationEvent) (s : Station)
      → has_address early ≡ true
      → wait_bits m late (handle_all_events m early s) ≡ joined
  unfolding outcome_of
  early_joined early late s h =
      let c = connected_by_address early s h in
      let end = handle_all_events m early s in
      wait_bits-set m late end (ap (λ b. b || end.fail_bit) c)
      ∙ ap (λ b. if b then joined else (if end.fail_bit then gave_up else unexpected)) c

  early_failed :
      (early late : List StationEvent) (s : Station)
      → has_address early ≡ false
      → m < failures early
      → Trying 0 s
      → wait_bits m late (handle_all_events m early s) ≡ gave_up
  unfolding outcome_of
  early_failed early late s h lt t =
      let end = handle_all_events m early s in
      let f = has_failed_by early 0 s h (omega (arith, lt)) (omega arith) t in
      wait_bits-set m late end (ap (λ b. b || end.fail_bit) f.0 ∙ f.1)
      ∙ ap (λ b. if b then joined else (if end.fail_bit then gave_up else unexpected)) f.0
      ∙ ap (λ b. if b then gave_up else unexpected) f.1

  early-Trying :
      (early late : List StationEvent) (s : Station)
      → has_address early ≡ false
      → failures early ≤ m
      → Trying 0 s
      → wait_bits m late (handle_all_events m early s) ≡ expected_late m (failures early) late
  early-Trying early late s h le t =
      let end = still-Trying early 0 s h (omega (arith, le)) t in
      wait_bits-expected m late (failures early) (handle_all_events m early s) le
        (end.0 ∙ omega arith, end.1, end.2)

-- Whatever events come before the wait and during it: `wifi_init_sta` ends with the station joined if
-- an address was got before the wait; else it gives up if, up to the first address, the station was
-- disconnected more often than EXAMPLE_ESP_MAXIMUM_RETRY says; else it ends joined at the first
-- address, and waits where there is none. It never ends with another event.
pub wifi_init_sta-expected :
    (maximum_retry : ℕ) (early late : List StationEvent)
    → wifi_init_sta maximum_retry early late ≡ expected maximum_retry early late
unfolding wifi_init_sta new_station
wifi_init_sta-expected m early late = elim (Bool-cases (has_address early)) [
  | inl address ↦ rw address (early_joined m early late new_station address)
  | inr none_yet ↦ elim (Bool-cases (ltb m (failures early))) [
    | inl many ↦
        rw (none_yet, many)
          (early_failed m early late new_station none_yet (ltb→lt m (failures early) many)
            (refl, refl, refl))
    | inr few ↦
        rw (none_yet, few)
          (early-Trying m early late new_station none_yet (not_ltb→le m (failures early) few)
            (refl, refl, refl))
  ]
]

-- ===== src/Station/Outcome.antt =====
-- How reflection/main/station_example_main.cpp, wifi_init_sta, ends.
use esp_network_examples.Prelude.{
  ℕ, suc, ◌+◌, ◌≤◌, ◌<◌, Bool, true, false, ◌||◌, List, [], ◌∷◌, ◌≡◌, refl, arith, ap, ◌∙◌, ltb,
  lt→ltb, le→not_ltb, if◌then◌else◌,
}
use native.Mathlib.Decide.{dec_lt}
use esp_network_examples.Station.{
  StationEvent, started, disconnected, got_address, other_event, Station, wifi_connect,
  event_handler, JoinOutcome, still_waiting, joined, gave_up, outcome_of, wait_bits,
}

-- The failures in front of the first address, and whether there is one.
abbrev pub failures : List StationEvent → ℕ
failures [] = 0
failures (disconnected ∷ es) = suc (failures es)
failures (got_address ∷ es) = 0
failures (_ ∷ es) = failures es

abbrev pub has_address : List StationEvent → Bool
has_address [] = false
has_address (got_address ∷ es) = true
has_address (_ ∷ es) = has_address es

-- What is to be expected after so many failures.
abbrev pub expected_late : ℕ → ℕ → List StationEvent → JoinOutcome
expected_late maximum_retry before late =
    if ltb maximum_retry (before + failures late)
    then gave_up
    else (if has_address late then joined else still_waiting)

abbrev pub expected : ℕ → List StationEvent → List StationEvent → JoinOutcome
expected maximum_retry early late =
    if has_address early
    then joined
    else (if ltb maximum_retry (failures early)
        then gave_up
        else expected_late maximum_retry (failures early) late)

-- A wait at whose start a bit is set ends at once.
pub wait_bits-set :
    (m : ℕ) (late : List StationEvent) (s : Station)
    → (s.connected_bit || s.fail_bit) ≡ true
    → wait_bits m late s ≡ outcome_of s
unfolding wait_bits
wait_bits-set m [] s h = rw h refl
wait_bits-set m (e ∷ late) s h = rw h refl

-- Otherwise it goes on with the next event.
wait_bits-unset :
    (m : ℕ) (e : StationEvent) (late : List StationEvent) (s : Station)
    → (s.connected_bit || s.fail_bit) ≡ false
    → wait_bits m (e ∷ late) s ≡ wait_bits m late (event_handler m e s)
unfolding wait_bits
wait_bits-unset m e late s h = rw h refl

wait_bits-nil :
    (m : ℕ) (s : Station)
    → (s.connected_bit || s.fail_bit) ≡ false
    → wait_bits m [] s ≡ still_waiting
unfolding wait_bits
wait_bits-nil m s h = rw h refl

-- No bit is set, and so many retries were made.
abbrev pub Trying : ℕ → Station → Type 0
Trying n s = (s.retry_num ≡ n) × (s.connected_bit ≡ false) × (s.fail_bit ≡ false)

module _ (m : ℕ) where
  unset : (n : ℕ) (s : Station) → Trying n s → (s.connected_bit || s.fail_bit) ≡ false
  unset n s (r, c, f) = rw c f

  pub retried :
      (n : ℕ) (s : Station) → n < m → Trying n s → Trying (n + 1) (event_handler m disconnected s)
  unfolding event_handler wifi_connect
  retried n s h (r, c, f) =
      let more : ltb s.retry_num m ≡ true = ap (λ k. ltb k m) r ∙ lt→ltb n m h in
      rw more ((ap (λ k. k + 1) r, c, f))

  pub failed :
      (s : Station) → Trying m s → event_handler m disconnected s ≡ record s { fail_bit = true }
  unfolding event_handler
  failed s (r, c, f) =
      let over : ltb s.retry_num m ≡ false = ap (λ k. ltb k m) r ∙ le→not_ltb m m (omega arith) in
      rw over refl

  -- What an event in front of the first address and of the last failure does to the expectation.
  pub wait_bits-expected :
      (late : List StationEvent) (n : ℕ) (s : Station)
      → n ≤ m
      → Trying n s
      → wait_bits m late s ≡ expected_late m n late
  unfolding outcome_of event_handler wifi_connect
  wait_bits-expected [] n s h t =
      let few = le→not_ltb m (n + 0) (omega (arith, h)) in
      wait_bits-nil m s (unset n s t) ∙ rw few refl
  wait_bits-expected (started ∷ late) n s h t =
      wait_bits-unset m started late s (unset n s t)
      ∙ wait_bits-expected late n (event_handler m started s) h t
  wait_bits-expected (other_event ∷ late) n s h t =
      wait_bits-unset m other_event late s (unset n s t)
      ∙ wait_bits-expected late n (event_handler m other_event s) h t
  wait_bits-expected (got_address ∷ late) n s h t =
      wait_bits-unset m got_address late s (unset n s t)
      ∙ wait_bits-set m late (event_handler m got_address s) refl
      ∙ (let few = le→not_ltb m (n + 0) (omega (arith, h)) in rw few refl)
  wait_bits-expected (disconnected ∷ late) n s h t = elim (dec_lt n m) [
    | yes more ↦
        wait_bits-unset m disconnected late s (unset n s t)
        ∙ wait_bits-expected late (n + 1) (event_handler m disconnected s) (omega arith)
            (retried n s more t)
        ∙ ap
            (λ k. if ltb m k then gave_up else (if has_address late then joined else still_waiting))
            (omega arith)
    | no over ↦
        let last : n ≡ m = omega (arith, over) in
        let full = lt→ltb m (n + suc (failures late)) (omega (arith, last)) in
        let fails = failed s (t.0 ∙ last, t.1, t.2) in
        wait_bits-unset m disconnected late s (unset n s t)
        ∙ ap (wait_bits m late) fails
        ∙ wait_bits-set m late (record s { fail_bit = true }) (rw t.1 refl)
        ∙ rw (t.1, full) refl
  ]

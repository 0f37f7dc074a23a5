-- ===== src/Netifs/Running.antt =====
-- The requests of devcon22/demo_2_netifs/wifi_2_netifs/main/softap_example_main.c,
-- however its tasks interleave.
use esp_network_examples.Prelude.{false, ◌≡◌, All}
use esp_network_examples.Os.{Env, Trace}
use esp_network_examples.Netifs.{NetifCall, waiting, Demo}
use esp_network_examples.Netifs.Trace.{requests}
use esp_network_examples.Netifs.Invariant.{IsHandlers}

module _ (env : Env NetifCall) where
  -- No address was got: the main task waits, and has made no request.
  abbrev Idle : Demo × Trace NetifCall → Type 0
  Idle (s, t) =
      (s.got_ip ≡ false) × (s.point ≡ waiting) × (requests t ≡ 0) × All IsHandlers s.pending

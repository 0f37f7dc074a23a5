-- ===== src/Bacnet/Calls.antt =====
-- The calls of backnet-sever/main/main.c in FreeRTOS, the drivers and the BACnet stack.
use esp_network_examples.Prelude.{ℕ, ℤ}

pub data Call : Type 0 where
  device_init select_gpio set_direction network_init : Call
  delay wait_connected tick_count : Call
  dcc_timer_seconds bvlc_maintenance_timer cov_timer_seconds tsm_timer_milliseconds : Call
  temperature hall receive present_value cov_task : Call
  set_instance gpio_set_level npdu_handler : ℕ → Call
  analog_input : ℕ → ℤ → Call

-- ===== src/Bacnet.antt =====
-- backnet-sever/main/main.c: the task of a BACnet server, with the timers of its stack and a LED.
-- The system and the stack answer each call.
pub mod Calls
pub mod Timers
pub mod Led
pub mod Network
mod Tests
use esp_network_examples.Prelude.{
  ℕ, zero, suc, ◌-◌, ℤ, pos, negsuc, is_zero, pos_part, Bool, true, false, ◌||◌, ltb, leb, ◌==◌,
  if◌then◌else◌,
}
use esp_network_examples.Os.{Answer, Env, Io, ask, return, ◌>>=◌, ◌>>◌}
use esp_network_examples.Bacnet.Calls.{
  Call, device_init, select_gpio, set_direction, network_init, delay, wait_connected, tick_count,
  dcc_timer_seconds, bvlc_maintenance_timer, cov_timer_seconds, tsm_timer_milliseconds, temperature,
  hall, receive, present_value, cov_task, set_instance, gpio_set_level, npdu_handler, analog_input,
}

-- `setup`
unfoldable pub setup : Env Call → Io Call (Unit {0})
setup env = do
  _ ← ask env select_gpio
  _ ← ask env set_direction
  _ ← ask env (gpio_set_level 0)
  _ ← ask env network_init
  return tt

-- Whether the timers are due; the first argument is the tick rate.
abbrev pub is_due : ℕ → ℕ → ℕ → Bool
is_due rate newtick tickcount = ltb newtick tickcount || leb rate (newtick - tickcount)

-- The timers of the stack, and the sensors.
unfoldable pub run_timers : Env Call → Io Call (Unit {0})
run_timers env = do
  _ ← ask env dcc_timer_seconds
  _ ← ask env bvlc_maintenance_timer
  _ ← ask env cov_timer_seconds
  _ ← ask env tsm_timer_milliseconds
  t ← ask env temperature
  _ ← ask env (analog_input 0 t.ret)
  h ← ask env hall
  _ ← ask env (analog_input 1 h.ret)
  return tt

-- The new `tickcount`.
unfoldable pub if_due : Env Call → ℕ → ℕ → Bool → Io Call ℕ
if_due env newtick tickcount true = run_timers env >> return newtick
if_due env newtick tickcount false = return tickcount

-- `BINARY_ACTIVE` is 1.
abbrev pub level : ℤ → ℕ
level (pos n) = if n == 1 then 1 else 0
level (negsuc n) = 0

-- A packet of so many bytes, if there is one.
unfoldable pub handle_packet : Env Call → ℕ → Io Call (Unit {0})
handle_packet env zero = return tt
handle_packet env (suc n) = do
  _ ← ask env (npdu_handler (suc n))
  a ← ask env present_value
  _ ← ask env (gpio_set_level (level a.ret))
  return tt

-- Behind the timers.
unfoldable pub serve_packet : Env Call → Io Call (Unit {0})
serve_packet env = do
  r ← ask env receive
  handle_packet env (pos_part r.ret)
  _ ← ask env cov_task
  return tt

-- One turn of the loop, with the ticks of the last run of the timers.
unfoldable pub serve_once : ℕ → Env Call → ℕ → Io Call ℕ
serve_once rate env tickcount = do
  _ ← ask env delay
  _ ← ask env wait_connected
  a ← ask env tick_count
  tickcount' ← if_due env (pos_part a.ret) tickcount (is_due rate (pos_part a.ret) tickcount)
  serve_packet env
  return tickcount'

-- So many turns of the loop.
unfoldable pub task_loop : ℕ → ℕ → Env Call → ℕ → Io Call ℕ
task_loop zero rate env tickcount = return tickcount
task_loop (suc n) rate env tickcount = serve_once rate env tickcount >>= task_loop n rate env

-- The task, for so many turns.
unfoldable pub bacnet_task : ℕ → ℕ → Env Call → Io Call ℕ
bacnet_task n rate env = do
  _ ← ask env device_init
  _ ← ask env (set_instance 12)
  setup env
  a ← ask env tick_count
  task_loop n rate env (pos_part a.ret)

-- ===== src/Bacnet/Led.antt =====
-- The LED of backnet-sever/main/main.c.
use esp_network_examples.Prelude.{ℕ, zero, suc, pos_part, Bool, true, false, [], ◌∷◌, ◌≡◌, refl}
use esp_network_examples.Os.{Env, Trace}
use esp_network_examples.Bacnet.Calls.{
  Call, delay, wait_connected, tick_count, receive, present_value, gpio_set_level,
}
use esp_network_examples.Bacnet.Timers.{started}
use esp_network_examples.Bacnet.{
  setup, is_due, run_timers, if_due, level, handle_packet, serve_packet, serve_once, task_loop,
  bacnet_task,
}

-- The level of the LED, by what it was set to last.
abbrev pub led : Trace Call → ℕ
led [] = 0
led ((gpio_set_level v, a) ∷ t) = v
led (_ ∷ t) = led t

-- The level for the output of the BACnet device, by its value as it was read last.
abbrev pub output : Trace Call → ℕ
output [] = 0
output ((present_value, a) ∷ t) = level a.ret
output (_ ∷ t) = output t

module _ (env : Env Call) where
  abbrev Shows : Trace Call → Type 0
  Shows t = led t ≡ output t

  handle_packet-Shows : (n : ℕ) (t : Trace Call) → Shows t → Shows (handle_packet env n t).1
  unfolding handle_packet
  handle_packet-Shows zero t h = h
  handle_packet-Shows (suc n) t h = refl

  if_due-Shows :
      (newtick tickcount : ℕ) (b : Bool) (t : Trace Call)
      → Shows t
      → Shows (if_due env newtick tickcount b t).1
  unfolding if_due run_timers
  if_due-Shows newtick tickcount true t h = h
  if_due-Shows newtick tickcount false t h = h

  serve_once-Shows :
      (rate tickcount : ℕ) (t : Trace Call) → Shows t → Shows (serve_once rate env tickcount t).1
  unfolding serve_once serve_packet
  serve_once-Shows rate tickcount t h =
      let t1 : Trace Call = (delay, env t delay) ∷ t in
      let t2 : Trace Call = (wait_connected, env t1 wait_connected) ∷ t1 in
      let a = env t2 tick_count in
      let timed =
        (if_due env (pos_part a.ret) tickcount (is_due rate (pos_part a.ret) tickcount)
          ((tick_count, a) ∷ t2)).1 in
      let r = env timed receive in
      handle_packet-Shows (pos_part r.ret) ((receive, r) ∷ timed) (
        if_due-Shows (pos_part a.ret) tickcount (is_due rate (pos_part a.ret) tickcount)
          ((tick_count, a) ∷ t2) h)

  task_loop-Shows :
      (n rate tickcount : ℕ) (t : Trace Call) → Shows t → Shows (task_loop n rate env tickcount t).1
  unfolding task_loop
  task_loop-Shows zero rate tickcount t h = h
  task_loop-Shows (suc n) rate tickcount t h =
      task_loop-Shows n rate (serve_once rate env tickcount t).0 (serve_once rate env tickcount t).1
        (serve_once-Shows rate tickcount t h)

-- Whatever the system and the stack answer, behind each turn the LED has the level for the output of
-- the device as it was read last, which is behind the last packet; it is off in front of the first.
pub bacnet_task-led :
    (n rate : ℕ) (env : Env Call)
    → led (bacnet_task n rate env []).1 ≡ output (bacnet_task n rate env []).1
unfolding bacnet_task setup
bacnet_task-led n rate env =
    let t = started env in
    task_loop-Shows env n rate (pos_part (env t tick_count).ret)
      ((tick_count, env t tick_count) ∷ t) refl

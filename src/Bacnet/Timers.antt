-- ===== src/Bacnet/Timers.antt =====
-- How often the timers of backnet-sever/main/main.c run.
use native.Mathlib.Nat.{mul-le-mul_left}
use esp_network_examples.Prelude.{
  ℕ, zero, suc, ◌+◌, ◌-◌, ◌*◌, ◌/◌, ◌%◌, ◌^◌, ◌≤◌, pos, pos_part, Bool, true, false, [], ◌∷◌, ◌≡◌,
  inl, inr, refl, sym, ap, arith, ltb, not_ltb→le, leb, Bool-cases,
}
use esp_network_examples.Os.{Env, Trace}
use esp_network_examples.Bacnet.Calls.{
  Call, device_init, delay, wait_connected, tick_count, dcc_timer_seconds, bvlc_maintenance_timer,
  cov_timer_seconds, tsm_timer_milliseconds, temperature, hall, receive, present_value, cov_task,
  set_instance, gpio_set_level, npdu_handler, analog_input,
}
use esp_network_examples.Bacnet.{
  setup, is_due, run_timers, if_due, level, handle_packet, serve_packet, serve_once, task_loop,
  bacnet_task,
}

abbrev is_second : Call → ℕ
is_second dcc_timer_seconds = 1
is_second _ = 0

-- How often the timers were run.
abbrev pub seconds : Trace Call → ℕ
seconds [] = 0
seconds ((c, a) ∷ t) = is_second c + seconds t

-- The ticks, and the tick rate's worth of them for each time that their counter wrapped.
abbrev pub allowance : ℕ → ℕ → ℕ
allowance rate ticks = ticks + rate * (ticks / 2 ^ 32)

-- `xTaskGetTickCount` returns the low 32 bits of the ticks since the start, which never go back.
pub record IsClock (env : Env Call) (clock : Trace Call → ℕ) : Type 0 where
  pub later : (c : Call) (t : Trace Call) → clock t ≤ clock ((c, env t c) ∷ t)
  pub low_bits : (t : Trace Call) → (env t tick_count).ret ≡ pos (clock t % 2 ^ 32)

div_le : (m n : ℕ) → m ≤ n → m / 2 ^ 32 ≤ n / 2 ^ 32
div_le m n h = omega arith

-- Behind a run of the timers, at `before` ticks, they are due again at `now` ticks: that is `rate`
-- ticks later, or the counter has wrapped.
due_allowance :
    (rate before now : ℕ)
    → before ≤ now
    → is_due rate (now % 2 ^ 32) (before % 2 ^ 32) ≡ true
    → rate + allowance rate before ≤ allowance rate now
due_allowance rate before now h due = elim (Bool-cases (ltb (now % 2 ^ 32) (before % 2 ^ 32))) [
  | inl wrapped ↦
      let more : suc (before / 2 ^ 32) ≤ now / 2 ^ 32 = ground arith in
      omega (arith, mul-le-mul_left rate more)
  | inr not_wrapped ↦
      let due' : leb rate (now % 2 ^ 32 - before % 2 ^ 32) ≡ true = rw not_wrapped at due in
      let wraps = mul-le-mul_left rate (div_le before now h) in
      let apart : rate ≤ now % 2 ^ 32 - before % 2 ^ 32 = ground (arith, due') in
      omega (arith, wraps, apart, not_ltb→le _ _ not_wrapped)
]

-- Calls that leave the timers alone, and those that run them once.
module _ (env : Env Call) (clock : Trace Call → ℕ) (is : IsClock env clock) where
  abbrev Passes : ℕ → Trace Call → Trace Call → Type 0
  Passes runs t u = (clock t ≤ clock u) × (seconds u ≡ runs + seconds t)

  abbrev after : Call → Trace Call → Trace Call
  after c t = (c, env t c) ∷ t

  handle_packet-Passes : (n : ℕ) (t : Trace Call) → Passes 0 t (handle_packet env n t).1
  unfolding handle_packet
  handle_packet-Passes zero t = (omega arith, omega arith)
  handle_packet-Passes (suc n) t =
      let t1 = after (npdu_handler (suc n)) t in
      let t2 = after present_value t1 in
      let l = level (env t1 present_value).ret in
      (
        omega (
          arith,
          is.later (npdu_handler (suc n)) t,
          is.later present_value t1,
          is.later (gpio_set_level l) t2,
        ),
        omega arith,
      )

  serve_packet-Passes : (t : Trace Call) → Passes 0 t (serve_packet env t).1
  unfolding serve_packet
  serve_packet-Passes t =
      let t1 = after receive t in
      let t2 = (handle_packet env (pos_part (env t receive).ret) t1).1 in
      let handled = handle_packet-Passes (pos_part (env t receive).ret) t1 in
      (omega (arith, is.later receive t, handled.0, is.later cov_task t2), omega (arith, handled.1))

  run_timers-Passes : (t : Trace Call) → Passes 1 t (run_timers env t).1
  unfolding run_timers
  run_timers-Passes t =
      let t1 = after dcc_timer_seconds t in
      let t2 = after bvlc_maintenance_timer t1 in
      let t3 = after cov_timer_seconds t2 in
      let t4 = after tsm_timer_milliseconds t3 in
      let t5 = after temperature t4 in
      let a = analog_input 0 (env t4 temperature).ret in
      let t6 = after a t5 in
      let t7 = after hall t6 in
      let b = analog_input 1 (env t6 hall).ret in
      (
        omega (
          arith,
          is.later dcc_timer_seconds t,
          is.later bvlc_maintenance_timer t1,
          is.later cov_timer_seconds t2,
          is.later tsm_timer_milliseconds t3,
          is.later temperature t4,
          is.later a t5,
          is.later hall t6,
          is.later b t7,
        ),
        omega arith,
      )

  module _ (rate first : ℕ) where
    -- The timers have run at `last` ticks for the last time, and not too often.
    abbrev Allowed : ℕ × Trace Call → Type 0
    Allowed (tickcount, t) =
        (last : ℕ) × (last ≤ clock t)
        × (tickcount ≡ last % 2 ^ 32)
        × (seconds t * rate + first ≤ allowance rate last)

    Passes-Allowed :
        (tickcount : ℕ) (t u : Trace Call)
        → Passes 0 t u
        → Allowed (tickcount, t)
        → Allowed (tickcount, u)
    Passes-Allowed tickcount t u (p, q) (last, h, e, k) =
        let same : seconds u ≡ seconds t = omega (arith, q) in
        (last, omega (arith, p, h), e, rw same k)

    if_due-Allowed :
        (newtick tickcount : ℕ) (b : Bool) (t : Trace Call)
        → newtick ≡ clock t % 2 ^ 32
        → is_due rate newtick tickcount ≡ b
        → Allowed (tickcount, t)
        → Allowed (if_due env newtick tickcount b (after tick_count t))
    unfolding if_due
    if_due-Allowed newtick tickcount false t tick due h =
        Passes-Allowed tickcount t (after tick_count t) (is.later tick_count t, omega arith) h
    if_due-Allowed newtick tickcount true t tick due (last, h, e, k) =
        let u = after tick_count t in
        let run = run_timers-Passes u in
        let due' : is_due rate (clock t % 2 ^ 32) (last % 2 ^ 32) ≡ true =
          rw (sym tick, sym e) due in
        let more = due_allowance rate last (clock t) h due' in
        let count : seconds (run_timers env u).1 ≡ 1 + seconds t = omega (arith, run.1) in
        (
          clock t,
          omega (arith, is.later tick_count t, run.0),
          tick,
          rw count (omega (arith, k, more)),
        )

    serve_once-Allowed :
        (tickcount : ℕ) (t : Trace Call)
        → Allowed (tickcount, t)
        → Allowed (serve_once rate env tickcount t)
    unfolding serve_once
    serve_once-Allowed tickcount t h =
        let t1 = after delay t in
        let t2 = after wait_connected t1 in
        let newtick = pos_part (env t2 tick_count).ret in
        let ready =
          Passes-Allowed tickcount t t2
            (omega (arith, is.later delay t, is.later wait_connected t1), omega arith) h in
        let timed =
          if_due env newtick tickcount (is_due rate newtick tickcount) (after tick_count t2) in
        Passes-Allowed timed.0 timed.1 (serve_packet env timed.1).1 (serve_packet-Passes timed.1) (
          if_due-Allowed newtick tickcount (is_due rate newtick tickcount) t2
            (ap pos_part (is.low_bits t2)) refl ready)

    task_loop-Allowed :
        (n tickcount : ℕ) (t : Trace Call)
        → Allowed (tickcount, t)
        → Allowed (task_loop n rate env tickcount t)
    unfolding task_loop
    task_loop-Allowed zero tickcount t h = h
    task_loop-Allowed (suc n) tickcount t h =
        task_loop-Allowed n (serve_once rate env tickcount t).0 (serve_once rate env tickcount t).1
          (serve_once-Allowed tickcount t h)

-- The calls in front of the first reading of the clock.
abbrev pub started : Env Call → Trace Call
started env =
    (setup env (
      (set_instance 12, env ((device_init, env [] device_init) ∷ []) (set_instance 12))
      ∷ (device_init, env [] device_init)
      ∷ [])).1

allowance_le : (rate m n : ℕ) → m ≤ n → allowance rate m ≤ allowance rate n
allowance_le rate m n h = omega (arith, h, mul-le-mul_left rate (div_le m n h))

started-seconds : (env : Env Call) → seconds (started env) ≡ 0
unfolding setup
started-seconds env = omega arith

-- Over a clock that never goes back, of which the task reads the low 32 bits: after any number of
-- turns, the timers have run no more often than once in `rate` ticks, but for one run more at each
-- time that those 32 bits wrapped.
pub bacnet_task-seconds :
    (n rate : ℕ) (env : Env Call) (clock : Trace Call → ℕ)
    → IsClock env clock
    → seconds (bacnet_task n rate env []).1 * rate + allowance rate (clock (started env))
      ≤ allowance rate (clock (bacnet_task n rate env []).1)
unfolding bacnet_task
bacnet_task-seconds n rate env clock is =
    let t = started env in
    let first = allowance rate (clock t) in
    let none_yet : seconds ((tick_count, env t tick_count) ∷ t) ≡ 0 =
      omega (arith, started-seconds env) in
    let end =
      task_loop-Allowed env clock is rate first n (pos_part (env t tick_count).ret)
        ((tick_count, env t tick_count) ∷ t)
        (clock t, is.later tick_count t, ap pos_part (is.low_bits t), rw none_yet (omega arith)) in
    omega (arith, end.3, allowance_le rate end.0 (clock (bacnet_task n rate env []).1) end.1)

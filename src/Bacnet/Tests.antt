-- ===== src/Bacnet/Tests.antt =====
-- The theorems on the BACnet server, applied to runs.
use esp_network_examples.Prelude.{
  ℕ, ◌+◌, ◌*◌, ◌%◌, ◌^◌, ◌≤◌, pos, true, [], ◌≡◌, refl, arith, length,
}
use esp_network_examples.Os.{Answer, Env, other}
use esp_network_examples.Bacnet.Calls.{Call, tick_count, receive, present_value}
use esp_network_examples.Bacnet.{is_due, bacnet_task}
use esp_network_examples.Bacnet.Timers.{seconds, allowance, IsClock, started, bacnet_task-seconds}

abbrev answer : ℕ → Answer
answer n = record { ret = pos n; errno = other; bytes = [] }

-- A tick for each call, and a packet in each turn that switches the output on.
abbrev ticking : Env Call
ticking t tick_count = answer (length t % 2 ^ 32)
ticking t receive = answer 20
ticking t present_value = answer 1
ticking t _ = answer 0

ticking-IsClock : IsClock ticking length
ticking-IsClock = record { later = λ c t. omega arith; low_bits = λ t. refl }

bacnet_task-seconds_example :
    seconds (bacnet_task 5 10 ticking []).1 * 10 + allowance 10 (length (started ticking))
    ≤ allowance 10 (length (bacnet_task 5 10 ticking []).1)
bacnet_task-seconds_example = bacnet_task-seconds 5 10 ticking length ticking-IsClock

-- The timers do run in these turns, and the LED is on.
seconds_lem : seconds (bacnet_task 5 10 ticking []).1 ≡ 4
unfolding bacnet_task esp_network_examples.Bacnet.setup esp_network_examples.Bacnet.task_loop
    esp_network_examples.Bacnet.serve_once esp_network_examples.Bacnet.if_due
    esp_network_examples.Bacnet.run_timers esp_network_examples.Bacnet.serve_packet
    esp_network_examples.Bacnet.handle_packet
seconds_lem = refl

-- A tick behind a run of the timers they run again, if the counter wraps in between.
is_due_lem : is_due 100 0 4294967295 ≡ true
is_due_lem = refl

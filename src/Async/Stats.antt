-- ===== src/Async/Stats.antt =====
-- async-server/server/main/server.c: what the timer prints about the tasks and the heap, and the
-- start of the server.
pub mod Percent
use esp_network_examples.Prelude.{
  ℕ, zero, suc, ◌/◌, Bool, true, false, List, [], ◌∷◌, ◌++◌, Option, none, some, map, take, ltb,
  if◌then◌else◌, codes,
}
use esp_network_examples.Async.{decimal}

pub data TaskState : Type 0 where
  running ready blocked suspended deleted invalid : TaskState

-- `TaskStatus_t`
pub record TaskStatus : Type 0 where
  pub task_name : List ℕ
  pub state : TaskState
  pub priority : ℕ
  pub stack_high_water_mark : ℕ
  pub run_time_counter : ℕ

unfoldable pub state_str : TaskState → List ℕ
state_str running = codes "RUN"
state_str ready = codes "RDY"
state_str blocked = codes "BLK"
state_str suspended = codes "SUS"
state_str deleted = codes "DEL"
state_str invalid = codes "UNK"

-- The share of a task, where the first argument is a hundredth of the run time.
unfoldable pub stats_as_percentage : ℕ → ℕ → ℕ
stats_as_percentage div100 counter = if ltb 0 div100 then counter / div100 else 0

-- `%lu%%`
abbrev pub percent_text : ℕ → List ℕ
percent_text percentage = decimal 20 percentage ++ codes "%"

-- What `snprintf` leaves in the 12 bytes, without the NUL.
unfoldable pub cpu_str : ℕ → List ℕ
cpu_str percentage = take 11 (if ltb 0 percentage then percent_text percentage else codes "<1%")

-- A line of the table.
pub record Row : Type 0 where
  pub name : List ℕ
  pub state_text : List ℕ
  pub prio : ℕ
  pub stack : ℕ
  pub cpu : List ℕ

unfoldable pub row_of : ℕ → TaskStatus → Row
row_of total task = record {
  name = task.task_name;
  state_text = state_str task.state;
  prio = task.priority;
  stack = task.stack_high_water_mark;
  cpu = cpu_str (stats_as_percentage (total / 100) task.run_time_counter);
}

-- What FreeRTOS and the heap say: whether the array could be allocated, and the tasks that were
-- written to it, with the run time of all.
pub record System : Type 0 where
  pub is_allocated : Bool
  pub tasks : List TaskStatus
  pub total_run_time : ℕ
  pub free_heap : ℕ
  pub min_free_heap : ℕ

-- The table, if there is one, and the line about the heap.
unfoldable pub stats_timer_callback : System → Option (List Row) × (ℕ × ℕ)
stats_timer_callback sys = (
  if sys.is_allocated then some (map (row_of sys.total_run_time) sys.tasks) else none,
  (sys.free_heap, sys.min_free_heap),
)

-- ===== src/Async/Stats/Percent.antt =====
-- The percentages that async-server/server/main/server.c shows.
use native.Mathlib.Nat.{
  mul-lt-mul_of_pos_left, div-le_self, mul-div-le, div-lt_iff_lt-mul, le-div_iff_mul-le,
}
use esp_network_examples.Prelude.{
  ℕ, zero, suc, ◌+◌, ◌-◌, ◌*◌, ◌/◌, ◌%◌, ◌^◌, ◌≤◌, ◌<◌, Bool, true, ◌&&◌, List, [], ◌∷◌, ◌++◌,
  Option, none, some, map, ◌≡◌, inl, inr, refl, ap, ◌∙◌, arith, append_assoc, length, take_all, ltb,
  leb, ◌==◌, ltb→lt, lt→ltb, length-append, Bool-cases, if◌then◌else◌, codes,
}
use esp_network_examples.Async.{decimal}
use esp_network_examples.Async.Stats.{
  TaskStatus, Row, row_of, System, stats_timer_callback, stats_as_percentage, percent_text, cpu_str,
}

abbrev pub sum : List ℕ → ℕ
sum [] = 0
sum (n ∷ ns) = n + sum ns

abbrev pub counters : List TaskStatus → List ℕ
counters tasks = map (λ task. task.run_time_counter) tasks

-- What `row_of` shows of each task.
abbrev pub shares : ℕ → List TaskStatus → List ℕ
shares total tasks = map (λ task. stats_as_percentage (total / 100) task.run_time_counter) tasks

share_bound : (d counter : ℕ) → d * stats_as_percentage d counter ≤ counter
unfolding stats_as_percentage
share_bound d counter = elim (Bool-cases (ltb 0 d)) [
  | inl e ↦ rw e (mul-div-le counter d)
  | inr e ↦ rw e (omega arith)
]

times_add : (d a b x y : ℕ) → d * a ≤ x → d * b ≤ y → d * (a + b) ≤ x + y
times_add d a b x y h k = omega arith

shares_bound :
    (total : ℕ) (tasks : List TaskStatus)
    → (total / 100) * sum (shares total tasks) ≤ sum (counters tasks)
shares_bound total [] = omega arith
shares_bound total (task ∷ tasks) =
    let this = share_bound (total / 100) task.run_time_counter in
    let rest = shares_bound total tasks in
    times_add (total / 100) _ _ task.run_time_counter (sum (counters tasks)) this rest

-- What the percentages add up to at most on so many cores: 199 and 100 on one, 399 and 201 on two.
abbrev pub bound : ℕ → ℕ → ℕ
bound cores total = (if ltb total 10000 then 200 else 101) * cores - 1

no_shares : (tasks : List TaskStatus) (total : ℕ) → total / 100 ≡ 0 → sum (shares total tasks) ≡ 0
unfolding stats_as_percentage
no_shares [] total h = refl
no_shares (task ∷ tasks) total h =
    let rest = no_shares tasks total h in rw h (omega (arith, (rw h at rest)))

less_than : (d total p m : ℕ) → 0 < d → d * p ≤ total → total < m * d → p < m
less_than d total p m h k l =
    let low : p ≤ total / d = (le-div_iff_mul-le h).1 (omega arith) in
    let high : total / d < m = (div-lt_iff_lt-mul h).1 l in omega (arith, low, high)

below_times :
    (cores d total p m : ℕ) → 0 < d → d * p ≤ cores * total → total < m * d → p ≤ m * cores - 1
below_times zero d total p m h k l =
    let below = less_than d 0 p 1 h (omega arith) (omega arith) in omega (arith, below)
below_times (suc c) d total p m h k l =
    let wide : suc c * total < suc c * (m * d) = mul-lt-mul_of_pos_left l (omega arith) in
    let same : suc c * (m * d) ≡ m * suc c * d = omega arith in
    let below = less_than d (suc c * total) p (m * suc c) h k (omega (arith, wide, same)) in
    omega (arith, below)

quotient_bound :
    (cores d total p : ℕ) → d ≡ total / 100 → 0 < d → d * p ≤ cores * total → p ≤ bound cores total
quotient_bound cores d total p e h k = elim (Bool-cases (ltb total 10000)) [
  | inl few ↦ rw few (below_times cores d total p 200 h k (omega arith))
  | inr many ↦ rw many (below_times cores d total p 101 h k (ground arith))
]

shares_bounded :
    (cores total : ℕ) (tasks : List TaskStatus)
    → sum (counters tasks) ≤ cores * total
    → sum (shares total tasks) ≤ bound cores total
shares_bounded cores total tasks h = elim (Bool-cases (ltb 0 (total / 100))) [
  | inl some_time ↦
      let all = shares_bound total tasks in
      quotient_bound cores (total / 100) total (sum (shares total tasks)) refl (ground arith)
        (omega (arith, all))
  | inr no_time ↦
      let none_shown = no_shares tasks total (ground arith) in rw none_shown (omega arith)
]

-- Reading a text back: digits up to a percent sign that ends it.
abbrev is_digit : ℕ → Bool
is_digit c = leb 48 c && leb c 57

abbrev at_end : ℕ → List ℕ → Option ℕ
at_end n [] = some n
at_end n _ = none

abbrev pub scan_percent : ℕ → List ℕ → Option ℕ
scan_percent n [] = none
scan_percent n (c ∷ cs) =
    let rest = scan_percent (n * 10 + (c - 48)) cs in
    if is_digit c then rest else if c == 37 then at_end n cs else none

is_digit_lem : (c : ℕ) → c < 10 → is_digit (48 + c) ≡ true
is_digit_lem c h = ground arith

digit_scan :
    (n c : ℕ) (cs : List ℕ) → c < 10 → scan_percent n ((48 + c) ∷ cs) ≡ scan_percent (n * 10 + c) cs
digit_scan n c cs h = rw (is_digit_lem c h) (ap (λ d. scan_percent (n * 10 + d) cs) (omega arith))

scan_percent-decimal :
    (k n : ℕ) (rest : List ℕ)
    → n < 10 ^ k
    → scan_percent 0 (decimal k n ++ rest) ≡ scan_percent n rest
scan_percent-decimal zero n rest h = let e : n ≡ 0 = omega arith in rw e refl
scan_percent-decimal (suc k) n rest h = elim (Bool-cases (ltb n 10)) [
  | inl small ↦
      rw small
        (digit_scan 0 n rest (ltb→lt n 10 small) ∙ ap (λ m. scan_percent m rest) (omega arith))
  | inr large ↦ rw large (
      ap (scan_percent 0) (append_assoc (decimal k (n / 10)) ((48 + n % 10) ∷ []) rest)
      ∙ scan_percent-decimal k (n / 10) ((48 + n % 10) ∷ rest) (omega arith)
      ∙ digit_scan (n / 10) (n % 10) rest (omega arith)
      ∙ ap (λ m. scan_percent m rest) (omega arith))
]

length-decimal : (k m n : ℕ) → n < 10 ^ suc m → length (decimal k n) ≤ suc m
length-decimal zero m n h = omega arith
length-decimal (suc k) zero n h = let small = lt→ltb n 10 (omega arith) in rw small (omega arith)
length-decimal (suc k) (suc m) n h = elim (Bool-cases (ltb n 10)) [
  | inl small ↦ rw small (omega arith)
  | inr large ↦ rw large (
      let left = length-decimal k m (n / 10) (omega arith) in
      omega (arith, left, length-append (decimal k (n / 10)) ((48 + n % 10) ∷ [])))
]

-- For each percentage that fits in 32 bits, the text of 12 bytes is not cut: it reads back as the
-- percentage, up to its sign, and only for 0 it is not a number.
pub scan_percent-cpu_str :
    (percentage : ℕ)
    → percentage < 2 ^ 32
    → scan_percent 0 (cpu_str percentage) ≡ (if ltb 0 percentage then some percentage else none)
unfolding cpu_str
scan_percent-cpu_str percentage h = elim (Bool-cases (ltb 0 percentage)) [
  | inl e ↦ rw e (
      let short = length-decimal 20 9 percentage (omega arith) in
      ap (scan_percent 0) (
        take_all 11 (percent_text percentage)
          (omega (arith, short, length-append (decimal 20 percentage) (codes "%"))))
      ∙ scan_percent-decimal 20 percentage (codes "%") (omega arith))
  | inr e ↦ rw e refl
]

-- The number that a line shows; a text that is not a number counts as 0.
abbrev pub number_or_0 : Option ℕ → ℕ
number_or_0 none = 0
number_or_0 (some n) = n

abbrev pub shown_percent : Row → ℕ
shown_percent row = number_or_0 (scan_percent 0 row.cpu)

abbrev pub rows_of : Option (List Row) → List Row
rows_of none = []
rows_of (some rows) = rows

shown_percent-cpu_str :
    (percentage : ℕ)
    → percentage < 2 ^ 32
    → number_or_0 (scan_percent 0 (cpu_str percentage)) ≡ percentage
shown_percent-cpu_str percentage h =
    rw (scan_percent-cpu_str percentage h)
      (elim (Bool-cases (ltb 0 percentage)) [ inl e ↦ rw e refl | inr e ↦ rw e (ground arith) ])

share_le : (d counter : ℕ) → stats_as_percentage d counter ≤ counter
unfolding stats_as_percentage
share_le d counter = elim (Bool-cases (ltb 0 d)) [
  | inl e ↦ rw e (div-le_self counter d)
  | inr e ↦ rw e (omega arith)
]

sum-shown_percent :
    (total : ℕ) (tasks : List TaskStatus)
    → sum (counters tasks) < 2 ^ 32
    → sum (map shown_percent (map (row_of total) tasks)) ≡ sum (shares total tasks)
unfolding row_of
sum-shown_percent total [] h = refl
sum-shown_percent total (task ∷ tasks) h =
    let this =
      shown_percent-cpu_str (stats_as_percentage (total / 100) task.run_time_counter)
        (omega (arith, share_le (total / 100) task.run_time_counter)) in
    let rest = sum-shown_percent total tasks (omega arith) in omega (arith, this, rest)

-- Where each of the cores runs one task at a time, so that the counters of the tasks add up to at
-- most the total run time of each core, and where their sum fits in 32 bits: the percentages of the
-- table add up to less than 200 for each core, and from 10000 ticks on to less than 101 for each.
pub stats_timer_callback-bounded :
    (cores : ℕ) (sys : System)
    → sum (counters sys.tasks) ≤ cores * sys.total_run_time
    → sum (counters sys.tasks) < 2 ^ 32
    → sum (map shown_percent (rows_of (stats_timer_callback sys).0))
      ≤ bound cores sys.total_run_time
unfolding stats_timer_callback
stats_timer_callback-bounded cores sys h k = elim (Bool-cases sys.is_allocated) [
  | inl e ↦ rw e (
      let texts = sum-shown_percent sys.total_run_time sys.tasks (omega arith) in
      let low = shares_bounded cores sys.total_run_time sys.tasks h in rw texts low)
  | inr e ↦ rw e (ground arith)
]

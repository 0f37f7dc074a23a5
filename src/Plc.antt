-- ===== src/Plc.antt =====
-- plctag/simple/main/simple.c: reads an array of a PLC, adds one to each element and writes it
-- back; and its stand-in for `nanosleep`. libplctag and `usleep` are parameters.
pub mod Laws
mod Tests
use esp_network_examples.Prelude.{
  ℕ, zero, suc, ◌+◌, ◌*◌, ◌/◌, ◌%◌, ◌^◌, ℤ, pos, negsuc, is_neg, is_zero, pos_part, Bool, true,
  false, ◌||◌, Option, none, some, leb, if◌then◌else◌, List, [], ◌∷◌,
}
use esp_network_examples.Os.{Env, Io, ask, return, ◌>>=◌, ◌>>◌}

pub data Call : Type 0 where
  check_version create : Call
  read_tag write_tag destroy get_elem_size get_elem_count : ℤ → Call
  get_int32 : ℤ → ℤ → Call
  set_int32 : ℤ → ℤ → ℤ → Call

-- `-n`
abbrev pub minus : ℕ → ℤ
minus zero = pos 0
minus (suc n) = negsuc n

-- `i*elem_size`
abbrev pub offset : ℕ → ℤ → ℤ
offset i (pos n) = pos (i * n)
offset i (negsuc n) = minus (i * suc n)

-- `val+1`, without the overflow of 32 bits, whose result C leaves open
abbrev pub plus_one : ℤ → ℤ
plus_one (pos n) = pos (n + 1)
plus_one (negsuc zero) = pos 0
plus_one (negsuc (suc n)) = negsuc n

-- Prints so many elements from `i` on.
unfoldable pub print_from : Env Call → ℤ → ℤ → ℕ → ℕ → Io Call (Unit {0})
print_from env tag size i zero = return tt
print_from env tag size i (suc n) = do
  _ ← ask env (get_int32 tag (offset i size))
  print_from env tag size (i + 1) n

-- Adds one to so many elements from `i` on.
unfoldable pub update_from : Env Call → ℤ → ℤ → ℕ → ℕ → Io Call (Unit {0})
update_from env tag size i zero = return tt
update_from env tag size i (suc n) = do
  a ← ask env (get_int32 tag (offset i size))
  _ ← ask env (set_int32 tag (offset i size) (plus_one a.ret))
  update_from env tag size (i + 1) n

-- The result of `libplctag_main`, or its exit.
pub data Result : Type 0 where
  exited : Result
  returned : ℕ → Result

abbrev pub destroy_and : ℕ → Env Call → ℤ → Io Call Result
destroy_and n env tag = do _ ← ask env (destroy tag); return (returned n)

-- Behind the write.
unfoldable pub read_back : Env Call → ℤ → ℤ → ℕ → Io Call Result
read_back env tag size count = ask env (read_tag tag) >>= λ r.
    if is_zero r.ret
    then print_from env tag size 0 count >> destroy_and 0 env tag
    else destroy_and 1 env tag

unfoldable pub write_back : Env Call → ℤ → ℤ → ℕ → Io Call Result
write_back env tag size count = ask env (write_tag tag) >>= λ w.
    if is_zero w.ret then read_back env tag size count else destroy_and 1 env tag

-- Behind the first read. A negative count has no elements.
unfoldable pub update_tag : Env Call → ℤ → Io Call Result
update_tag env tag = do
  size ← ask env (get_elem_size tag)
  count ← ask env (get_elem_count tag)
  print_from env tag size.ret 0 (pos_part count.ret)
  update_from env tag size.ret 0 (pos_part count.ret)
  write_back env tag size.ret (pos_part count.ret)

unfoldable pub use_tag : Env Call → ℤ → Io Call Result
use_tag env tag = ask env (read_tag tag) >>= λ r.
    if is_zero r.ret then update_tag env tag else destroy_and 1 env tag

unfoldable pub create_tag : Env Call → Io Call Result
create_tag env =
    ask env create >>= λ a. if is_neg a.ret then return (returned 1) else use_tag env a.ret

unfoldable pub libplctag_main : Env Call → Io Call Result
libplctag_main env =
    ask env check_version >>= λ v. if is_zero v.ret then create_tag env else return exited

-- `struct timespec`
pub record Timespec : Type 0 where
  pub tv_sec : ℤ
  pub tv_nsec : ℤ

-- The microseconds, in the 32 bits of a `long`, as `usleep` takes it.
abbrev pub microseconds : ℕ → ℕ → ℕ
microseconds sec nsec = (sec * 1000000 + nsec / 1000) % 2 ^ 32

-- What `usleep` is asked for, `none` if the request is refused with -1.
unfoldable pub sleep_of : ℤ → ℤ → Option ℕ
sleep_of (pos sec) (pos nsec) = if leb 1000000000 nsec then none else some (microseconds sec nsec)
sleep_of _ _ = none

abbrev asked : (ℕ → ℤ) → Option ℕ → ℤ
asked usleep none = negsuc 0
asked usleep (some n) = usleep n

-- The request is `none` for NULL; the time left is not told.
unfoldable pub nanosleep : (ℕ → ℤ) → Option Timespec → ℤ
nanosleep usleep none = negsuc 0
nanosleep usleep (some rqtp) = asked usleep (sleep_of rqtp.tv_sec rqtp.tv_nsec)

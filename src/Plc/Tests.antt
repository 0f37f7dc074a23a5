-- ===== src/Plc/Tests.antt =====
-- The theorems on the tag program, applied to runs.
use esp_network_examples.Prelude.{pos, negsuc, some, [], ◌≡◌, arith}
use esp_network_examples.Os.{Env, other}
use esp_network_examples.Plc.{Call, create, get_elem_count, write_tag, libplctag_main, sleep_of}
use esp_network_examples.Plc.Laws.{
  creations, destructions, libplctag_main-Balanced, sleep_of-microseconds,
}

-- The write fails.
abbrev read_only : Env Call
read_only t create = record { ret = pos 6; errno = other; bytes = [] }
read_only t (get_elem_count tag) = record { ret = pos 10; errno = other; bytes = [] }
read_only t (write_tag tag) = record { ret = negsuc 4; errno = other; bytes = [] }
read_only t _ = record { ret = pos 0; errno = other; bytes = [] }

libplctag_main-Balanced_example :
    creations 6 (libplctag_main read_only []).1 ≡ destructions 6 (libplctag_main read_only []).1
libplctag_main-Balanced_example = libplctag_main-Balanced read_only 6

short_sleep : sleep_of (pos 2) (pos 500001999) ≡ some 2500001
short_sleep = sleep_of-microseconds 2 500001999 (omega arith) (omega arith)

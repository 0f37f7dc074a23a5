-- ===== src/Async/Threads/Invariant.antt =====
-- The invariant of the threads of async-server/server/main/async_server_pthread.c.
use esp_network_examples.Prelude.{
  ℕ, Bool, true, false, ◌||◌, List, [], ◌∷◌, ◌++◌, Option, none, some, ◌≡◌, refl, length, drop, All,
}
use esp_network_examples.Async.{header}
use esp_network_examples.Async.Threads.{
  Stage, at_header, at_offset, Client, Loop, accepting, left, WebServer, Scheduled, goes_on,
  freed_read, null_written, Turn, accepted, no_memory, accept_failed,
}

-- What a thread has sent, and what it has still to send, are the header and the file.
abbrev pub Sending : List ℕ → ℕ → List ℕ → Stage → Type 0
Sending bytes size sent at_header = sent ≡ []
Sending bytes size sent (at_offset offset) = sent ++ drop offset bytes ≡ header size ++ bytes

-- A client of a server of `bytes`, and one that was sent all.
abbrev pub ClientHolds : List ℕ → Client → Type 0
ClientHolds bytes c = (c.file_size ≡ length bytes) × Sending bytes (length bytes) c.sent c.progress

abbrev pub IsServed : List ℕ → Client → Type 0
IsServed bytes c = c.sent ≡ header (length bytes) ++ bytes

-- The file is there until it is freed.
abbrev pub Keeps : List ℕ → Option (List ℕ) → Loop → Type 0
Keeps bytes file left = file ≡ none
Keeps bytes file _ = file ≡ some bytes

-- A server of `bytes`: each thread sends the file, and each that ended has sent it.
abbrev pub ServerHolds : List ℕ → WebServer → Type 0
ServerHolds bytes s =
    (s.fsize ≡ length bytes)
    × Keeps bytes s.file_data s.loop
    × All (ClientHolds bytes) s.clients
    × All (IsServed bytes) s.ended

abbrev pub is_over : Loop → Bool
is_over accepting = false
is_over _ = true

abbrev pub has_failed : Turn → Bool
has_failed accept_failed = true
has_failed _ = false

abbrev pub any_failed : List Turn → Bool
any_failed [] = false
any_failed (turn ∷ turns) = has_failed turn || any_failed turns

-- `malloc` gives no memory for a client.
abbrev pub has_none : Turn → Bool
has_none (accepted no_memory fd) = true
has_none _ = false

abbrev pub any_none : List Turn → Bool
any_none [] = false
any_none (turn ∷ turns) = has_none turn || any_none turns

-- Behind a turn, and behind a schedule: freed memory is read only if `accept` has failed, and a null
-- pointer is written only if `malloc` gave no memory.
abbrev pub Stepped : List ℕ → Bool → Bool → Bool → Scheduled → Type 0
Stepped bytes over failed without freed_read = over ≡ true
Stepped bytes over failed without null_written = without ≡ true
Stepped bytes over failed without (goes_on s) =
    ServerHolds bytes s × (is_over s.loop ≡ (over || failed))

abbrev pub RunHolds : List ℕ → Bool → Bool → Scheduled → Type 0
RunHolds bytes failed without freed_read = failed ≡ true
RunHolds bytes failed without null_written = without ≡ true
RunHolds bytes failed without (goes_on s) = ServerHolds bytes s

pub or-false : (b : Bool) → b ≡ (b || false)
or-false true = refl
or-false false = refl

pub or_assoc : (a b c : Bool) → ((a || b) || c) ≡ (a || (b || c))
or_assoc true b c = refl
or_assoc false b c = refl

-- ===== src/Os/Tasks.antt =====
-- Clients that connect, use a socket and connect again, without an end of their own.
use esp_network_examples.Prelude.{ℕ, zero, suc, ℤ}
use esp_network_examples.Os.{Io, Trace, return, ◌>>=◌}
use esp_network_examples.Os.Descriptors.{Opening, one, Balanced}

-- How a client stands: its loop is left, with the socket that it still holds, or without; it uses a
-- socket; or another connection is due.
pub data Task : Type 0 where
  left_with in_use : ℤ → Task
  no_socket restart : Task

abbrev pub if_restart : {C : Type 0} → Io C Task → Task → Io C Task
if_restart next restart = next
if_restart next task = return task

-- So many turns of the loop, unless it is left before.
unfoldable pub turns : {C : Type 0} → ℕ → Io C Task → Io C Task
turns zero body = return restart
turns (suc n) body = body >>= if_restart (turns n body)

abbrev pub holds : ℕ → Task → ℕ
holds d (left_with fd) = one d fd
holds d (in_use fd) = one d fd
holds d no_socket = 0
holds d restart = 0

module _ {C : Type 0} (o : Opening C) (d : ℕ) where
  abbrev pub TaskBalanced : Task × Trace C → Type 0
  TaskBalanced (task, t) = Balanced o d (holds d task) t

  if_restart-Balanced :
      (next : Io C Task)
      → ((t : Trace C) → Balanced o d 0 t → TaskBalanced (next t))
      → (task : Task) (t : Trace C) → TaskBalanced (task, t)
      → TaskBalanced (if_restart next task t)
  if_restart-Balanced next keep restart t h = keep t h
  if_restart-Balanced next keep no_socket t h = h
  if_restart-Balanced next keep (left_with fd) t h = h
  if_restart-Balanced next keep (in_use fd) t h = h

  pub turns-Balanced :
      (body : Io C Task)
      → ((t : Trace C) → Balanced o d 0 t → TaskBalanced (body t))
      → (n : ℕ) (t : Trace C) → Balanced o d 0 t
      → TaskBalanced (turns n body t)
  unfolding turns
  turns-Balanced body keep zero t h = h
  turns-Balanced body keep (suc n) t h =
      if_restart-Balanced (turns n body) (turns-Balanced body keep n) (body t).0 (body t).1
        (keep t h)

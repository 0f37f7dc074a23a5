-- ===== src/Ssh/Calls.antt =====
-- The calls that libssh/tests/simple_ssh_server.c makes in libssh, and what libssh is to it.
use esp_network_examples.Prelude.{
  ℕ, zero, suc, ℤ, pos, negsuc, Bool, true, false, List, Option, none, some,
}
use esp_network_examples.Os.{Env, Trace}

-- `SSH_BIND_OPTIONS_*`
pub data BindOption : Type 0 where
  bind_addr bind_port_str log_verbosity_str host_key : BindOption

-- Sessions, events, channels and the `ssh_bind` object are numbers above 0, as a pointer that is
-- not NULL.
pub data Call : Type 0 where
  library_init bind_new : Call
  bind_listen bind_free : ℕ → Call
  options_set : ℕ → BindOption → List ℕ → Call
  session_new event_new channel_new : Call
  bind_accept key_exchange set_auth_methods disconnect session_free event_free : ℕ → Call
  channel_free dopoll : ℕ → Call
  event_add : ℕ → ℕ → Call
  is_open : Option ℕ → Call

-- NULL is `none`.
abbrev pub pointer : ℤ → Option ℕ
pointer (pos (suc n)) = some (suc n)
pointer _ = none

-- `rc == SSH_ERROR`, which is -1
abbrev pub is_ssh_error : ℤ → Bool
is_ssh_error (negsuc zero) = true
is_ssh_error _ = false

-- The callbacks that change the globals: a request without and with a password, and to open a
-- channel.
pub data Event : Type 0 where
  none_request : Event
  password_request : List ℕ → List ℕ → Event
  open_request : Event

-- libssh: what it answers, and the callbacks that it makes in the course of the next poll.
pub record Libssh : Type 0 where
  pub env : Env Call
  pub callbacks : Trace Call → List Event

-- ===== src/Ssh.antt =====
-- libssh/tests/simple_ssh_server.c: an SSH server for one client at a time, with password
-- authentication and a shell that echoes. libssh is a parameter; it makes the callbacks of
-- authentication and of the channel while the server polls.
pub mod Calls
pub mod Auth
pub mod Shell
pub mod Resources
pub mod Polling
pub mod Session
pub mod Waiting
pub mod Arguments
pub mod Listening
mod Tests
use esp_network_examples.Prelude.{
  ℕ, zero, suc, ◌+◌, is_zero, Bool, true, false, not, ◌&&◌, ◌||◌, List, [], ◌∷◌, Option, none, some,
  leb, if◌then◌else◌, codes, text_eq,
}
use esp_network_examples.Os.{Env, Io, ask, return, ◌>>=◌, ◌>>◌}
use esp_network_examples.Ssh.Calls.{
  Call, session_new, event_new, channel_new, bind_accept, key_exchange, set_auth_methods,
  disconnect, session_free, event_free, channel_free, dopoll, event_add, is_open, pointer,
  is_ssh_error, Event, none_request, password_request, open_request, Libssh,
}

-- The three global variables.
pub record Server : Type 0 where
  pub authenticated : Bool
  pub tries : ℕ
  pub channel : Option ℕ

abbrev pub initial : Server
initial = record { authenticated = false; tries = 0; channel = none }

-- `SSH_AUTH_SUCCESS`, `SSH_AUTH_DENIED`
pub data AuthResult : Type 0 where
  success denied : AuthResult

-- `strcmp(user, DEFAULT_USERNAME) == 0 && strcmp(password, DEFAULT_PASSWORD) == 0`
abbrev pub is_default : List ℕ → List ℕ → Bool
is_default user word = text_eq user (codes "testuser") && text_eq word (codes "testpass")

unfoldable pub auth_none : Env Call → ℕ → Server → Io Call (Server × AuthResult)
auth_none env i s = do _ ← ask env (set_auth_methods i); return (s, denied)

-- Behind `tries++`.
unfoldable pub refuse : Env Call → ℕ → Server → Io Call (Server × AuthResult)
refuse env i s =
    if leb 3 s.tries
    then (do _ ← ask env (disconnect i); return (s, denied))
    else return (s, denied)

unfoldable pub auth_password :
    Env Call → ℕ → List ℕ → List ℕ → Server → Io Call (Server × AuthResult)
auth_password env i user word s =
    if is_default user word
    then return (record s { authenticated = true }, success)
    else refuse env i (record s { tries = s.tries + 1 })

-- A second channel is refused.
unfoldable pub open_beside : Option ℕ → Env Call → Server → Io Call (Server × Option ℕ)
open_beside (some c) env s = return (s, none)
open_beside none env s = do
  a ← ask env channel_new
  return (record s { channel = pointer a.ret }, pointer a.ret)

unfoldable pub channel_open : Env Call → Server → Io Call (Server × Option ℕ)
channel_open env s = open_beside s.channel env s

-- What a callback leaves in the globals, for the client of session `i`.
unfoldable pub handle : Env Call → ℕ → Event → Server → Io Call Server
handle env i none_request s = auth_none env i s >>= λ p. return p.0
handle env i (password_request user word) s = auth_password env i user word s >>= λ p. return p.0
handle env i open_request s = channel_open env s >>= λ p. return p.0

unfoldable pub handle_all : Env Call → ℕ → List Event → Server → Io Call Server
handle_all env i [] s = return s
handle_all env i (e ∷ es) s = handle env i e s >>= handle_all env i es

-- `ssh_event_dopoll`: the callbacks, and whether the answer is not SSH_ERROR.
unfoldable pub poll : Libssh → ℕ → ℕ → Server → Io Call (Server × Bool)
poll lib i timeout s t =
    (handle_all lib.env i (lib.callbacks t) s >>= λ s'.
    ask lib.env (dopoll timeout) >>= λ a. return (s', not (is_ssh_error a.ret)))
      t

abbrev pub has_channel : Option ℕ → Bool
has_channel none = false
has_channel (some c) = true

abbrev pub is_ready : Server → Bool
is_ready s = s.authenticated && has_channel s.channel

-- Goes on, if the poll went well.
abbrev pub if_polled : (Server → Io Call Server) → Server × Bool → Io Call Server
if_polled next (s, true) = next s
if_polled next (s, false) = return s

-- Waits for authentication and a channel; the first argument is `100 - n`.
unfoldable pub wait_loop : ℕ → Libssh → ℕ → Server → Io Call Server
wait_loop zero lib i s = return s
wait_loop (suc left) lib i s =
    if is_ready s || leb 3 s.tries
    then return s
    else poll lib i 100 s >>= if_polled (wait_loop left lib i)

-- The loop over an open channel may go on for ever: after some polls it is over or still going.
pub data Progress : Type 0 where
  over : Server → Progress
  going : Server → Progress

abbrev pub if_polled_on : (Server → Io Call Progress) → Server × Bool → Io Call Progress
if_polled_on next (s, true) = next s
if_polled_on next (s, false) = return (over s)

-- So many polls of an open channel, unless it closes before.
unfoldable pub channel_loop : ℕ → Libssh → ℕ → Server → Io Call Progress
channel_loop zero lib i s = return (going s)
channel_loop (suc n) lib i s = ask lib.env (is_open s.channel) >>= λ a.
    if is_zero a.ret
    then return (over s)
    else poll lib i 1000 s >>= if_polled_on (channel_loop n lib i)

abbrev pub if_channel : Option ℕ → ℕ → Libssh → ℕ → Server → Io Call Progress
if_channel none n lib i s = return (over s)
if_channel (some c) n lib i s = channel_loop n lib i s

unfoldable pub free_channel : Env Call → Option ℕ → Io Call (Unit {0})
free_channel env none = return tt
free_channel env (some c) = do _ ← ask env (channel_free c); return tt

-- How the server stands: behind a client, with its globals, or serving a client whose session and
-- event it holds.
pub data Outcome : Type 0 where
  ended : Server → Outcome
  serving : ℕ → ℕ → Server → Outcome

abbrev pub drop_session : Env Call → ℕ → Server → Io Call Outcome
drop_session env i s = do _ ← ask env (disconnect i); _ ← ask env (session_free i); return (ended s)

-- The clean-up of a client.
unfoldable pub close_session : Env Call → ℕ → ℕ → Progress → Io Call Outcome
close_session env i e (going s) = return (serving i e s)
close_session env i e (over s) = do
  free_channel env s.channel
  _ ← ask env (event_free e)
  drop_session env i initial

unfoldable pub converse : ℕ → Libssh → ℕ → ℕ → Server → Io Call Outcome
converse n lib i e s =
    wait_loop 100 lib i s >>= (λ s'. if_channel s'.channel n lib i s') >>= close_session lib.env i e

unfoldable pub with_event : ℕ → Libssh → ℕ → Server → Option ℕ → Io Call Outcome
with_event n lib i s none = drop_session lib.env i s
with_event n lib i s (some e) = ask lib.env (event_add e i) >>= λ a.
    if is_zero a.ret
    then converse n lib i e s
    else (do _ ← ask lib.env (event_free e); drop_session lib.env i s)

-- A client that was accepted.
unfoldable pub with_client : ℕ → Libssh → ℕ → Server → Io Call Outcome
with_client n lib i s = ask lib.env (key_exchange i) >>= λ a.
    if is_zero a.ret
    then (do
      _ ← ask lib.env (set_auth_methods i)
      e ← ask lib.env event_new
      with_event n lib i s (pointer e.ret))
    else drop_session lib.env i s

unfoldable pub with_session : ℕ → Libssh → Server → Option ℕ → Io Call Outcome
with_session n lib s none = return (ended s)
with_session n lib s (some i) = ask lib.env (bind_accept i) >>= λ a.
    if is_zero a.ret
    then with_client n lib i s
    else (do _ ← ask lib.env (session_free i); return (ended s))

-- One turn of the accept loop, which polls an open channel at most so many times.
unfoldable pub serve_client : ℕ → Libssh → Server → Io Call Outcome
serve_client n lib s = ask lib.env session_new >>= λ a. with_session n lib s (pointer a.ret)

abbrev pub next_client : (Server → Io Call Outcome) → Outcome → Io Call Outcome
next_client next (ended s) = next s
next_client next (serving i e s) = return (serving i e s)

-- So many turns of the accept loop, unless a client stays.
unfoldable pub accept_loop : ℕ → ℕ → Libssh → Server → Io Call Outcome
accept_loop zero n lib s = return (ended s)
accept_loop (suc turns) n lib s = serve_client n lib s >>= next_client (accept_loop turns n lib)

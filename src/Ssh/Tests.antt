-- ===== src/Ssh/Tests.antt =====
-- The theorems on the ssh server, applied to runs.
use esp_network_examples.Prelude.{
  ℕ, ◌≤◌, ◌+◌, ◌||◌, ◌⊎◌, Bool, true, false, pos, length, List, [], ◌∷◌, some, none, ◌≡◌, refl, inl,
  codes, leb,
}
use esp_network_examples.Os.{Answer, Env, other}
use esp_network_examples.Ssh.Calls.{
  Call, session_new, event_new, channel_new, none_request, password_request, open_request, Libssh,
  Event,
}
use esp_network_examples.Ssh.{initial, handle_all, wait_loop}
use esp_network_examples.Ssh.Auth.{handle_all-Counts}
use esp_network_examples.Ssh.Resources.{a_channel}
use esp_network_examples.Ssh.Listening.{RunBalanced, simple_ssh_server, simple_ssh_server-Balanced}
use esp_network_examples.Ssh.Waiting.{WaitEnds, wait_loop-WaitEnds}
use esp_network_examples.Ssh.Shell.{Write, write}
use esp_network_examples.Ssh.Arguments.{
  use_port, use_key, parse_args, parse_args-command_line, defaults,
}

abbrev answer : ℕ → Answer
answer n = record { ret = pos n; errno = other; bytes = [] }

-- Gives handle 1 for whatever is asked for; a channel closes once it is looked at.
abbrev obliging : Env Call
obliging t session_new = answer 1
obliging t event_new = answer 1
obliging t channel_new = answer 1
obliging t _ = answer 0

abbrev login : List Event
login =
    none_request
    ∷ password_request (codes "testuser") (codes "wrong")
    ∷ password_request (codes "testuser") (codes "testpass")
    ∷ open_request
    ∷ []

abbrev lib : Libssh
lib = record { env = obliging; callbacks = λ t. login }

simple_ssh_server-Balanced_example :
    RunBalanced (a_channel 1) (simple_ssh_server 2 5 lib (codes "-p" ∷ codes "22" ∷ []) [])
simple_ssh_server-Balanced_example =
    simple_ssh_server-Balanced 2 5 lib (codes "-p" ∷ codes "22" ∷ []) (a_channel 1)

handle_all-Counts_example :
    ((handle_all obliging 1 login initial []).0.authenticated ≡ true)
    × ((handle_all obliging 1 login initial []).0.tries ≡ 1)
unfolding esp_network_examples.Prelude.text_eq
handle_all-Counts_example = handle_all-Counts obliging 1 login initial []

wait_loop-WaitEnds_example : WaitEnds lib 1 100 (initial, []) (wait_loop 100 lib 1 initial [])
wait_loop-WaitEnds_example = wait_loop-WaitEnds lib 1 initial []

abbrev counting : Env Write
counting t (write c bs) = answer (length bs)

parse_flags :
    parse_args (codes "-p" ∷ codes "-h" ∷ codes "-k" ∷ codes "key" ∷ []) defaults
    ≡ some (record { port = codes "-h"; hostkey_path = some (codes "key") })
parse_flags = parse_args-command_line (use_port (codes "-h") ∷ use_key (codes "key") ∷ []) defaults

-- ===== src/Disconnect/Tests.antt =====
-- The theorems on the client that watches its link, applied to runs.
use esp_network_examples.Prelude.{ℤ, pos, negsuc, true, [], ◌≡◌, refl}
use esp_network_examples.Os.{Answer, Env, einprogress}
use esp_network_examples.Disconnect.Calls.{Call, socket, connect, select, signal, Net}
use esp_network_examples.Disconnect.{disconnected, eth_event_handler}
use esp_network_examples.Disconnect.GivingUp.{Signalled}

abbrev answer : ℤ → Answer
answer n = record { ret = n; errno = einprogress; bytes = [] }

-- Connections take time, and then each `select` returns 1.
abbrev slow : Env Call
slow t socket = answer (pos 54)
slow t (connect fd) = answer (negsuc 0)
slow t (select fd) = answer (pos 1)
slow t signal = answer (pos 8)
slow t _ = answer (pos 0)

abbrev net : Net
net = record { env = slow; is_signalled = λ a. true; sockerr = λ a. pos 0 }

abbrev net-Signalled : Signalled net
net-Signalled = record {
  refused = λ t fd. refl;
  pending = λ t fd. refl;
  ready = λ t fd. (0, refl);
  raised = λ t fd. refl;
}

-- The handler writes all 8 bytes.
disconnected_lem : (eth_event_handler slow disconnected []).0 ≡ true
unfolding eth_event_handler
disconnected_lem = refl

-- ===== src/Ssh/Resources.antt =====
-- What libssh gives the servers under libssh/ and what they free.
use esp_network_examples.Prelude.{
  ℕ, ◌+◌, ℤ, Bool, false, [], ◌∷◌, Option, none, some, ◌≡◌, if◌then◌else◌, ◌==◌,
}
use esp_network_examples.Os.{Trace}
use esp_network_examples.Ssh.Calls.{
  Call, bind_new, bind_free, session_new, event_new, channel_new, session_free, event_free,
  channel_free, pointer,
}
use esp_network_examples.Ssh.{Server}

-- What libssh gives the server, to be freed.
pub data Resource : Type 0 where
  a_session an_event a_channel a_bind : ℕ → Resource

abbrev pub is_same : Resource → Resource → Bool
is_same (a_session i) (a_session j) = i == j
is_same (an_event i) (an_event j) = i == j
is_same (a_channel i) (a_channel j) = i == j
is_same (a_bind i) (a_bind j) = i == j
is_same _ _ = false

abbrev pub as_session : Option ℕ → Option Resource
as_session none = none
as_session (some i) = some (a_session i)

abbrev pub as_event : Option ℕ → Option Resource
as_event none = none
as_event (some i) = some (an_event i)

abbrev pub as_channel : Option ℕ → Option Resource
as_channel none = none
as_channel (some i) = some (a_channel i)

abbrev pub as_bind : Option ℕ → Option Resource
as_bind none = none
as_bind (some b) = some (a_bind b)

abbrev pub one : Resource → Option Resource → ℕ
one r none = 0
one r (some q) = if is_same r q then 1 else 0

-- What a call gives.
abbrev pub given : Call → ℤ → Option Resource
given session_new a = as_session (pointer a)
given event_new a = as_event (pointer a)
given channel_new a = as_channel (pointer a)
given bind_new a = as_bind (pointer a)
given _ a = none

-- What a call frees.
abbrev pub freed : Call → Option Resource
freed (session_free i) = some (a_session i)
freed (event_free i) = some (an_event i)
freed (channel_free i) = some (a_channel i)
freed (bind_free b) = some (a_bind b)
freed _ = none

abbrev pub gifts : Resource → Trace Call → ℕ
gifts r [] = 0
gifts r ((c, a) ∷ t) = one r (given c a.ret) + gifts r t

abbrev pub frees : Resource → Trace Call → ℕ
frees r [] = 0
frees r ((c, a) ∷ t) = one r (freed c) + frees r t

-- `k` of `r` are held.
abbrev pub Balanced : Resource → ℕ → Trace Call → Type 0
Balanced r k t = gifts r t ≡ frees r t + k

abbrev pub held : Resource → Server → ℕ
held r s = one r (as_channel s.channel)

abbrev pub ServerBalanced : Resource → ℕ → Server × Trace Call → Type 0
ServerBalanced r k (s, t) = Balanced r (held r s + k) t

-- ===== src/Ssh/Waiting.antt =====
-- How the loop of libssh/tests/simple_ssh_server.c that waits for authentication ends.
use esp_network_examples.Prelude.{
  ℕ, zero, suc, ◌+◌, ◌≤◌, ◌<◌, Bool, ap, true, false, not, ◌||◌, List, [], ◌∷◌, Option, none, some,
  ◌≡◌, ◌⊎◌, inl, inr, refl, ◌∙◌, arith, leb, Bool-cases,
}
use esp_network_examples.Os.{Env, Io, Trace}
use esp_network_examples.Ssh.Calls.{
  Call, dopoll, Event, none_request, password_request, open_request, Libssh, is_ssh_error,
}
use esp_network_examples.Ssh.{
  Server, is_default, auth_none, refuse, auth_password, open_beside, channel_open, handle,
  handle_all, poll, is_ready, if_polled, wait_loop,
}

abbrev is_poll : Call → ℕ
is_poll (dopoll timeout) = 1
is_poll _ = 0

-- The polls so far.
abbrev pub polls : Trace Call → ℕ
polls [] = 0
polls ((c, a) ∷ t) = is_poll c + polls t

-- The latest call is a poll that failed.
abbrev pub PollFailed : Trace Call → Type 0
PollFailed ((dopoll timeout, a) ∷ t) = is_ssh_error a.ret ≡ true
PollFailed _ = ⊥

refuse-polls :
    (env : Env Call) (i : ℕ) (s : Server) (t : Trace Call) → polls (refuse env i s t).1 ≡ polls t
unfolding refuse
refuse-polls env i s t = elim (Bool-cases (leb 3 s.tries)) [
  | inl e ↦ rw e (omega arith)
  | inr e ↦ rw e
]

open_beside-polls :
    (c : Option ℕ) (env : Env Call) (s : Server) (t : Trace Call)
    → polls (open_beside c env s t).1 ≡ polls t
unfolding open_beside
open_beside-polls none env s t = omega arith
open_beside-polls (some c) env s t = refl

handle-polls :
    (env : Env Call) (i : ℕ) (e : Event) (s : Server) (t : Trace Call)
    → polls (handle env i e s t).1 ≡ polls t
unfolding handle auth_none auth_password channel_open
handle-polls env i none_request s t = omega arith
handle-polls env i (password_request user word) s t = elim (Bool-cases (is_default user word)) [
  | inl right ↦ rw right
  | inr wrong ↦ rw wrong (refuse-polls env i (record s { tries = s.tries + 1 }) t)
]
handle-polls env i open_request s t = open_beside-polls s.channel env s t

handle_all-polls :
    (env : Env Call) (i : ℕ) (es : List Event) (s : Server) (t : Trace Call)
    → polls (handle_all env i es s t).1 ≡ polls t
unfolding handle_all
handle_all-polls env i [] s t = refl
handle_all-polls env i (e ∷ es) s t = handle_all-polls env i es _ _ ∙ handle-polls env i e s t

-- The latest call is a poll that went well.
abbrev pub PollWell : Trace Call → Type 0
PollWell ((dopoll timeout, a) ∷ t) = is_ssh_error a.ret ≡ false
PollWell _ = ⊥

-- The client is authenticated and has a channel, or three attempts were counted.
abbrev pub IsOver : Server → Type 0
IsOver s = ((s.authenticated ≡ true) × ((c : ℕ) × (s.channel ≡ some c))) ⊎ (3 ≤ s.tries)

-- The client is not authenticated or has no channel, and fewer attempts were counted.
abbrev pub IsWaiting : Server → Type 0
IsWaiting s = ((s.authenticated ≡ false) ⊎ (s.channel ≡ none)) × (s.tries < 3)

-- One poll, whatever it answers.
abbrev pub polled : Libssh → ℕ → Server × Trace Call → Server × Trace Call
polled lib i (s, t) = ((poll lib i 100 s t).0.0, (poll lib i 100 s t).1)

-- So many polls, whatever the state and the answers.
abbrev pub after_polls : Libssh → ℕ → ℕ → Server × Trace Call → Server × Trace Call
after_polls lib i zero x = x
after_polls lib i (suc k) x = after_polls lib i k (polled lib i x)

-- The next `k` polls all start from a state that waits, and all but the last go well.
abbrev pub Waits : Libssh → ℕ → ℕ → Server × Trace Call → Type 0
Waits lib i zero x = Unit
Waits lib i (suc k) x =
    IsWaiting x.0 × ((k ≡ 0) ⊎ PollWell (polled lib i x).1) × Waits lib i k (polled lib i x)

-- Why a wait of at most `n` polls ends behind `k` of them in `x`.
abbrev pub Stops : ℕ → ℕ → Server × Trace Call → Type 0
Stops n k x = IsOver x.0 ⊎ (((1 ≤ k) × PollFailed x.1) ⊎ (k ≡ n))

-- A wait of at most `n` polls from `x` on.
abbrev pub WaitEnds : Libssh → ℕ → ℕ → Server × Trace Call → Server × Trace Call → Type 0
WaitEnds lib i n x end =
    (k : ℕ) × (k ≤ n)
    × (end ≡ after_polls lib i k x)
    × (polls end.1 ≡ polls x.1 + k)
    × Waits lib i k x
    × Stops n k end

channel-cases : (c : Option ℕ) → (c ≡ none) ⊎ ((d : ℕ) × (c ≡ some d))
channel-cases none = inl refl
channel-cases (some c) = inr (c, refl)

guard-IsOver : (s : Server) → is_ready s || leb 3 s.tries ≡ true → IsOver s
guard-IsOver s h = elim (channel-cases s.channel) [
  | inl c ↦ inr (ground arith)
  | inr (d, c) ↦ elim (Bool-cases s.authenticated) [
    | inl a ↦ inl (a, (d, c))
    | inr a ↦ inr (ground arith)
  ]
]

guard-IsWaiting : (s : Server) → is_ready s || leb 3 s.tries ≡ false → IsWaiting s
guard-IsWaiting s h = elim (channel-cases s.channel) [
  | inl c ↦ (inr c, ground arith)
  | inr (d, c) ↦ (inl (ground arith), ground arith)
]

poll-polls :
    (lib : Libssh) (i : ℕ) (s : Server) (t : Trace Call)
    → polls (poll lib i 100 s t).1 ≡ polls t + 1
unfolding poll
poll-polls lib i s t = omega (arith, handle_all-polls lib.env i (lib.callbacks t) s t)

-- A poll either went well or failed, which its result tells.
poll-cases :
    (lib : Libssh) (i : ℕ) (s : Server) (t : Trace Call)
    → (((poll lib i 100 s t).0.1 ≡ true) × PollWell (poll lib i 100 s t).1)
      ⊎ (((poll lib i 100 s t).0.1 ≡ false) × PollFailed (poll lib i 100 s t).1)
unfolding poll
poll-cases lib i s t =
    let t' = (handle_all lib.env i (lib.callbacks t) s t).1 in
    elim (Bool-cases (is_ssh_error (lib.env t' (dopoll 100)).ret)) [
      | inl e ↦ inr (ap not e, e)
      | inr e ↦ inl (ap not e, e)
    ]

Stops-later : (n k : ℕ) (x : Server × Trace Call) → Stops n k x → Stops (suc n) (suc k) x
Stops-later n k x (inl h) = inl h
Stops-later n k x (inr (inl (h, f))) = inr (inl (omega arith, f))
Stops-later n k x (inr (inr h)) = inr (inr (ap suc h))

if_polled-well :
    (next : Server → Io Call Server) (r : Server × Bool) (t : Trace Call)
    → r.1 ≡ true
    → if_polled next r t ≡ next r.0 t
if_polled-well next (s, true) t e = refl
if_polled-well next (s, false) t e = absurd (cc)

if_polled-failed :
    (next : Server → Io Call Server) (r : Server × Bool) (t : Trace Call)
    → r.1 ≡ false
    → if_polled next r t ≡ (r.0, t)
if_polled-failed next (s, true) t e = absurd (cc)
if_polled-failed next (s, false) t e = refl

module _ (lib : Libssh) (i : ℕ) where
  -- A wait that goes on behind a poll that went well.
  goes_on :
      (n : ℕ) (s : Server) (t : Trace Call) (end : Server × Trace Call)
      → IsWaiting s
      → PollWell (poll lib i 100 s t).1
      → WaitEnds lib i n (polled lib i (s, t)) end
      → WaitEnds lib i (suc n) (s, t) end
  goes_on n s t end waits well (k, few, same, count, rest, stops) = (
    suc k,
    omega arith,
    same,
    omega (arith, poll-polls lib i s t),
    (waits, inr well, rest),
    Stops-later n k end stops,
  )

  wait_loop-ends :
      (n : ℕ) (s : Server) (t : Trace Call) → WaitEnds lib i n (s, t) (wait_loop n lib i s t)
  unfolding wait_loop
  wait_loop-ends zero s t = (0, omega arith, refl, omega arith, tt, inr (inr refl))
  wait_loop-ends (suc n) s t =
      let rest = wait_loop-ends n (poll lib i 100 s t).0.0 (poll lib i 100 s t).1 in
      elim (Bool-cases (is_ready s || leb 3 s.tries)) [
        | inl e ↦ rw e (0, omega arith, refl, omega arith, tt, inl (guard-IsOver s e))
        | inr e ↦ elim (poll-cases lib i s t) [
          | inl (ok, well) ↦
              rw
                (
                  e,
                  if_polled-well (wait_loop n lib i) (poll lib i 100 s t).0 (poll lib i 100 s t).1
                      ok,
                )
                (goes_on n s t _ (guard-IsWaiting s e) well rest)
          | inr (lost, bad) ↦
              rw
                (
                  e,
                  if_polled-failed (wait_loop n lib i) (poll lib i 100 s t).0 (poll lib i 100 s t).1
                      lost,
                )
                (
                  1,
                  omega arith,
                  refl,
                  poll-polls lib i s t,
                  (guard-IsWaiting s e, inl refl, tt),
                  inr (inl (omega arith, bad)),
                )
        ]
      ]

  -- Waiting for a client is some number of polls, at most 100. Each of them starts while the client
  -- is not authenticated or has no channel, with fewer than three attempts counted, and all but the
  -- last go well. Behind them the client is authenticated and has a channel, or three attempts are
  -- counted, or the last poll has failed, or they were 100.
  pub wait_loop-WaitEnds :
      (s : Server) (t : Trace Call) → WaitEnds lib i 100 (s, t) (wait_loop 100 lib i s t)
  wait_loop-WaitEnds s t = wait_loop-ends 100 s t

-- ===== src/Ssh/Session.antt =====
-- The sessions, events and channels of libssh/tests/simple_ssh_server.c are freed, whatever libssh
-- answers and whichever callbacks it makes.
use esp_network_examples.Prelude.{
  ℕ, zero, suc, ◌+◌, is_zero, ◌∷◌, Option, none, some, ◌≡◌, refl, sym, subst, arith,
}
use esp_network_examples.Os.{Env, Io, Trace, if_both}
use esp_network_examples.Ssh.Calls.{
  Call, session_new, event_new, bind_accept, key_exchange, set_auth_methods, event_free, event_add,
  pointer, Libssh,
}
use esp_network_examples.Ssh.{
  Server, initial, Progress, over, going, free_channel, Outcome, ended, serving, drop_session,
  close_session, converse, with_event, with_client, with_session, serve_client, next_client,
  accept_loop,
}
use esp_network_examples.Ssh.Resources.{
  Resource, as_session, as_event, as_channel, one, gifts, frees, Balanced, a_session, an_event,
}
use esp_network_examples.Ssh.Polling.{ProgressBalanced, wait_loop-Balanced, if_channel-Balanced}

free_channel-Balanced :
    (env : Env Call) (c : Option ℕ) (r : Resource) (k : ℕ) (t : Trace Call)
    → Balanced r (one r (as_channel c) + k) t
    → Balanced r k (free_channel env c t).1
unfolding free_channel
free_channel-Balanced env none r k t h = omega arith
free_channel-Balanced env (some c) r k t h = omega arith

-- The server behind a client has the globals it started with, and has freed what it was given as
-- often as it was given it; while it serves one it holds the session, the event and the channel.
abbrev pub OutcomeBalanced : Resource → ℕ → Outcome × Trace Call → Type 0
OutcomeBalanced r k (ended s, t) = (s ≡ initial) × (gifts r t ≡ frees r t + k)
OutcomeBalanced r k (serving i e s, t) =
    gifts r t
    ≡ frees r t
      + (one r (some (a_session i))
          + (one r (some (an_event e)) + (one r (as_channel s.channel) + k)))

-- A session and an event are held besides.
abbrev both : Resource → ℕ → ℕ → ℕ → ℕ
both r k i e = one r (some (a_session i)) + (one r (some (an_event e)) + k)

close_session-Balanced :
    (env : Env Call) (r : Resource) (k : ℕ) (i e : ℕ) (p : Progress) (t : Trace Call)
    → ProgressBalanced r (both r k i e) (p, t)
    → OutcomeBalanced r k (close_session env i e p t)
unfolding close_session
close_session-Balanced env r k i e (going s) t h = omega arith
close_session-Balanced env r k i e (over s) t h =
    (refl, omega (arith, free_channel-Balanced env s.channel r (both r k i e) t h))

converse-Balanced :
    (n : ℕ) (lib : Libssh) (r : Resource) (k : ℕ) (i e : ℕ) (t : Trace Call)
    → Balanced r (both r k i e) t
    → OutcomeBalanced r k (converse n lib i e initial t)
unfolding converse
converse-Balanced n lib r k i e t h = close_session-Balanced lib.env r k i e _ _ (
    if_channel-Balanced _ n lib r (both r k i e) i _ _
      (wait_loop-Balanced 100 lib r (both r k i e) i initial t (omega arith)))

drop_session-Balanced :
    (env : Env Call) (r : Resource) (k : ℕ) (i : ℕ) (t : Trace Call)
    → Balanced r (one r (some (a_session i)) + k) t
    → OutcomeBalanced r k (drop_session env i initial t)
drop_session-Balanced env r k i t h = (refl, omega arith)

with_event-Balanced :
    (n : ℕ) (lib : Libssh) (r : Resource) (k : ℕ) (i : ℕ) (o : Option ℕ) (t : Trace Call)
    → Balanced r (one r (some (a_session i)) + (one r (as_event o) + k)) t
    → OutcomeBalanced r k (with_event n lib i initial o t)
unfolding with_event
with_event-Balanced n lib r k i none t h = drop_session-Balanced lib.env r k i t (omega arith)
with_event-Balanced n lib r k i (some e) t h =
    let a = lib.env t (event_add e i) in
    let t' : Trace Call = (event_add e i, a) ∷ t in
    if_both (OutcomeBalanced r k) (is_zero a.ret) _ _ t'
      (converse-Balanced n lib r k i e t' (omega arith))
      (drop_session-Balanced lib.env r k i ((event_free e, lib.env t' (event_free e)) ∷ t')
        (omega arith))

with_client-Balanced :
    (n : ℕ) (lib : Libssh) (r : Resource) (k : ℕ) (i : ℕ) (t : Trace Call)
    → Balanced r (one r (some (a_session i)) + k) t
    → OutcomeBalanced r k (with_client n lib i initial t)
unfolding with_client
with_client-Balanced n lib r k i t h =
    let a = lib.env t (key_exchange i) in
    let t' : Trace Call = (key_exchange i, a) ∷ t in
    let u : Trace Call = (set_auth_methods i, lib.env t' (set_auth_methods i)) ∷ t' in
    let e = lib.env u event_new in
    if_both (OutcomeBalanced r k) (is_zero a.ret) _ _ t'
      (with_event-Balanced n lib r k i (pointer e.ret) ((event_new, e) ∷ u) (omega arith))
      (drop_session-Balanced lib.env r k i t' (omega arith))

with_session-Balanced :
    (n : ℕ) (lib : Libssh) (r : Resource) (k : ℕ) (o : Option ℕ) (t : Trace Call)
    → Balanced r (one r (as_session o) + k) t
    → OutcomeBalanced r k (with_session n lib initial o t)
unfolding with_session
with_session-Balanced n lib r k none t h = (refl, omega arith)
with_session-Balanced n lib r k (some i) t h =
    let a = lib.env t (bind_accept i) in
    let t' : Trace Call = (bind_accept i, a) ∷ t in
    if_both (OutcomeBalanced r k) (is_zero a.ret) _ _ t'
      (with_client-Balanced n lib r k i t' (omega arith)) (refl, omega arith)

serve_client-Balanced :
    (n : ℕ) (lib : Libssh) (r : Resource) (k : ℕ) (t : Trace Call)
    → Balanced r k t
    → OutcomeBalanced r k (serve_client n lib initial t)
unfolding serve_client
serve_client-Balanced n lib r k t h =
    let a = lib.env t session_new in
    with_session-Balanced n lib r k (pointer a.ret) ((session_new, a) ∷ t) (omega arith)

next_client-Balanced :
    (r : Resource) (k : ℕ) (next : Server → Io Call Outcome)
    → ((t : Trace Call) → Balanced r k t → OutcomeBalanced r k (next initial t))
    → (o : Outcome) (t : Trace Call) → OutcomeBalanced r k (o, t)
    → OutcomeBalanced r k (next_client next o t)
next_client-Balanced r k next keep (ended s) t h =
    subst (λ (x : Server). OutcomeBalanced r k (next x t)) (sym h.0) (keep t (omega (arith, h.1)))
next_client-Balanced r k next keep (serving i e s) t h = h

-- After any number of clients, each of which finds the globals reset.
pub accept_loop-Balanced :
    (turns n : ℕ) (lib : Libssh) (r : Resource) (k : ℕ) (t : Trace Call)
    → Balanced r k t
    → OutcomeBalanced r k (accept_loop turns n lib initial t)
unfolding accept_loop
accept_loop-Balanced zero n lib r k t h = (refl, omega arith)
accept_loop-Balanced (suc turns) n lib r k t h =
    next_client-Balanced r k (accept_loop turns n lib)
      (λ u b. accept_loop-Balanced turns n lib r k u b) _ _ (serve_client-Balanced n lib r k t h)

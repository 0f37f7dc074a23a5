-- ===== src/Ssh/Polling.antt =====
-- What libssh/tests/simple_ssh_server.c holds while it polls, whichever callbacks libssh makes.
use esp_network_examples.Prelude.{
  ℕ, zero, suc, ◌+◌, is_zero, Bool, true, false, ◌||◌, List, [], ◌∷◌, Option, none, some, ◌≡◌, inl,
  inr, refl, sym, ap, arith, leb, Bool-cases,
}
use esp_network_examples.Os.{Env, Io, Trace, if_both}
use esp_network_examples.Ssh.Calls.{
  Call, is_open, Event, none_request, password_request, open_request, Libssh,
}
use esp_network_examples.Ssh.{
  Server, is_default, auth_none, refuse, auth_password, open_beside, channel_open, handle,
  handle_all, poll, is_ready, if_polled, wait_loop, Progress, over, going, if_polled_on,
  channel_loop, if_channel,
}
use esp_network_examples.Ssh.Resources.{Resource, as_channel, one, ServerBalanced}

refuse-Balanced :
    (env : Env Call) (r : Resource) (k i : ℕ) (s : Server) (t : Trace Call)
    → ServerBalanced r k (s, t)
    → ServerBalanced r k ((refuse env i s t).0.0, (refuse env i s t).1)
unfolding refuse
refuse-Balanced env r k i s t h = elim (Bool-cases (leb 3 s.tries)) [
  | inl e ↦ rw e (omega arith)
  | inr e ↦ rw e h
]

open_beside-Balanced :
    (c : Option ℕ) (env : Env Call) (r : Resource) (k : ℕ) (s : Server) (t : Trace Call)
    → c ≡ s.channel
    → ServerBalanced r k (s, t)
    → ServerBalanced r k ((open_beside c env s t).0.0, (open_beside c env s t).1)
unfolding open_beside
open_beside-Balanced none env r k s t e h =
    let free : one r (as_channel s.channel) ≡ 0 = sym (ap (λ c. one r (as_channel c)) e) in
    omega (arith, free)
open_beside-Balanced (some c) env r k s t e h = h

handle-Balanced :
    (env : Env Call) (r : Resource) (k i : ℕ) (e : Event) (s : Server) (t : Trace Call)
    → ServerBalanced r k (s, t)
    → ServerBalanced r k (handle env i e s t)
unfolding handle auth_none auth_password channel_open
handle-Balanced env r k i none_request s t h = omega arith
handle-Balanced env r k i (password_request user word) s t h =
    elim (Bool-cases (is_default user word)) [
      | inl right ↦ rw right h
      | inr wrong ↦ rw wrong (refuse-Balanced env r k i (record s { tries = s.tries + 1 }) t h)
    ]
handle-Balanced env r k i open_request s t h = open_beside-Balanced s.channel env r k s t refl h

handle_all-Balanced :
    (env : Env Call) (r : Resource) (k i : ℕ) (es : List Event) (s : Server) (t : Trace Call)
    → ServerBalanced r k (s, t)
    → ServerBalanced r k (handle_all env i es s t)
unfolding handle_all
handle_all-Balanced env r k i [] s t h = h
handle_all-Balanced env r k i (e ∷ es) s t h =
    handle_all-Balanced env r k i es _ _ (handle-Balanced env r k i e s t h)

poll-Balanced :
    (lib : Libssh) (r : Resource) (k i timeout : ℕ) (s : Server) (t : Trace Call)
    → ServerBalanced r k (s, t)
    → ServerBalanced r k ((poll lib i timeout s t).0.0, (poll lib i timeout s t).1)
unfolding poll
poll-Balanced lib r k i timeout s t h =
    omega (arith, handle_all-Balanced lib.env r k i (lib.callbacks t) s t h)

if_polled-Balanced :
    (r : Resource) (k : ℕ) (next : Server → Io Call Server)
    → ((s : Server) (t : Trace Call) → ServerBalanced r k (s, t) → ServerBalanced r k (next s t))
    → (p : Server × Bool) (t : Trace Call) → ServerBalanced r k (p.0, t)
    → ServerBalanced r k (if_polled next p t)
if_polled-Balanced r k next keep (s, true) t h = keep s t h
if_polled-Balanced r k next keep (s, false) t h = h

pub wait_loop-Balanced :
    (n : ℕ) (lib : Libssh) (r : Resource) (k i : ℕ) (s : Server) (t : Trace Call)
    → ServerBalanced r k (s, t)
    → ServerBalanced r k (wait_loop n lib i s t)
unfolding wait_loop
wait_loop-Balanced zero lib r k i s t h = h
wait_loop-Balanced (suc n) lib r k i s t h =
    if_both (ServerBalanced r k) (is_ready s || leb 3 s.tries) _ _ t h (
      if_polled-Balanced r k (wait_loop n lib i) (λ s' t' b. wait_loop-Balanced n lib r k i s' t' b)
        _ _ (poll-Balanced lib r k i 100 s t h))

abbrev pub ProgressBalanced : Resource → ℕ → Progress × Trace Call → Type 0
ProgressBalanced r k (over s, t) = ServerBalanced r k (s, t)
ProgressBalanced r k (going s, t) = ServerBalanced r k (s, t)

if_polled_on-Balanced :
    (r : Resource) (k : ℕ) (next : Server → Io Call Progress)
    → ((s : Server) (t : Trace Call) → ServerBalanced r k (s, t) → ProgressBalanced r k (next s t))
    → (p : Server × Bool) (t : Trace Call) → ServerBalanced r k (p.0, t)
    → ProgressBalanced r k (if_polled_on next p t)
if_polled_on-Balanced r k next keep (s, true) t h = keep s t h
if_polled_on-Balanced r k next keep (s, false) t h = h

channel_loop-Balanced :
    (n : ℕ) (lib : Libssh) (r : Resource) (k i : ℕ) (s : Server) (t : Trace Call)
    → ServerBalanced r k (s, t)
    → ProgressBalanced r k (channel_loop n lib i s t)
unfolding channel_loop
channel_loop-Balanced zero lib r k i s t h = h
channel_loop-Balanced (suc n) lib r k i s t h =
    let a = lib.env t (is_open s.channel) in
    let t' : Trace Call = (is_open s.channel, a) ∷ t in
    let h' : ServerBalanced r k (s, t') = omega arith in
    if_both (ProgressBalanced r k) (is_zero a.ret) _ _ t' h' (
      if_polled_on-Balanced r k (channel_loop n lib i)
        (λ s' u b. channel_loop-Balanced n lib r k i s' u b) _ _
        (poll-Balanced lib r k i 1000 s t' h'))

pub if_channel-Balanced :
    (c : Option ℕ) (n : ℕ) (lib : Libssh) (r : Resource) (k i : ℕ) (s : Server) (t : Trace Call)
    → ServerBalanced r k (s, t)
    → ProgressBalanced r k (if_channel c n lib i s t)
if_channel-Balanced none n lib r k i s t h = h
if_channel-Balanced (some c) n lib r k i s t h = channel_loop-Balanced n lib r k i s t h

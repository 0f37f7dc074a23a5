-- ===== src/Ssh/Auth.antt =====
-- Authentication in libssh/tests/simple_ssh_server.c, and the loop that waits for it.
use esp_network_examples.Prelude.{
  ℕ, ◌+◌, Bool, true, false, not, ◌&&◌, ◌||◌, codes, text_eq, List, [], ◌∷◌, Option, none, some,
  ◌≡◌, inl, inr, refl, ap, ◌∙◌, arith, leb, Bool-cases, if◌then◌else◌,
}
use esp_network_examples.Os.{Env, Trace}
use esp_network_examples.Ssh.Calls.{Call, Event, none_request, password_request, open_request}
use esp_network_examples.Ssh.{
  Server, is_default, auth_none, refuse, auth_password, open_beside, channel_open, handle,
  handle_all,
}

-- An attempt with the user name `testuser` and the password `testpass`.
abbrev pub is_right : Event → Bool
is_right (password_request user word) =
    text_eq user (codes "testuser") && text_eq word (codes "testpass")
is_right _ = false

-- An attempt with another user name or another password.
abbrev pub is_wrong : Event → Bool
is_wrong (password_request user word) =
    not (text_eq user (codes "testuser")) || not (text_eq word (codes "testpass"))
is_wrong _ = false

abbrev pub any_right : List Event → Bool
any_right [] = false
any_right (e ∷ es) = is_right e || any_right es

abbrev pub wrong_count : List Event → ℕ
wrong_count [] = 0
wrong_count (e ∷ es) = (if is_wrong e then 1 else 0) + wrong_count es

refuse_keeps : (env : Env Call) (i : ℕ) (s : Server) (t : Trace Call) → (refuse env i s t).0.0 ≡ s
unfolding refuse
refuse_keeps env i s t = elim (Bool-cases (leb 3 s.tries)) [ inl e ↦ rw e | inr e ↦ rw e ]

or_false : (b : Bool) → b ≡ b || false
or_false true = refl
or_false false = refl

or_assoc : (a b c : Bool) → (a || b) || c ≡ a || (b || c)
or_assoc true b c = refl
or_assoc false b c = refl

open_beside_keeps :
    (c : Option ℕ) (env : Env Call) (s : Server) (t : Trace Call)
    → (open_beside c env s t).0.0.authenticated ≡ s.authenticated
unfolding open_beside
open_beside_keeps none env s t = refl
open_beside_keeps (some c) env s t = refl

open_beside_tries :
    (c : Option ℕ) (env : Env Call) (s : Server) (t : Trace Call)
    → (open_beside c env s t).0.0.tries ≡ s.tries
unfolding open_beside
open_beside_tries none env s t = refl
open_beside_tries (some c) env s t = refl

or_true : (b : Bool) → true ≡ b || true
or_true true = refl
or_true false = refl

handle-authenticated :
    (env : Env Call) (i : ℕ) (e : Event) (s : Server) (t : Trace Call)
    → (handle env i e s t).0.authenticated ≡ s.authenticated || is_right e
unfolding handle auth_none auth_password channel_open
handle-authenticated env i none_request s t = or_false s.authenticated
handle-authenticated env i (password_request user word) s t =
    elim (Bool-cases (is_default user word)) [
      | inl right ↦ rw right (or_true s.authenticated)
      | inr wrong ↦
          rw wrong (
            ap (λ (x : Server). x.authenticated) (refuse_keeps env i _ t)
            ∙ or_false s.authenticated)
    ]
handle-authenticated env i open_request s t =
    open_beside_keeps s.channel env s t ∙ or_false s.authenticated

not_and : (a b : Bool) → not a || not b ≡ not (a && b)
not_and true b = refl
not_and false b = refl

-- An attempt is wrong exactly where the code does not take it.
is_wrong-is_default :
    (user word : List ℕ) {b : Bool}
    → is_default user word ≡ b
    → is_wrong (password_request user word) ≡ not b
is_wrong-is_default user word h =
    not_and (text_eq user (codes "testuser")) (text_eq word (codes "testpass")) ∙ ap not h

handle-tries :
    (env : Env Call) (i : ℕ) (e : Event) (s : Server) (t : Trace Call)
    → (handle env i e s t).0.tries ≡ s.tries + (if is_wrong e then 1 else 0)
unfolding handle auth_none auth_password channel_open
handle-tries env i none_request s t = omega arith
handle-tries env i (password_request user word) s t = elim (Bool-cases (is_default user word)) [
  | inl right ↦ rw (right, is_wrong-is_default user word right) (omega arith)
  | inr wrong ↦
      rw (wrong, is_wrong-is_default user word wrong)
        (ap (λ (x : Server). x.tries) (refuse_keeps env i _ t))
]
handle-tries env i open_request s t = omega (arith, open_beside_tries s.channel env s t)

handle_all-tries :
    (env : Env Call) (i : ℕ) (es : List Event) (s : Server) (t : Trace Call)
    → (handle_all env i es s t).0.tries ≡ s.tries + wrong_count es
unfolding handle_all
handle_all-tries env i [] s t = omega arith
handle_all-tries env i (e ∷ es) s t = omega (
  arith,
  handle_all-tries env i es (handle env i e s t).0 (handle env i e s t).1,
  handle-tries env i e s t,
)

handle_all-authenticated :
    (env : Env Call) (i : ℕ) (es : List Event) (s : Server) (t : Trace Call)
    → (handle_all env i es s t).0.authenticated ≡ s.authenticated || any_right es
unfolding handle_all
handle_all-authenticated env i [] s t = or_false s.authenticated
handle_all-authenticated env i (e ∷ es) s t =
    handle_all-authenticated env i es (handle env i e s t).0 (handle env i e s t).1
    ∙ ap (λ b. b || any_right es) (handle-authenticated env i e s t)
    ∙ or_assoc s.authenticated (is_right e) (any_right es)

-- Whatever callbacks come in whatever order: behind them the client is authenticated exactly if it
-- was before or one of them brought the user `testuser` with the password `testpass`, and
-- every attempt with another user or another password has been counted.
pub handle_all-Counts :
    (env : Env Call) (i : ℕ) (es : List Event) (s : Server) (t : Trace Call)
    → ((handle_all env i es s t).0.authenticated ≡ s.authenticated || any_right es)
      × ((handle_all env i es s t).0.tries ≡ s.tries + wrong_count es)
handle_all-Counts env i es s t =
    (handle_all-authenticated env i es s t, handle_all-tries env i es s t)

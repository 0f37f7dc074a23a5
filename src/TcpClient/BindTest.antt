-- ===== src/TcpClient/BindTest.antt =====
-- The test of `bind` in lwip-intro/sockets/tcp_client.c holds what it opens.
use esp_network_examples.Prelude.{
  ℕ, zero, suc, ◌+◌, ℤ, is_neg, is_zero, List, [], ◌∷◌, ◌≡◌, inl, inr, refl, arith, Bool-cases,
}
use esp_network_examples.Os.{Env, Trace}
use esp_network_examples.TcpClient.Calls.{sockets, Call, socket, bind, pause}
use esp_network_examples.TcpClient.{bind_from, tcp_bind_test}
use esp_network_examples.Os.Descriptors.{one, one_neg, opens, closes}

-- How often a descriptor is among those that are held.
abbrev pub held : ℕ → List ℤ → ℕ
held d [] = 0
held d (s ∷ ss) = one d s + held d ss

-- Nothing was closed, and `ss` and `k` more are held.
abbrev Kept : ℕ → ℕ → List ℤ × Trace Call → Type 0
Kept d k (ss, t) = (closes sockets d t ≡ 0) × (opens sockets d t ≡ held d ss + k)

keep_one :
    (d k : ℕ) (s : ℤ) (ss : List ℤ) (t : Trace Call)
    → Kept d (one d s + k) (ss, t)
    → Kept d k (s ∷ ss, t)
keep_one d k s ss t (c, h) = (c, omega arith)

bind_from-Kept :
    (n port : ℕ) (env : Env Call) (d k : ℕ) (t : Trace Call)
    → Kept d k ([], t)
    → Kept d k (bind_from n port env t)
unfolding bind_from
bind_from-Kept zero port env d k t h = h
bind_from-Kept (suc n) port env d k t (c, h) =
    let s = env t socket in
    let t1 : Trace Call = (socket, s) ∷ t in
    let b = env t1 (bind s.ret port) in
    let t2 : Trace Call = (bind s.ret port, b) ∷ t1 in
    let t3 : Trace Call = (pause, env t2 pause) ∷ t2 in
    elim (Bool-cases (is_neg s.ret)) [
      | inl e ↦ rw e ((c, omega (arith, one_neg d s.ret e)))
      | inr e ↦ elim (Bool-cases (is_zero b.ret)) [
        | inl f ↦
            rw (e, f)
              (keep_one d k s.ret (bind_from n (port + 1) env t3).0
                (bind_from n (port + 1) env t3).1
                (bind_from-Kept n (port + 1) env d (one d s.ret + k) t3 (c, omega arith)))
        | inr f ↦ rw (e, f) ((c, omega arith))
      ]
    ]

-- Whatever the system answers, the test of `bind` closes no socket: each descriptor was opened as
-- often as it is among the sockets that the test ends with.
pub tcp_bind_test-Kept :
    (port : ℕ) (env : Env Call) (d : ℕ)
    → (closes sockets d (tcp_bind_test port env []).1 ≡ 0)
      × (opens sockets d (tcp_bind_test port env []).1 ≡ held d (tcp_bind_test port env []).0 + 0)
unfolding tcp_bind_test
tcp_bind_test-Kept port env d = bind_from-Kept 1000 port env d 0 [] (refl, refl)

-- ===== src/Hooks/Output.antt =====
-- lwip_output_hooks/tcp_client/main/lwip_ip_output_wrap.c: packets that leave the stack pass a
-- filter, which a linker puts in front of the stack's own function.
use esp_network_examples.Prelude.{
  ℕ, ℤ, pos, negsuc, is_zero, Bool, true, false, ◌&&◌, List, [], ◌∷◌, ◌≡◌, inl, inr, refl,
  Bool-cases, if◌then◌else◌, ◌==◌,
}
use esp_network_examples.Os.{Env, Io, Trace, ask, return, ◌>>=◌}

-- The arguments of `ip4_output_if` and of `ip6_output_if`, whose hop limit and traffic class stand
-- for the time to live and the type of service.
pub record Packet : Type 0 where
  pub p : ℕ
  pub src : ℕ
  pub dest : ℕ
  pub ttl : ℕ
  pub tos : ℕ
  pub proto : ℕ
  pub netif : ℕ

-- The functions of the stack behind the filter.
pub data Call : Type 0 where
  real_ip4_output_if real_ip6_output_if : Packet → Call

-- `IP_PROTO_TCP`, `IP6_NEXTH_TCP`
abbrev pub tcp : ℕ
tcp = 6

-- `ERR_RTE`, -4
abbrev pub err_rte : ℤ
err_rte = negsuc 3

-- The first argument is `CONFIG_EXAMPLE_IP4_OUTPUT_DROP_TCP`.
unfoldable pub ip4_output_filter : Bool → ℕ → ℤ
ip4_output_filter drop_tcp proto = if drop_tcp && proto == tcp then err_rte else pos 0

unfoldable pub wrap_ip4_output_if : Bool → Env Call → Packet → Io Call ℤ
wrap_ip4_output_if drop_tcp env packet =
    let err = ip4_output_filter drop_tcp packet.proto in
    if is_zero err then ask env (real_ip4_output_if packet) >>= (λ a. return a.ret) else return err

-- The first argument is `CONFIG_EXAMPLE_IP6_OUTPUT_DROP_TCP`.
unfoldable pub ip6_output_filter : Bool → ℕ → ℤ
ip6_output_filter drop_tcp nexth = if drop_tcp && nexth == tcp then err_rte else pos 0

unfoldable pub wrap_ip6_output_if : Bool → Env Call → Packet → Io Call ℤ
wrap_ip6_output_if drop_tcp env packet =
    let err = ip6_output_filter drop_tcp packet.proto in
    if is_zero err then ask env (real_ip6_output_if packet) >>= (λ a. return a.ret) else return err

-- What a stack with the filter is given to send.
pub data Datagram : Type 0 where
  v4 v6 : Packet → Datagram

-- Which packets are dropped, for IPv4 and IPv6.
pub record Config : Type 0 where
  pub drop_tcp4 : Bool
  pub drop_tcp6 : Bool

abbrev pub hooked : Config → Env Call → Datagram → Io Call ℤ
hooked c env (v4 packet) = wrap_ip4_output_if c.drop_tcp4 env packet
hooked c env (v6 packet) = wrap_ip6_output_if c.drop_tcp6 env packet

abbrev pub plain : Env Call → Datagram → Io Call ℤ
plain env (v4 packet) = ask env (real_ip4_output_if packet) >>= λ a. return a.ret
plain env (v6 packet) = ask env (real_ip6_output_if packet) >>= λ a. return a.ret

-- The results of sending these, in order.
unfoldable pub send_all : (Datagram → Io Call ℤ) → List Datagram → Io Call (List ℤ)
send_all output [] = return []
send_all output (d ∷ ds) = output d >>= λ err. send_all output ds >>= λ errs. return (err ∷ errs)

abbrev is_dropped : Config → Datagram → Bool
is_dropped c (v4 packet) = c.drop_tcp4 && packet.proto == tcp
is_dropped c (v6 packet) = c.drop_tcp6 && packet.proto == tcp

-- Without the packets that are dropped.
abbrev pub passing : Config → List Datagram → List Datagram
passing c [] = []
passing c (d ∷ ds) = if is_dropped c d then passing c ds else d ∷ passing c ds

abbrev put_first : (List ℤ → List ℤ) → List ℤ → List ℤ
put_first rest [] = []
put_first rest (err ∷ errs) = err ∷ rest errs

-- The results of all, by those of the packets that pass: a packet that is dropped has ERR_RTE.
abbrev pub with_dropped : Config → List Datagram → List ℤ → List ℤ
with_dropped c [] errs = []
with_dropped c (d ∷ ds) errs =
    let rest = with_dropped c ds in
    if is_dropped c d then err_rte ∷ rest errs else put_first rest errs

hooked-dropped :
    (c : Config) (env : Env Call) (d : Datagram) (t : Trace Call)
    → is_dropped c d ≡ true
    → hooked c env d t ≡ (err_rte, t)
unfolding wrap_ip4_output_if wrap_ip6_output_if ip4_output_filter ip6_output_filter
hooked-dropped c env (v4 packet) t h = rw h
hooked-dropped c env (v6 packet) t h = rw h

hooked-passed :
    (c : Config) (env : Env Call) (d : Datagram) (t : Trace Call)
    → is_dropped c d ≡ false
    → hooked c env d t ≡ plain env d t
unfolding wrap_ip4_output_if wrap_ip6_output_if ip4_output_filter ip6_output_filter
hooked-passed c env (v4 packet) t h = rw h
hooked-passed c env (v6 packet) t h = rw h

-- However the stack answers, sending packets through the filter is sending those that are not TCP
-- of a family whose TCP is dropped, in the same order and unchanged, to the stack itself: the
-- stack gets the same calls, each of these packets has the stack's result, and each other ERR_RTE.
pub send_all-hooked :
    (c : Config) (env : Env Call) (ds : List Datagram) (t : Trace Call)
    → send_all (hooked c env) ds t ≡ (
      with_dropped c ds (send_all (plain env) (passing c ds) t).0,
      (send_all (plain env) (passing c ds) t).1,
    )
unfolding send_all
send_all-hooked c env [] t = refl
send_all-hooked c env (d ∷ ds) t = elim (Bool-cases (is_dropped c d)) [
  | inl dropped ↦ rw (dropped, hooked-dropped c env d t dropped, send_all-hooked c env ds t)
  | inr passed ↦
      rw (passed, hooked-passed c env d t passed, send_all-hooked c env ds (plain env d t).1)
]

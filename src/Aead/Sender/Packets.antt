-- ===== src/Aead/Sender/Packets.antt =====
-- What the rounds of ascon/sender/main/sender.c send, over any provider that keeps the contract.
use esp_network_examples.Prelude.{
  ℕ, zero, suc, ◌+◌, ◌-◌, ◌*◌, ◌%◌, ◌^◌, ◌≤◌, ◌<◌, ℤ, is_neg, is_zero, false, List, [], ◌∷◌, ◌++◌,
  Option, some, ◌≡◌, refl, sym, ap, ◌∙◌, arith, length, replicate, take, drop, read, read_all,
  read_append, append_assoc, copy_at_start, copy_at_behind, length-append, length-drop, ltb,
}
use esp_network_examples.Aead.Codec.Counter.{counter_bytes, counter_bytes_inj, be64_lem}
use esp_network_examples.Aead.Codec.{be64}
use esp_network_examples.Aead.Codec.Hex.{bytes_to_hex_total}
use esp_network_examples.Aead.Provider.{
  Impl, ascon, aes_gcm, chacha20_poly1305, mock, key_len, nonce_len, tag_len, Provider, IsAead,
}
use esp_network_examples.Aead.Sender.{
  g_key, count_up, plaintext, Sender, initial, Round, sent, log_round, send_sealed, send_round,
  Event, datagram, send_loop, sender_main,
}

pub nonce_len_bounds : (i : Impl) → (8 ≤ nonce_len i) × (nonce_len i ≤ 16)
nonce_len_bounds ascon = omega arith
nonce_len_bounds aes_gcm = omega arith
nonce_len_bounds chacha20_poly1305 = omega arith
nonce_len_bounds mock = omega arith

pub tag_len_lem : (i : Impl) → tag_len i ≡ 16
tag_len_lem ascon = refl
tag_len_lem aes_gcm = refl
tag_len_lem chacha20_poly1305 = refl
tag_len_lem mock = refl

pub length-count_up : (k n : ℕ) → length (count_up k n) ≡ k
length-count_up zero n = refl
length-count_up (suc k) n = ap suc (length-count_up k (suc n))

-- The nonce of a round: the counter, and zeros up to the length of a nonce.
abbrev pub nonce_of : Impl → ℕ → List ℕ
nonce_of i c = counter_bytes c ++ replicate (nonce_len i - 8) 0

pub length-nonce_of : (i : Impl) (c : ℕ) → length (nonce_of i c) ≡ nonce_len i
length-nonce_of ascon c = refl
length-nonce_of aes_gcm c = refl
length-nonce_of chacha20_poly1305 c = refl
length-nonce_of mock c = refl

module _ (p : Provider) (law : IsAead p) where
  abbrev pub sealed_hello : ℕ → List ℕ
  sealed_hello c = law.seal plaintext (counter_bytes c) (nonce_of p.impl c) (g_key p.impl)

  -- The datagram of the round with counter `c`.
  abbrev pub packet_of : ℕ → List ℕ
  packet_of c = nonce_of p.impl c ++ sealed_hello c

  pub length-sealed_hello : (c : ℕ) → length (sealed_hello c) ≡ 33
  length-sealed_hello c =
      law.length-seal plaintext (counter_bytes c) (nonce_of p.impl c) (g_key p.impl)
        (omega (arith, length-nonce_of p.impl c))
        (omega (arith, length-count_up (key_len p.impl) 0))
      ∙ omega (arith, tag_len_lem p.impl)

-- The static buffers of a sender have their sizes, and the end of the nonce is still zero.
pub record IsReady (i : Impl) (s : Sender) : Type 0 where
  pub length-nonce : length s.nonce ≡ nonce_len i
  pub nonce_end : drop 8 s.nonce ≡ replicate (nonce_len i - 8) 0
  pub length-ct : length s.ct_and_tag ≡ 512
  pub length-packet : length s.packet ≡ nonce_len i + 512
  pub length-nonce_hex : length s.nonce_hex ≡ nonce_len i * 2 + 1
  pub length-ct_hex : length s.ct_hex ≡ 1024

initial-IsReady : (i : Impl) → IsReady i (initial i)
initial-IsReady ascon = record {
  length-nonce = refl;
  nonce_end = refl;
  length-ct = refl;
  length-packet = refl;
  length-nonce_hex = refl;
  length-ct_hex = refl;
}
initial-IsReady aes_gcm = record {
  length-nonce = refl;
  nonce_end = refl;
  length-ct = refl;
  length-packet = refl;
  length-nonce_hex = refl;
  length-ct_hex = refl;
}
initial-IsReady chacha20_poly1305 = record {
  length-nonce = refl;
  nonce_end = refl;
  length-ct = refl;
  length-packet = refl;
  length-nonce_hex = refl;
  length-ct_hex = refl;
}
initial-IsReady mock = record {
  length-nonce = refl;
  nonce_end = refl;
  length-ct = refl;
  length-packet = refl;
  length-nonce_hex = refl;
  length-ct_hex = refl;
}

-- A round that goes well sends `d` and leaves a ready sender with the next counter.
abbrev SentWell : Impl → List ℕ → ℕ → Option Round → Type 0
SentWell i d c o =
    (s : Sender) × (o ≡ some (sent d s)) × IsReady i s × (s.counter ≡ (c + 1) % 2 ^ 64)

module _ (p : Provider) (sendto : List ℕ → ℤ) where
  log_round_lem :
      (nonce ct d : List ℕ) (s : Sender)
      → IsReady p.impl s
      → SentWell p.impl d s.counter (log_round p sendto nonce ct d s)
  unfolding log_round
  log_round_lem nonce ct d s ready =
      let (hex1, e1, l1) =
        bytes_to_hex_total nonce s.nonce_hex (nonce_len p.impl * 2 + 1)
          (sym ready.length-nonce_hex) in
      let (hex2, e2, l2) = bytes_to_hex_total ct s.ct_hex 1024 (sym ready.length-ct_hex) in
      (
        record s { nonce_hex = hex1; ct_hex = hex2; counter = (s.counter + 1) % 2 ^ 64 },
        rw (e1, e2),
        record {
          length-nonce = ready.length-nonce;
          nonce_end = ready.nonce_end;
          length-ct = ready.length-ct;
          length-packet = ready.length-packet;
          length-nonce_hex = l1;
          length-ct_hex = l2;
        },
        refl,
      )

  -- A ciphertext at the start of its buffer goes out behind its nonce.
  send_sealed_lem :
      (nonce ct rest : List ℕ) (s : Sender)
      → IsReady p.impl s
      → length nonce ≡ nonce_len p.impl
      → s.ct_and_tag ≡ ct ++ rest
      → is_neg (sendto (nonce ++ ct)) ≡ false
      → SentWell p.impl (nonce ++ ct) s.counter (send_sealed p sendto nonce (length ct) s)
  unfolding send_sealed
  send_sealed_lem nonce ct rest s ready ln e ok =
      let n = nonce_len p.impl in
      let body = drop (length nonce) s.packet in
      let size : length ct + length rest ≡ 512 =
        omega (arith, ready.length-ct, length-append ct rest, ap length e) in
      let small : ltb 512 (length ct) ≡ false = ground arith in
      let left : length body ≡ 512 =
        omega (arith, length-drop (length nonce) s.packet, ready.length-packet, ln) in
      let packet = nonce ++ (ct ++ drop (length ct) body) in
      let ready' : IsReady p.impl (record s { packet = packet }) = record {
        length-nonce = ready.length-nonce;
        nonce_end = ready.nonce_end;
        length-ct = ready.length-ct;
        length-packet = omega (
          arith,
          ln,
          length-append nonce (ct ++ drop (length ct) body),
          length-append ct (drop (length ct) body),
          length-drop (length ct) body,
        );
        length-nonce_hex = ready.length-nonce_hex;
        length-ct_hex = ready.length-ct_hex;
      } in
      let whole : read (n + length ct) packet ≡ some (nonce ++ ct) =
        ap (read (n + length ct)) (sym (append_assoc nonce ct (drop (length ct) body)))
        ∙ read_append (n + length ct) (nonce ++ ct) (drop (length ct) body)
            (omega (arith, ln, length-append nonce ct)) in
      rw
        (
          small,
          read_all n nonce (sym ln),
          copy_at_start nonce s.packet (omega (arith, ready.length-packet, ln)),
          ap (read (length ct)) e ∙ read_append (length ct) ct rest refl,
          copy_at_behind n nonce ct body (sym ln) (omega arith),
          whole,
          ok,
        )
        (log_round_lem nonce ct (nonce ++ ct) (record s { packet = packet }) ready')

  -- A round of a ready sender, over a provider that keeps the contract and a network that takes
  -- the datagram, sends the packet of its counter.
  pub send_round_lem :
      (law : IsAead p) (s : Sender)
      → IsReady p.impl s
      → is_neg (sendto (packet_of p law s.counter)) ≡ false
      → SentWell p.impl (packet_of p law s.counter) s.counter (send_round p sendto s)
  unfolding send_round
  send_round_lem law s ready ok =
      let i = p.impl in
      let nonce = nonce_of i s.counter in
      let text = sealed_hello p law s.counter in
      let lt = length-sealed_hello p law s.counter in
      let key = length-count_up (key_len i) 0 in
      let written : be64 s.nonce s.counter ≡ some nonce =
        be64_lem s.nonce s.counter (omega (arith, ready.length-nonce, nonce_len_bounds i))
        ∙ ap (λ ys. some (counter_bytes s.counter ++ ys)) ready.nonce_end in
      let enc =
        law.encrypt-seal s.ct_and_tag (some 0) plaintext (counter_bytes s.counter) nonce (g_key i)
          (omega (arith, length-nonce_of i s.counter)) (omega (arith, key))
          (omega (arith, tag_len_lem i, ready.length-ct)) in
      let rest = drop (length plaintext + tag_len i) s.ct_and_tag in
      let s' = record s { nonce = nonce; ct_and_tag = text ++ rest } in
      let ready' : IsReady i s' = record {
        length-nonce = length-nonce_of i s.counter;
        nonce_end = refl;
        length-ct = omega (
          arith,
          length-append text rest,
          length-drop (length plaintext + tag_len i) s.ct_and_tag,
          ready.length-ct,
          tag_len_lem i,
        );
        length-packet = ready.length-packet;
        length-nonce_hex = ready.length-nonce_hex;
        length-ct_hex = ready.length-ct_hex;
      } in
      let clen : length plaintext + tag_len i ≡ length text = omega (arith, tag_len_lem i) in
      let step : send_round p sendto s ≡ send_sealed p sendto nonce (length text) s' =
        rw (written, be64_lem (replicate 8 0) s.counter (omega arith), enc)
          (ap (λ (n : ℕ). send_sealed p sendto nonce n s') clen) in
      rw step (send_sealed_lem nonce text rest s' ready' (length-nonce_of i s.counter) refl ok)

  -- The datagrams of the rounds with counters `c`, `c + 1`, …
  abbrev pub packets_from : IsAead p → ℕ → ℕ → List Event
  packets_from law c zero = []
  packets_from law c (suc n) = datagram (packet_of p law c) ∷ packets_from law (c + 1) n

  send_loop-packets_from :
      (law : IsAead p)
      → ((d : List ℕ) → is_neg (sendto d) ≡ false)
      → (n c : ℕ) (s : Sender) → IsReady p.impl s
      → s.counter ≡ c
      → c + n < 2 ^ 64
      → send_loop p sendto n s ≡ some (packets_from law c n)
  unfolding send_loop
  send_loop-packets_from law ok zero c s ready e h = refl
  send_loop-packets_from law ok (suc n) c s ready e h =
      let (s', sent_it, ready', next) = send_round_lem law s ready (ok _) in
      rw
        (
          sent_it,
          send_loop-packets_from law ok n (c + 1) s' ready' (omega (arith, next, e)) (omega arith),
        )
        (ap (λ (k : ℕ). some (datagram (packet_of p law k) ∷ packets_from law (c + 1) n)) e)

  -- Over a provider that keeps the contract and a network that takes every datagram, the first `n`
  -- rounds of the program do not fault and send the packets of the counters 1 to `n`.
  pub sender_main-packets_from :
      (law : IsAead p) (sock aton : ℤ)
      → ((d : List ℕ) → is_neg (sendto d) ≡ false)
      → is_neg sock ≡ false
      → is_zero aton ≡ false
      → (n : ℕ) → n < 2 ^ 64 - 1
      → sender_main p sendto sock aton n ≡ some (packets_from law 1 n)
  unfolding sender_main
  sender_main-packets_from law sock aton ok open_ok valid n h =
      rw (open_ok, valid)
        (send_loop-packets_from law ok n 1 (initial p.impl) (initial-IsReady p.impl) refl
          (omega arith))

-- Distinct rounds use distinct nonces, until the counter has run through 2 ^ 64 values.
pub nonce_of_inj :
    (i : Impl) (c d : ℕ) → c < 2 ^ 64 → d < 2 ^ 64 → nonce_of i c ≡ nonce_of i d → c ≡ d
nonce_of_inj i c d hc hd e = counter_bytes_inj c d hc hd (ap (take 8) e)

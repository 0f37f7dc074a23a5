-- ===== src/Aead/Receiver/Link.antt =====
-- From sender to receiver: ascon/receiver/main/receiver.c on the datagrams that
-- ascon/sender/main/sender.c sends.
use esp_network_examples.Prelude.{
  ℕ, ◌+◌, ◌*◌, ◌≤◌, pos, List, [], ◌∷◌, ◌++◌, Option, some, ◌≡◌, arith, length, take, drop,
  length-append, length-drop, store-append, ltb, if◌then◌else◌, store-append, c_string_lem, IsText,
}
use esp_network_examples.Aead.Codec.Counter.{counter_bytes}
use esp_network_examples.Aead.Codec.Hex.{
  hex_text, hex_out, length-hex_out, c_string-hex_out, bytes_to_hex-some,
}
use esp_network_examples.Aead.Provider.{Impl, key_len, nonce_len, tag_len, Provider, IsAead}
use esp_network_examples.Aead.Sender.{g_key, plaintext}
use esp_network_examples.Aead.Sender.Packets.{
  nonce_of, length-nonce_of, sealed_hello, length-sealed_hello, packet_of, nonce_len_bounds,
  tag_len_lem, length-count_up,
}
use esp_network_examples.Aead.Receiver.Split.{IsSized, taken, taken-IsSized, recv_round_split}
use esp_network_examples.Aead.Receiver.{Receiver, Log, opened, log_packet, recv_round}

-- A round that opens a packet: what it logs, and a receiver of the same sizes.
abbrev pub Opens : Impl → List ℕ → List ℕ → List ℕ → Option (Receiver × Log) → Type 0
Opens i nonce ct text o =
    (s : Receiver) × (o ≡ some (s, opened (hex_text nonce) (hex_text ct) text)) × IsSized i s

module _ (p : Provider) where
  -- Logging a text that was decrypted to the start of the buffer.
  log_packet-opened :
      (nonce ct text rest : List ℕ) (s : Receiver)
      → IsSized p.impl s
      → length nonce ≡ nonce_len p.impl
      → length ct ≤ 511
      → IsText text
      → length text + length rest ≡ 1024
      → length text ≤ 1023
      → Opens p.impl nonce ct text (
          log_packet p nonce ct
            (record { ret = pos 0; out = text ++ rest; len = some (length text) })
            s)
  unfolding log_packet
  log_packet-opened nonce ct text [] s sized ln lc h lr short = absurd (omega arith)
  log_packet-opened nonce ct text (old ∷ rest) s sized ln lc h lr short =
      let i = p.impl in
      let hex1 = hex_out nonce s.nonce_hex in
      let hex2 = hex_out ct s.ct_hex in
      let print_len : (if ltb (length text) 1023 then length text else 1023) ≡ length text =
        ground arith in
      (
        record s { pt = text ++ (0 ∷ rest); nonce_hex = hex1; ct_hex = hex2 },
        rw (
          bytes_to_hex-some nonce s.nonce_hex (nonce_len i * 2 + 1) (omega (arith, ln))
              (omega (arith, sized.length-nonce_hex)),
          bytes_to_hex-some ct s.ct_hex 1024 (omega arith) (omega (arith, sized.length-ct_hex)),
          c_string-hex_out nonce s.nonce_hex,
          c_string-hex_out ct s.ct_hex,
          print_len,
          store-append text old rest 0,
          c_string_lem text rest h,
        ),
        record {
          length-buf = sized.length-buf;
          length-aad = sized.length-aad;
          length-pt = omega (arith, length-append text (0 ∷ rest));
          length-nonce_hex = omega (
            arith,
            length-hex_out nonce s.nonce_hex (omega (arith, ln, sized.length-nonce_hex)),
            sized.length-nonce_hex,
          );
          length-ct_hex = omega (
            arith,
            length-hex_out ct s.ct_hex (omega (arith, sized.length-ct_hex)),
            sized.length-ct_hex,
          );
        },
      )

  -- A round on a nonce and a ciphertext that the provider opens to `text`.
  recv_round-opened :
      (nonce ct text : List ℕ) (s : Receiver)
      → IsSized p.impl s
      → length nonce ≡ nonce_len p.impl
      → tag_len p.impl ≤ length ct
      → length ct ≤ 511
      → IsText text
      → length text ≤ 1023
      → ((out : List ℕ)
          → length text ≤ length out
          → p.decrypt out (some 0) ct (take 8 nonce) nonce (g_key p.impl)
            ≡ some (record {
              ret = pos 0;
              out = text ++ drop (length text) out;
              len = some (length text);
            }))
      → Opens p.impl nonce ct text (recv_round p (nonce ++ ct) s)
  unfolding recv_round
  recv_round-opened nonce ct text s sized ln lt lc h short dec =
      let bound = nonce_len_bounds p.impl in
      rw
        (
          recv_round_split p nonce ct s sized ln lt (omega (arith, ln, bound)),
          dec s.pt (omega (arith, sized.length-pt)),
        )
        (log_packet-opened nonce ct text (drop (length text) s.pt) (taken s nonce ct)
          (taken-IsSized p.impl s nonce ct sized (omega (arith, ln, bound))
            (omega (arith, ln, bound)))
          ln lc h (omega (arith, length-drop (length text) s.pt, sized.length-pt)) short)

  -- The receiver opens every packet that the sender sends, with the sender's text: it takes the
  -- associated data from the first eight bytes of the nonce, where the sender put the counter.
  pub recv_round-packet_of :
      (law : IsAead p) (c : ℕ) (s : Receiver)
      → IsSized p.impl s
      → Opens p.impl
          (nonce_of p.impl c)
          (sealed_hello p law c)
          plaintext
          (recv_round p (packet_of p law c) s)
  recv_round-packet_of law c s sized =
      let i = p.impl in
      let lt = length-sealed_hello p law c in
      recv_round-opened (nonce_of i c) (sealed_hello p law c) plaintext s sized
        (length-nonce_of i c) (omega (arith, lt, tag_len_lem i)) (omega (arith, lt)) (omega arith)
        (omega arith)
        (λ out room.
          law.decrypt-seal out (some 0) plaintext (counter_bytes c) (nonce_of i c) (g_key i)
            (omega (arith, length-nonce_of i c)) (omega (arith, length-count_up (key_len i) 0))
            room)

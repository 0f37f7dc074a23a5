-- ===== src/Aead/Receiver/Limits.antt =====
-- What ascon/receiver/main/receiver.c does with packets that are too short, or too long for its
-- buffers.
use esp_network_examples.Prelude.{
  ℕ, ◌+◌, ◌*◌, ◌≤◌, ◌<◌, pos, negsuc, List, ◌++◌, Option, none, some, ◌≡◌, refl, ◌∙◌, arith, length,
  take, drop, copy_at_start, take_all, lt→ltb, c_string,
}
use esp_network_examples.Aead.Codec.Hex.{
  hex_text, hex_out, c_string-hex_out, bytes_to_hex-some, bytes_to_hex_small,
}
use esp_network_examples.Aead.Provider.{Impl, key_len, nonce_len, tag_len, Provider}
use esp_network_examples.Aead.Sender.{g_key}
use esp_network_examples.Aead.Sender.Packets.{nonce_len_bounds, tag_len_lem, length-count_up}
use esp_network_examples.Aead.Receiver.{
  Receiver, packet_too_short, auth_failure, log_packet, recv_round,
}
use esp_network_examples.Aead.Receiver.Split.{IsSized, taken, recv_round_split}
use esp_network_examples.Aead.Mbedtls.{Cipher, mbedtls_provider}
use esp_network_examples.Aead.Mbedtls.Laws.{decrypt_run-overflow}

module _ (p : Provider) where
  -- A datagram that cannot hold a nonce and a tag is logged by its length and never reaches the
  -- provider; of the buffers only the receive buffer changes.
  pub recv_round_short :
      (d : List ℕ) (s : Receiver)
      → IsSized p.impl s
      → length d < nonce_len p.impl + tag_len p.impl
      → recv_round p d s
        ≡ some (record s { buf = d ++ drop (length d) s.buf }, packet_too_short (length d))
  unfolding recv_round
  recv_round_short d s sized short =
      let bound = nonce_len_bounds p.impl in
      rw (
        take_all 2048 d (omega (arith, bound, tag_len_lem p.impl)),
        copy_at_start d s.buf (omega (arith, bound, tag_len_lem p.impl, sized.length-buf)),
        lt→ltb (length d) (nonce_len p.impl + tag_len p.impl) short,
      )

  -- A packet whose hexadecimal text does not fit is refused like any other, but the log shows the
  -- text that an earlier packet left in the buffer.
  pub recv_round_stale :
      (nonce ct old : List ℕ) (s : Receiver) (len : Option ℕ)
      → IsSized p.impl s
      → length nonce ≡ nonce_len p.impl
      → 511 < length ct
      → length nonce + length ct ≤ 2048
      → c_string s.ct_hex ≡ some old
      → p.decrypt s.pt (some 0) ct (take 8 nonce) nonce (g_key p.impl)
        ≡ some (record { ret = negsuc 0; out = s.pt; len = len })
      → (s' : Receiver) × (recv_round p (nonce ++ ct) s
          ≡ some (s', auth_failure (hex_text nonce) old))
        × (s'.ct_hex ≡ s.ct_hex)
  unfolding log_packet
  recv_round_stale nonce ct old s len sized ln long room text refused =
      let t = taken s nonce ct in
      (
        record t { nonce_hex = hex_out nonce s.nonce_hex },
        recv_round_split p nonce ct s sized ln (omega (arith, tag_len_lem p.impl)) room
            ∙ rw (
              refused,
              bytes_to_hex-some nonce s.nonce_hex (nonce_len p.impl * 2 + 1) (omega (arith, ln))
                  (omega (arith, sized.length-nonce_hex)),
              bytes_to_hex_small ct s.ct_hex 1024 (omega arith),
              c_string-hex_out nonce s.nonce_hex,
              text,
            ),
        refl,
      )

-- The receiver bounds the length of a packet by its receive buffer only. Over mbed TLS, which
-- writes its output before it knows whether the tag is right, every packet whose ciphertext is
-- longer than the buffer for the plaintext, and not only an authentic one, makes the decryption
-- write past the end of that buffer.
pub recv_round-overflow :
    (i : Impl) (lib : Cipher) (nonce ct : List ℕ) (s : Receiver)
    → ((key npub ad tag c : List ℕ) → length (lib.auth_decrypt key npub ad tag c).1 ≡ length c)
    → ((key : List ℕ) → length key ≡ key_len i → lib.setkey key ≡ pos 0)
    → IsSized i s
    → length nonce ≡ nonce_len i
    → 1024 + tag_len i < length ct
    → length nonce + length ct ≤ 2048
    → recv_round (mbedtls_provider i lib) (nonce ++ ct) s ≡ none
recv_round-overflow i lib nonce ct s writes accepts sized ln long room =
    recv_round_split (mbedtls_provider i lib) nonce ct s sized ln (omega arith) room
    ∙ rw (
        decrypt_run-overflow i lib s.pt (some 0) ct (take 8 nonce) nonce (g_key i) writes accepts
          (omega (arith, length-count_up (key_len i) 0)) (omega (arith, ln))
          (omega (arith, sized.length-pt)))

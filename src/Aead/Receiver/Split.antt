-- ===== src/Aead/Receiver/Split.antt =====
-- A round of ascon/receiver/main/receiver.c takes a datagram apart.
use esp_network_examples.Prelude.{
  ℕ, ◌+◌, ◌-◌, ◌*◌, ◌≤◌, false, List, ◌++◌, some, ◌>>=◌, ◌≡◌, refl, sym, ap, ◌∙◌, arith, length,
  take, drop, read, read-some, read_append, copy_at_start, length-append, length-drop, length-take,
  length-replicate, take_all, drop_append, copy_at_whole, le→not_ltb, append_assoc, ltb, le→not_ltb,
}
use esp_network_examples.Aead.Provider.{Impl, nonce_len, tag_len, Provider}
use esp_network_examples.Aead.Sender.{g_key}
use esp_network_examples.Aead.Sender.Packets.{nonce_len_bounds}
use esp_network_examples.Aead.Receiver.{Receiver, initial, log_packet, recv_round}

-- The static buffers of a receiver have their sizes.
pub record IsSized (i : Impl) (s : Receiver) : Type 0 where
  pub length-buf : length s.buf ≡ 2048
  pub length-aad : length s.aad ≡ 8
  pub length-pt : length s.pt ≡ 1024
  pub length-nonce_hex : length s.nonce_hex ≡ nonce_len i * 2 + 1
  pub length-ct_hex : length s.ct_hex ≡ 1024

pub initial-IsSized : (i : Impl) → IsSized i (initial i)
initial-IsSized i = record {
  length-buf = length-replicate {A = ℕ} 2048 0;
  length-aad = refl;
  length-pt = length-replicate {A = ℕ} 1024 0;
  length-nonce_hex = length-replicate {A = ℕ} (nonce_len i * 2 + 1) 0;
  length-ct_hex = length-replicate {A = ℕ} 1024 0;
}

-- The receiver behind `recvfrom` and the copy of the associated data.
abbrev pub taken : Receiver → List ℕ → List ℕ → Receiver
taken s nonce ct = record s {
  buf = (nonce ++ ct) ++ drop (length (nonce ++ ct)) s.buf;
  aad = take 8 nonce;
}

pub taken-IsSized :
    (i : Impl) (s : Receiver) (nonce ct : List ℕ)
    → IsSized i s
    → 8 ≤ length nonce
    → length nonce + length ct ≤ 2048
    → IsSized i (taken s nonce ct)
taken-IsSized i s nonce ct sized ln room = record {
  length-buf = omega (
    arith,
    length-append (nonce ++ ct) (drop (length (nonce ++ ct)) s.buf),
    length-drop (length (nonce ++ ct)) s.buf,
    length-append nonce ct,
    sized.length-buf,
  );
  length-aad = length-take 8 nonce ln;
  length-pt = sized.length-pt;
  length-nonce_hex = sized.length-nonce_hex;
  length-ct_hex = sized.length-ct_hex;
}

module _ (p : Provider) where
  -- A datagram that is long enough is taken apart, and its pieces go to the provider.
  pub recv_round_split :
      (nonce ct : List ℕ) (s : Receiver)
      → IsSized p.impl s
      → length nonce ≡ nonce_len p.impl
      → tag_len p.impl ≤ length ct
      → length nonce + length ct ≤ 2048
      → recv_round p (nonce ++ ct) s ≡ (
          p.decrypt s.pt (some 0) ct (take 8 nonce) nonce (g_key p.impl) >>= λ r.
          log_packet p nonce ct r (taken s nonce ct))
  unfolding recv_round
  recv_round_split nonce ct s sized ln lt room =
      let i = p.impl in
      let dgram = nonce ++ ct in
      let len = length-append nonce ct in
      let bound = nonce_len_bounds i in
      let all : take 2048 dgram ≡ dgram = take_all 2048 dgram (omega (arith, len, room)) in
      let rest = drop (length dgram) s.buf in
      let buf = dgram ++ rest in
      let long : ltb (length dgram) (nonce_len i + tag_len i) ≡ false =
        le→not_ltb _ _ (omega (arith, len, ln)) in
      let head : read (nonce_len i) buf ≡ some nonce =
        ap (read (nonce_len i)) (append_assoc nonce ct rest)
        ∙ read_append (nonce_len i) nonce (ct ++ rest) (sym ln) in
      let body : read (length dgram - nonce_len i) (drop (nonce_len i) buf) ≡ some ct =
        ap (λ xs. read (length dgram - nonce_len i) (drop (nonce_len i) xs))
          (append_assoc nonce ct rest)
        ∙ ap (read (length dgram - nonce_len i))
            (drop_append (nonce_len i) nonce (ct ++ rest) (sym ln))
        ∙ read_append (length dgram - nonce_len i) ct rest (omega (arith, len, ln)) in
      rw (
        all,
        copy_at_start dgram s.buf (omega (arith, len, ln, room, sized.length-buf)),
        long,
        head,
        body,
        read-some 8 nonce (omega (arith, ln, bound)),
        copy_at_whole (take 8 nonce) s.aad
            (omega (arith, length-take 8 nonce (omega (arith, ln, bound)), sized.length-aad)),
      )

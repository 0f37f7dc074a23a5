-- ===== src/Aead/Ascon.antt =====
-- ascon/components/ascon/ascon_wrapper.c and ascon/components/crypto_aead/provider_ascon.c: the
-- provider over ascon-c, whose two functions are parameters.
use esp_network_examples.Prelude.{
  ℕ, ◌+◌, ◌≤◌, ℤ, pos, List, ◌++◌, Option, some, ◌>>=◌, ◌≡◌, length, copy_at, copy_at_start, arith,
  drop, length-take, read, read-some, take,
}
use esp_network_examples.Aead.Provider.{
  ascon, key_len, nonce_len, tag_len, set_len, Operation, Provider, IsAead,
}

-- `crypto_aead_encrypt` and `crypto_aead_decrypt`, of the input, the associated data, the nonce and
-- the key: the result code, the bytes written to the output, and the output length.
pub record AsconC : Type 0 where
  pub crypto_aead_encrypt : List ℕ → List ℕ → List ℕ → List ℕ → ℤ × List ℕ × ℕ
  pub crypto_aead_decrypt : List ℕ → List ℕ → List ℕ → List ℕ → ℤ × List ℕ × ℕ

module _ (lib : AsconC) where
  -- The wrapper hands the length on also where the call failed.
  unfoldable pub ascon_aead128_encrypt : Operation
  ascon_aead128_encrypt c clen m ad npub k = read (nonce_len ascon) npub >>= λ nonce.
      read (key_len ascon) k >>= λ key.
      let (ret, written, outlen) = lib.crypto_aead_encrypt m ad nonce key in
      copy_at c 0 written >>= λ c'. some (record { ret = ret; out = c'; len = set_len clen outlen })

  unfoldable pub ascon_aead128_decrypt : Operation
  ascon_aead128_decrypt m mlen c ad npub k = read (nonce_len ascon) npub >>= λ nonce.
      read (key_len ascon) k >>= λ key.
      let (ret, written, outlen) = lib.crypto_aead_decrypt c ad nonce key in
      copy_at m 0 written >>= λ m'. some (record { ret = ret; out = m'; len = set_len mlen outlen })

  abbrev pub ascon_provider : Provider
  ascon_provider = record {
    impl = ascon;
    encrypt = ascon_aead128_encrypt;
    decrypt = ascon_aead128_decrypt;
  }

  -- What ascon-c documents, for keys and nonces of 16 bytes: encryption returns 0 and a ciphertext
  -- that is 16 bytes longer than the message, and decryption of it returns 0 and the message.
  pub record IsDocumented : Type 0 where
    pub encrypt_ok :
        (m ad nonce key : List ℕ)
        → length nonce ≡ nonce_len ascon
        → length key ≡ key_len ascon
        → ((lib.crypto_aead_encrypt m ad nonce key).0 ≡ pos 0)
          × (length (lib.crypto_aead_encrypt m ad nonce key).1 ≡ length m + tag_len ascon)
          × ((lib.crypto_aead_encrypt m ad nonce key).2 ≡ length m + tag_len ascon)
    pub decrypt_ok :
        (m ad nonce key : List ℕ)
        → length nonce ≡ nonce_len ascon
        → length key ≡ key_len ascon
        → lib.crypto_aead_decrypt (lib.crypto_aead_encrypt m ad nonce key).1 ad nonce key
          ≡ (pos 0, m, length m)

  module _ (doc : IsDocumented) where
    abbrev seal_with : List ℕ → List ℕ → List ℕ → List ℕ → List ℕ
    seal_with m ad npub k =
        (lib.crypto_aead_encrypt m ad (take (nonce_len ascon) npub) (take (key_len ascon) k)).1

    encrypt-seal_with :
        (c : List ℕ) (clen : Option ℕ) (m ad npub k : List ℕ)
        → nonce_len ascon ≤ length npub
        → key_len ascon ≤ length k
        → length m + tag_len ascon ≤ length c
        → ascon_aead128_encrypt c clen m ad npub k
          ≡ some (record {
            ret = pos 0;
            out = seal_with m ad npub k ++ drop (length m + tag_len ascon) c;
            len = set_len clen (length m + tag_len ascon);
          })
    unfolding ascon_aead128_encrypt
    encrypt-seal_with c clen m ad npub k hn hk room =
        let key = take (key_len ascon) k in
        let nonce = take (nonce_len ascon) npub in
        let (ret, size, outlen) =
          doc.encrypt_ok m ad nonce key (length-take 16 npub hn) (length-take 16 k hk) in
        rw (
          read-some 16 npub hn,
          read-some 16 k hk,
          copy_at_start (lib.crypto_aead_encrypt m ad nonce key).1 c (omega arith),
          ret,
          size,
          outlen,
        )

    decrypt-seal_with :
        (out : List ℕ) (mlen : Option ℕ) (m ad npub k : List ℕ)
        → nonce_len ascon ≤ length npub
        → key_len ascon ≤ length k
        → length m ≤ length out
        → ascon_aead128_decrypt out mlen (seal_with m ad npub k) ad npub k
          ≡ some (record {
            ret = pos 0;
            out = m ++ drop (length m) out;
            len = set_len mlen (length m);
          })
    unfolding ascon_aead128_decrypt
    decrypt-seal_with out mlen m ad npub k hn hk room = rw (
      read-some 16 npub hn,
      read-some 16 k hk,
      doc.decrypt_ok m ad (take 16 npub) (take 16 k) (length-take 16 npub hn) (length-take 16 k hk),
      copy_at_start m out room,
    )

    -- The wrapper over a documented ascon-c keeps the contract of an AEAD provider.
    pub ascon_provider-IsAead : IsAead ascon_provider
    ascon_provider-IsAead = record {
      seal = seal_with;
      length-seal = λ m ad npub k hn hk.
          (doc.encrypt_ok m ad (take 16 npub) (take 16 k) (length-take 16 npub hn)
            (length-take 16 k hk)).1;
      encrypt-seal = encrypt-seal_with;
      decrypt-seal = decrypt-seal_with;
    }

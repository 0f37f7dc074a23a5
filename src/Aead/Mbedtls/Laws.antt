-- ===== src/Aead/Mbedtls/Laws.antt =====
-- The providers over mbed TLS (ascon/components/crypto_aead/provider_aes_gcm.c,
-- provider_chacha20poly1305.c), given what the library documents of its ciphers.
use esp_network_examples.Prelude.{
  ℕ, ◌+◌, ◌-◌, ◌≤◌, ◌<◌, pos, false, List, ◌++◌, Option, none, some, ◌≡◌, refl, ◌∙◌, arith, length,
  take, drop, read-some, length-take, length-append, length-drop, take-append, drop-append,
  copy_at-none, copy_at_start, copy_at_behind, drop-drop, append_assoc, ltb,
}
use mathlib.Core.Option
use esp_network_examples.Aead.Provider.{Impl, key_len, nonce_len, tag_len, set_len, IsAead}
use esp_network_examples.Aead.Mbedtls.{
  Cipher, ContextCall, Run, encrypt_keyed, encrypt_run, decrypt_keyed, decrypt_run,
  mbedtls_provider,
}

-- What mbed TLS documents of a cipher, at the sizes of the implementation: a key of the right size
-- is accepted; encryption succeeds, its ciphertext is as long as the message and the tag has the
-- size that was asked for; and decryption of these with their tag succeeds with the message.
pub record IsDocumented (i : Impl) (lib : Cipher) : Type 0 where
  pub setkey_ok : (key : List ℕ) → length key ≡ key_len i → lib.setkey key ≡ pos 0
  pub encrypt_ok :
      (key nonce ad m : List ℕ)
      → length key ≡ key_len i
      → length nonce ≡ nonce_len i
      → (lib.encrypt_and_tag key nonce ad m).0 ≡ pos 0
  pub length-ciphertext :
      (key nonce ad m : List ℕ)
      → length key ≡ key_len i
      → length nonce ≡ nonce_len i
      → length (lib.encrypt_and_tag key nonce ad m).1 ≡ length m
  pub length-tag :
      (key nonce ad m : List ℕ)
      → length key ≡ key_len i
      → length nonce ≡ nonce_len i
      → length (lib.encrypt_and_tag key nonce ad m).2 ≡ tag_len i
  pub decrypt_ok :
      (key nonce ad m : List ℕ)
      → length key ≡ key_len i
      → length nonce ≡ nonce_len i
      → lib.auth_decrypt key nonce ad
          (lib.encrypt_and_tag key nonce ad m).2
          (lib.encrypt_and_tag key nonce ad m).1
        ≡ (pos 0, m)

module _ (i : Impl) (lib : Cipher) (doc : IsDocumented i lib) where
  abbrev seal_with : List ℕ → List ℕ → List ℕ → List ℕ → List ℕ
  seal_with m ad npub k =
      let key = take (key_len i) k in
      let nonce = take (nonce_len i) npub in
      (lib.encrypt_and_tag key nonce ad m).1 ++ (lib.encrypt_and_tag key nonce ad m).2

  length-seal_with :
      (m ad npub k : List ℕ)
      → nonce_len i ≤ length npub
      → key_len i ≤ length k
      → length (seal_with m ad npub k) ≡ length m + tag_len i
  length-seal_with m ad npub k hn hk =
      let lk = length-take (key_len i) k hk in
      let ln = length-take (nonce_len i) npub hn in
      let key = take (key_len i) k in
      let nonce = take (nonce_len i) npub in
      length-append (lib.encrypt_and_tag key nonce ad m).1 (lib.encrypt_and_tag key nonce ad m).2
      ∙ rw (doc.length-ciphertext _ _ ad m lk ln, doc.length-tag _ _ ad m lk ln)

  encrypt_keyed-seal :
      (made : List ContextCall) (c : List ℕ) (clen : Option ℕ) (m ad nonce key : List ℕ)
      → length key ≡ key_len i
      → length nonce ≡ nonce_len i
      → length m + tag_len i ≤ length c
      → Option.map Run.reply (encrypt_keyed i lib made c clen m ad nonce key)
        ≡ some (record {
          ret = pos 0;
          out =
              ((lib.encrypt_and_tag key nonce ad m).1 ++ (lib.encrypt_and_tag key nonce ad m).2)
              ++ drop (length m + tag_len i) c;
          len = set_len clen (length m + tag_len i);
        })
  unfolding encrypt_keyed
  encrypt_keyed-seal made c clen m ad nonce key lk ln room =
      let ct = (lib.encrypt_and_tag key nonce ad m).1 in
      let tag = (lib.encrypt_and_tag key nonce ad m).2 in
      let lc = doc.length-ciphertext key nonce ad m lk ln in
      let lt = doc.length-tag key nonce ad m lk ln in
      rw (
        copy_at_start ct c (omega (arith, lc)),
        ← lc,
        copy_at_behind (length ct) ct tag (drop (length ct) c) refl
            (omega (arith, lc, lt, length-drop (length ct) c)),
        doc.encrypt_ok key nonce ad m lk ln,
        drop-drop (length ct) (length tag) c,
        lt,
        append_assoc,
      )

  encrypt_run-seal :
      (c : List ℕ) (clen : Option ℕ) (m ad npub k : List ℕ)
      → nonce_len i ≤ length npub
      → key_len i ≤ length k
      → length m + tag_len i ≤ length c
      → Option.map Run.reply (encrypt_run i lib c clen m ad npub k)
        ≡ some (record {
          ret = pos 0;
          out = seal_with m ad npub k ++ drop (length m + tag_len i) c;
          len = set_len clen (length m + tag_len i);
        })
  unfolding encrypt_run
  encrypt_run-seal c clen m ad npub k hn hk room =
      let lk = length-take (key_len i) k hk in
      let ln = length-take (nonce_len i) npub hn in
      rw
        (
          read-some (key_len i) k hk,
          doc.setkey_ok (take (key_len i) k) lk,
          read-some (nonce_len i) npub hn,
        )
        (encrypt_keyed-seal _ c clen m ad (take (nonce_len i) npub) (take (key_len i) k) lk ln room)

  decrypt_keyed-seal :
      (made : List ContextCall) (out : List ℕ) (mlen : Option ℕ) (m ad nonce key : List ℕ)
      → length key ≡ key_len i
      → length nonce ≡ nonce_len i
      → length m ≤ length out
      → Option.map Run.reply (
          decrypt_keyed i lib made out mlen
            (lib.encrypt_and_tag key nonce ad m).1
            (lib.encrypt_and_tag key nonce ad m).2
            ad
            nonce
            key)
        ≡ some
            (record { ret = pos 0; out = m ++ drop (length m) out; len = set_len mlen (length m) })
  unfolding decrypt_keyed
  decrypt_keyed-seal made out mlen m ad nonce key lk ln room = rw (
    doc.decrypt_ok key nonce ad m lk ln,
    copy_at_start m out room,
    doc.length-ciphertext key nonce ad m lk ln,
  )

  decrypt_run-seal :
      (out : List ℕ) (mlen : Option ℕ) (m ad npub k : List ℕ)
      → nonce_len i ≤ length npub
      → key_len i ≤ length k
      → length m ≤ length out
      → Option.map Run.reply (decrypt_run i lib out mlen (seal_with m ad npub k) ad npub k)
        ≡ some
            (record { ret = pos 0; out = m ++ drop (length m) out; len = set_len mlen (length m) })
  unfolding decrypt_run
  decrypt_run-seal out mlen m ad npub k hn hk room =
      let key = take (key_len i) k in
      let nonce = take (nonce_len i) npub in
      let lk = length-take (key_len i) k hk in
      let ln = length-take (nonce_len i) npub hn in
      let ct = (lib.encrypt_and_tag key nonce ad m).1 in
      let tag = (lib.encrypt_and_tag key nonce ad m).2 in
      let whole = length-seal_with m ad npub k hn hk in
      let n : length (ct ++ tag) - tag_len i ≡ length ct =
        omega (arith, whole, doc.length-ciphertext key nonce ad m lk ln) in
      let long : ltb (length (ct ++ tag)) (tag_len i) ≡ false = ground (arith, whole) in
      rw
        (
          long,
          read-some (key_len i) k hk,
          doc.setkey_ok key lk,
          read-some (nonce_len i) npub hn,
          n,
          take-append ct tag,
          drop-append ct tag,
        )
        (decrypt_keyed-seal _ out mlen m ad nonce key lk ln room)

  -- A documented cipher gives a provider that keeps the contract of an AEAD provider.
  pub mbedtls_provider-IsAead : IsAead (mbedtls_provider i lib)
  mbedtls_provider-IsAead = record {
    seal = seal_with;
    length-seal = length-seal_with;
    encrypt-seal = encrypt_run-seal;
    decrypt-seal = decrypt_run-seal;
  }

module _ (i : Impl) (lib : Cipher) where
  -- The library documents that decryption writes as many bytes as the ciphertext has, also where
  -- the tag turns out to be wrong. So a ciphertext that is longer than the output buffer makes the
  -- call write past its end, whatever its tag.
  pub decrypt_run-overflow :
      (out : List ℕ) (mlen : Option ℕ) (c ad npub k : List ℕ)
      → ((key nonce ad' tag ct : List ℕ)
          → length (lib.auth_decrypt key nonce ad' tag ct).1 ≡ length ct)
      → ((key : List ℕ) → length key ≡ key_len i → lib.setkey key ≡ pos 0)
      → key_len i ≤ length k
      → nonce_len i ≤ length npub
      → length out + tag_len i < length c
      → decrypt_run i lib out mlen c ad npub k ≡ none
  unfolding decrypt_run decrypt_keyed
  decrypt_run-overflow out mlen c ad npub k writes accepts hk hn long =
      let key = take (key_len i) k in
      let nonce = take (nonce_len i) npub in
      let n = length c - tag_len i in
      let not_short : ltb (length c) (tag_len i) ≡ false = ground arith in
      let l = writes key nonce ad (drop n c) (take n c) in
      rw (
        not_short,
        read-some (key_len i) k hk,
        accepts key (length-take (key_len i) k hk),
        read-some (nonce_len i) npub hn,
        copy_at-none out 0 (lib.auth_decrypt key nonce ad (drop n c) (take n c)).1 (omega arith)
            (omega (arith, l, length-take n c (omega arith))),
      )

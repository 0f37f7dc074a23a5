-- ===== src/Aead/Mbedtls.antt =====
-- ascon/components/crypto_aead/provider_aes_gcm.c and provider_chacha20poly1305.c: the two
-- providers over mbed TLS. They are one program over two ciphers of that library, whose functions
-- are parameters here.
pub mod Laws
pub mod Contexts
use esp_network_examples.Prelude.{
  ℕ, zero, ◌+◌, ◌-◌, ℤ, pos, negsuc, is_zero, List, [], ◌∷◌, Option, none, some, ◌>>=◌, ltb,
  if◌then◌else◌, length, take, drop, read, copy_at, Bool,
}
use mathlib.Core.Option
use esp_network_examples.Aead.Provider.{
  Impl, aes_gcm, chacha20_poly1305, key_len, nonce_len, tag_len, Reply, set_len, Operation,
  Provider,
}

-- What a cipher of the library does: `mbedtls_*_setkey` of the key's bytes; the encryption of a
-- message, with its result code, the bytes that it writes to the output and the tag; and the
-- decryption, which writes its output whether or not the tag is right.
pub record Cipher : Type 0 where
  pub setkey : List ℕ → ℤ
  pub encrypt_and_tag : List ℕ → List ℕ → List ℕ → List ℕ → ℤ × List ℕ × List ℕ
  pub auth_decrypt : List ℕ → List ℕ → List ℕ → List ℕ → List ℕ → ℤ × List ℕ

-- The calls on the library's context, with their result codes.
pub data ContextCall : Type 0 where
  init free : ContextCall
  setkey crypt_and_tag auth_decrypt : ℤ → ContextCall

-- What a call of a provider comes to, and the calls that it made, latest first.
pub record Run : Type 0 where
  pub reply : Reply
  pub context : List ContextCall

abbrev returned : ℤ → List ℕ → Option ℕ → List ContextCall → Run
returned ret out len made = record {
  reply = record { ret = ret; out = out; len = len };
  context = made;
}

module _ (i : Impl) (lib : Cipher) where
  -- Behind a key that was accepted: `if (ret == 0 && clen) *clen = mlen + AEAD_TAG_LEN`. The calls
  -- made before come first.
  unfoldable pub encrypt_keyed :
      List ContextCall → List ℕ → Option ℕ → List ℕ → List ℕ → List ℕ → List ℕ → Option Run
  encrypt_keyed made c clen m ad nonce key =
      let (ret, ct, tag) = lib.encrypt_and_tag key nonce ad m in
      copy_at c 0 ct >>= λ c'. copy_at c' (length m) tag >>= λ c''. some (
        returned ret c'' (if is_zero ret then set_len clen (length m + tag_len i) else clen)
          (free ∷ crypt_and_tag ret ∷ made))

  unfoldable pub encrypt_run : List ℕ → Option ℕ → List ℕ → List ℕ → List ℕ → List ℕ → Option Run
  encrypt_run c clen m ad npub k = read (key_len i) k >>= λ key.
      let ret = lib.setkey key in
      let made = setkey ret ∷ init ∷ [] in
      if is_zero ret
      then (read (nonce_len i) npub >>= λ nonce. encrypt_keyed made c clen m ad nonce key)
      else some (returned ret c clen (free ∷ made))

  unfoldable pub decrypt_keyed :
      List ContextCall → List ℕ → Option ℕ → List ℕ → List ℕ → List ℕ → List ℕ → List ℕ → Option Run
  decrypt_keyed made m mlen ct tag ad nonce key =
      let (ret, out) = lib.auth_decrypt key nonce ad tag ct in
      copy_at m 0 out >>= λ m'. some (
        returned ret m' (if is_zero ret then set_len mlen (length ct) else mlen)
          (free ∷ auth_decrypt ret ∷ made))

  unfoldable pub decrypt_run : List ℕ → Option ℕ → List ℕ → List ℕ → List ℕ → List ℕ → Option Run
  decrypt_run m mlen c ad npub k =
      let ct_only = length c - tag_len i in
      if ltb (length c) (tag_len i)
      then some (returned (negsuc 0) m mlen [])
      else (read (key_len i) k >>= λ key.
          let ret = lib.setkey key in
          let made = setkey ret ∷ init ∷ [] in
          if is_zero ret
          then (read (nonce_len i) npub >>= λ nonce.
              decrypt_keyed made m mlen (take ct_only c) (drop ct_only c) ad nonce key)
          else some (returned ret m mlen (free ∷ made)))

  abbrev pub mbedtls_provider : Provider
  mbedtls_provider = record {
    impl = i;
    encrypt = λ c clen m ad npub k. Option.map Run.reply (encrypt_run c clen m ad npub k);
    decrypt = λ m mlen c ad npub k. Option.map Run.reply (decrypt_run m mlen c ad npub k);
  }

abbrev pub gcm_provider : Cipher → Provider
gcm_provider lib = mbedtls_provider aes_gcm lib

abbrev pub chachapoly_provider : Cipher → Provider
chachapoly_provider lib = mbedtls_provider chacha20_poly1305 lib

-- ===== src/Aead/Mbedtls/Contexts.antt =====
-- The contexts of mbed TLS that the providers over it open and free
-- (ascon/components/crypto_aead/provider_aes_gcm.c, provider_chacha20poly1305.c).
use esp_network_examples.Prelude.{
  ℕ, ◌+◌, ◌≤◌, ◌<◌, pos, negsuc, is_zero, List, [], ◌∷◌, Option, some, ◌≡◌, ◌⊎◌, inl, inr, arith,
  length, ltb, ltb→lt, true, false, Bool-cases, not_ltb→le, if◌then◌else◌,
}
use esp_network_examples.Aead.Provider.{Impl, tag_len, set_len}
use esp_network_examples.Aead.Mbedtls.{
  Cipher, ContextCall, init, free, setkey, crypt_and_tag, auth_decrypt, Run, encrypt_keyed,
  encrypt_run, decrypt_keyed, decrypt_run,
}

-- How far the use of a context is, as the library documents it.
pub data ContextState : Type 0 where
  untouched initialised keyed used freed misused : ContextState

-- A context is initialised once, gets its key before it is used, and is freed once, at the end.
abbrev pub next_state : ContextState → ContextCall → ContextState
next_state untouched init = initialised
next_state initialised (setkey ret) = if is_zero ret then keyed else used
next_state keyed (crypt_and_tag ret) = used
next_state keyed (auth_decrypt ret) = used
next_state used free = freed
next_state keyed free = freed
next_state initialised free = freed
next_state _ _ = misused

abbrev pub state_of : List ContextCall → ContextState
state_of [] = untouched
state_of (c ∷ cs) = next_state (state_of cs) c

module _ (i : Impl) (lib : Cipher) where
  encrypt_run_tidy :
      (c : List ℕ) (clen : Option ℕ) (m ad npub k : List ℕ) {r : Run}
      → encrypt_run i lib c clen m ad npub k ≡ some r
      → (state_of r.context ≡ freed)
        × (((r.reply.ret ≡ pos 0) × (r.reply.len ≡ set_len clen (length m + tag_len i)))
            ⊎ (r.reply.len ≡ clen))
  unfolding encrypt_run encrypt_keyed
  encrypt_run_tidy c clen m ad npub k h = ground arith

  decrypt_run-short :
      (out : List ℕ) (mlen : Option ℕ) (c ad npub k : List ℕ) {r : Run}
      → decrypt_run i lib out mlen c ad npub k ≡ some r
      → ltb (length c) (tag_len i) ≡ true
      → (r.context ≡ []) × (r.reply ≡ record { ret = negsuc 0; out = out; len = mlen })
  unfolding decrypt_run
  decrypt_run-short out mlen c ad npub k h short = ground arith

  decrypt_run_tidy :
      (out : List ℕ) (mlen : Option ℕ) (c ad npub k : List ℕ) {r : Run}
      → decrypt_run i lib out mlen c ad npub k ≡ some r
      → ltb (length c) (tag_len i) ≡ false
      → (state_of r.context ≡ freed) × ((r.reply.ret ≡ pos 0) ⊎ (r.reply.len ≡ mlen))
  unfolding decrypt_run decrypt_keyed
  decrypt_run_tidy out mlen c ad npub k h long = ground arith

  -- An encryption and a decryption that do not fault: the encryption writes the output length only
  -- where it reports success, and the decryption too. An input of the decryption that cannot hold a
  -- tag is refused with -1, with no call on a context and nothing written. Otherwise each of the two
  -- initialises its context, uses it only behind a key that was accepted, and frees it once, at last.
  pub runs_tidy :
      (out : List ℕ) (len : Option ℕ) (text ad npub k : List ℕ) {r s : Run}
      → encrypt_run i lib out len text ad npub k ≡ some r
      → decrypt_run i lib out len text ad npub k ≡ some s
      → (state_of r.context ≡ freed)
        × (((r.reply.ret ≡ pos 0) × (r.reply.len ≡ set_len len (length text + tag_len i)))
            ⊎ (r.reply.len ≡ len))
        × (((length text < tag_len i)
              × (s.context ≡ [])
              × (s.reply ≡ record { ret = negsuc 0; out = out; len = len }))
            ⊎ ((tag_len i ≤ length text)
                × (state_of s.context ≡ freed)
                × ((s.reply.ret ≡ pos 0) ⊎ (s.reply.len ≡ len))))
  runs_tidy out len text ad npub k h g =
      let (sealed, written) = encrypt_run_tidy out len text ad npub k h in
      elim (Bool-cases (ltb (length text) (tag_len i))) [
        | inl short ↦
            let (none_made, refused) = decrypt_run-short out len text ad npub k g short in
            (sealed, written, inl (ltb→lt _ _ short, none_made, refused))
        | inr long ↦
            let (opened, told) = decrypt_run_tidy out len text ad npub k g long in
            (sealed, written, inr (not_ltb→le _ _ long, opened, told))
      ]

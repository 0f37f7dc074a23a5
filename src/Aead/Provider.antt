-- ===== src/Aead/Provider.antt =====
-- ascon/components/crypto_aead/include/crypto_aead/crypto_aead.h: the sizes of each
-- implementation, and the interface that the providers implement.
use esp_network_examples.Prelude.{
  ℕ, ◌+◌, ◌≤◌, ℤ, pos, List, ◌++◌, Option, none, some, ◌≡◌, length, drop,
}

pub data Impl : Type 0 where
  ascon aes_gcm chacha20_poly1305 mock : Impl

abbrev pub key_len : Impl → ℕ
key_len ascon = 16
key_len aes_gcm = 16
key_len chacha20_poly1305 = 32
key_len mock = 16

abbrev pub nonce_len : Impl → ℕ
nonce_len ascon = 16
nonce_len aes_gcm = 12
nonce_len chacha20_poly1305 = 12
nonce_len mock = 16

abbrev pub tag_len : Impl → ℕ
tag_len ascon = 16
tag_len aes_gcm = 16
tag_len chacha20_poly1305 = 16
tag_len mock = 16

-- What a call leaves behind: its result, the output buffer, and the cell of the output length,
-- which is `none` for a null pointer.
pub record Reply : Type 0 where
  pub ret : ℤ
  pub out : List ℕ
  pub len : Option ℕ

-- `if (clen) *clen = n`
abbrev pub set_len : Option ℕ → ℕ → Option ℕ
set_len none n = none
set_len (some _) n = some n

-- The arguments of both operations: output buffer, output length, input, associated data, nonce
-- and key. `none` is a fault: an access outside a buffer.
abbrev pub Operation : Type 0
Operation = List ℕ → Option ℕ → List ℕ → List ℕ → List ℕ → List ℕ → Option Reply

pub record Provider : Type 0 where
  pub impl : Impl
  pub encrypt : Operation
  pub decrypt : Operation

-- What the callers need of a provider: encryption writes a sealed message to the start of a
-- buffer with room for it, and decryption of a sealed message under the same associated data,
-- nonce and key gives the message back.
pub record IsAead (p : Provider) : Type 0 where
  pub seal : List ℕ → List ℕ → List ℕ → List ℕ → List ℕ
  pub length-seal :
      (m ad npub k : List ℕ)
      → nonce_len p.impl ≤ length npub
      → key_len p.impl ≤ length k
      → length (seal m ad npub k) ≡ length m + tag_len p.impl
  pub encrypt-seal :
      (c : List ℕ) (clen : Option ℕ) (m ad npub k : List ℕ)
      → nonce_len p.impl ≤ length npub
      → key_len p.impl ≤ length k
      → length m + tag_len p.impl ≤ length c
      → p.encrypt c clen m ad npub k
        ≡ some (record {
          ret = pos 0;
          out = seal m ad npub k ++ drop (length m + tag_len p.impl) c;
          len = set_len clen (length m + tag_len p.impl);
        })
  pub decrypt-seal :
      (out : List ℕ) (mlen : Option ℕ) (m ad npub k : List ℕ)
      → nonce_len p.impl ≤ length npub
      → key_len p.impl ≤ length k
      → length m ≤ length out
      → p.decrypt out mlen (seal m ad npub k) ad npub k
        ≡ some
            (record { ret = pos 0; out = m ++ drop (length m) out; len = set_len mlen (length m) })

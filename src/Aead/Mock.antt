-- ===== src/Aead/Mock.antt =====
-- ascon/components/crypto_aead/provider_mock.c: a mask of key and nonce, and a tag that folds
-- the bytes by exclusive or.
pub mod Mask
pub mod Tag
pub mod Laws
use esp_network_examples.Prelude.{
  ℕ, zero, suc, ◌+◌, ◌-◌, ◌%◌, bit_xor, ℤ, pos, negsuc, Bool, true, false, ◌&&◌, List, [], ◌∷◌,
  Option, none, some, ◌>>=◌, ◌==◌, ltb, if◌then◌else◌, length, get_elem?, take, drop, replicate,
  store, copy_at,
}
use esp_network_examples.Aead.Provider.{
  mock, key_len, nonce_len, tag_len, Reply, set_len, Operation, Provider,
}

-- `acc[i] = k[i % AEAD_KEY_LEN] ^ npub[i % AEAD_NONCE_LEN]`, for the rounds that are left
unfoldable pub tag_init : List ℕ → List ℕ → ℕ → ℕ → List ℕ → Option (List ℕ)
tag_init k npub zero i acc = some acc
tag_init k npub (suc rounds) i acc = do
  a ← get_elem? k (i % key_len mock)
  b ← get_elem? npub (i % nonce_len mock)
  acc' ← store acc i (bit_xor a b)
  tag_init k npub rounds (suc i) acc'

-- `acc[i % AEAD_TAG_LEN] ^= bytes[i]`
unfoldable pub absorb : ℕ → List ℕ → List ℕ → Option (List ℕ)
absorb i [] acc = some acc
absorb i (b ∷ bs) acc = do
  a ← get_elem? acc (i % tag_len mock)
  acc' ← store acc (i % tag_len mock) (bit_xor a b)
  absorb (suc i) bs acc'

unfoldable pub fake_tag : List ℕ → List ℕ → List ℕ → List ℕ → Option (List ℕ)
fake_tag c ad npub k = do
  acc ← tag_init k npub (tag_len mock) 0 (replicate (tag_len mock) 0)
  acc' ← absorb 0 c acc
  absorb 0 ad acc'

-- The loop of both operations: `out[i] = in[i] ^ k[i % AEAD_KEY_LEN] ^ npub[i % AEAD_NONCE_LEN]`
unfoldable pub mask_loop : List ℕ → List ℕ → ℕ → List ℕ → List ℕ → Option (List ℕ)
mask_loop k npub i [] out = some out
mask_loop k npub i (x ∷ xs) out = do
  a ← get_elem? k (i % key_len mock)
  b ← get_elem? npub (i % nonce_len mock)
  out' ← store out i (bit_xor (bit_xor x a) b)
  mask_loop k npub (suc i) xs out'

-- `memcmp(a, b, n) == 0`
unfoldable pub bytes_eq : List ℕ → List ℕ → Bool
bytes_eq [] [] = true
bytes_eq (x ∷ xs) (y ∷ ys) = x == y && bytes_eq xs ys
bytes_eq _ _ = false

unfoldable pub encrypt : Operation
encrypt c clen m ad npub k = do
  c' ← mask_loop k npub 0 m c
  tag ← fake_tag (take (length m) c') ad npub k
  c'' ← copy_at c' (length m) tag
  some (record { ret = pos 0; out = c''; len = set_len clen (length m + tag_len mock) })

-- The rest of `aead_decrypt`, once the tag of the input has been computed.
unfoldable pub open_checked :
    List ℕ → Option ℕ → List ℕ → List ℕ → List ℕ → List ℕ → List ℕ → Option Reply
open_checked m mlen ct tag_in tag npub k =
    if bytes_eq tag tag_in
    then (do
      m' ← mask_loop k npub 0 ct m
      some (record { ret = pos 0; out = m'; len = set_len mlen (length ct) }))
    else some (record { ret = negsuc 0; out = m; len = mlen })

unfoldable pub decrypt : Operation
decrypt m mlen c ad npub k =
    let ct_only = length c - tag_len mock in
    if ltb (length c) (tag_len mock)
    then some (record { ret = negsuc 0; out = m; len = mlen })
    else (do
      tag ← fake_tag (take ct_only c) ad npub k
      open_checked m mlen (take ct_only c) (drop ct_only c) tag npub k)

abbrev pub mock_provider : Provider
mock_provider = record { impl = mock; encrypt = encrypt; decrypt = decrypt }

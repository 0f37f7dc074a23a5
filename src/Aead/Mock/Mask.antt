-- ===== src/Aead/Mock/Mask.antt =====
-- The mask loop of the mock provider (ascon/components/crypto_aead/provider_mock.c) against a
-- pure description of the masked bytes.
use esp_network_examples.Prelude.{
  ℕ, suc, ◌%◌, ◌≤◌, bit_xor, List, [], ◌∷◌, ◌≡◌, refl, ap, ap₂, ◌∙◌, arith, fun_ext, store,
  get_elem?-some, length, get_or, copy_at, ◌>>=◌, bit_xor_cancel, bit_xor_right_comm,
}
use esp_network_examples.Aead.Provider.{mock, key_len, nonce_len}
use esp_network_examples.Aead.Mock.{mask_loop}

-- The bytes that the loop writes from index `i` on.
abbrev pub masked : List ℕ → List ℕ → ℕ → List ℕ → List ℕ
masked k npub i [] = []
masked k npub i (x ∷ xs) =
    bit_xor (bit_xor x (get_or k (i % key_len mock) 0)) (get_or npub (i % nonce_len mock) 0)
    ∷ masked k npub (suc i) xs

pub length-masked :
    (k npub : List ℕ) (i : ℕ) (xs : List ℕ) → length (masked k npub i xs) ≡ length xs
length-masked k npub i [] = refl
length-masked k npub i (x ∷ xs) = ap suc (length-masked k npub (suc i) xs)

-- `x ^ a ^ b ^ a ^ b` is `x`.
unmask_byte : (x a b : ℕ) → bit_xor (bit_xor (bit_xor (bit_xor x a) b) a) b ≡ x
unmask_byte x a b =
    ap (λ (t : ℕ). bit_xor t b) (bit_xor_right_comm (bit_xor x a) b a)
    ∙ bit_xor_cancel _ b
    ∙ bit_xor_cancel x a

-- Masking twice gives the bytes back.
pub masked-masked :
    (k npub : List ℕ) (i : ℕ) (xs : List ℕ) → masked k npub i (masked k npub i xs) ≡ xs
masked-masked k npub i [] = refl
masked-masked k npub i (x ∷ xs) = ap₂ ◌∷◌ (unmask_byte x _ _) (masked-masked k npub (suc i) xs)

-- The loop writes the masked bytes one after the other.
pub mask_loop-copy :
    (k npub : List ℕ) (i : ℕ) (xs out : List ℕ)
    → key_len mock ≤ length k
    → nonce_len mock ≤ length npub
    → mask_loop k npub i xs out ≡ copy_at out i (masked k npub i xs)
unfolding mask_loop
mask_loop-copy k npub i [] out hk hn = refl
mask_loop-copy k npub i (x ∷ xs) out hk hn =
    rw (get_elem?-some k (i % 16) 0 (omega arith), get_elem?-some npub (i % 16) 0 (omega arith))
      (ap
        (λ f.
          store out i (bit_xor (bit_xor x (get_or k (i % 16) 0)) (get_or npub (i % 16) 0)) >>= f)
        (fun_ext (λ o. mask_loop-copy k npub (suc i) xs o hk hn)))

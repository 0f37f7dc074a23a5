-- ===== src/Aead/Mock/Laws.antt =====
-- The mock provider (ascon/components/crypto_aead/provider_mock.c) keeps the contract of an AEAD
-- provider, refuses inputs that are too short or changed in one byte, and faults where its output
-- does not fit.
use esp_network_examples.Prelude.{
  ℕ, ◌+◌, ◌-◌, ◌≤◌, ◌<◌, pos, negsuc, true, false, List, [], ◌∷◌, ◌++◌, Option, none, some, ◌≡◌,
  ◌≢◌, refl, ap₂, ◌∙◌, arith, length, take, drop, length-append, take-append, drop-append,
  copy_at-none, append_assoc, ltb, copy_at_start, copy_at_behind, drop-drop, length-drop,
}
use native.Mathlib.Decide.{ℕ_discrete}
use esp_network_examples.Aead.Provider.{mock, key_len, nonce_len, tag_len, set_len, IsAead, Reply}
use esp_network_examples.Aead.Mock.Mask.{masked, length-masked, masked-masked, mask_loop-copy}
use esp_network_examples.Aead.Mock.Tag.{fake_tag_total, fake_tag-changed}
use esp_network_examples.Aead.Mock.{
  bytes_eq, fake_tag, encrypt, open_checked, decrypt, mock_provider,
}

bytes_eq_refl : (xs : List ℕ) → bytes_eq xs xs ≡ true
unfolding bytes_eq
bytes_eq_refl [] = refl
bytes_eq_refl (x ∷ xs) = ground (arith, bytes_eq_refl xs)

bytes_eq-ne : (xs ys : List ℕ) → xs ≢ ys → bytes_eq xs ys ≡ false
unfolding bytes_eq
bytes_eq-ne [] [] ne = absurd (ne refl)
bytes_eq-ne [] (y ∷ ys) ne = refl
bytes_eq-ne (x ∷ xs) [] ne = refl
bytes_eq-ne (x ∷ xs) (y ∷ ys) ne = elim (ℕ_discrete x y) [
  | yes e ↦ ground (arith, bytes_eq-ne xs ys (λ h. ne (ap₂ ◌∷◌ e h)))
  | no e ↦ ground arith
]

-- The tag of a ciphertext, where it is computed.
abbrev from_some : Option (List ℕ) → List ℕ
from_some none = []
from_some (some t) = t

abbrev tag_of : List ℕ → List ℕ → List ℕ → List ℕ → List ℕ
tag_of c ad npub k = from_some (fake_tag c ad npub k)

abbrev sealed : List ℕ → List ℕ → List ℕ → List ℕ → List ℕ
sealed m ad npub k = masked k npub 0 m ++ tag_of (masked k npub 0 m) ad npub k

encrypt-sealed :
    (c : List ℕ) (clen : Option ℕ) (m ad npub k : List ℕ)
    → nonce_len mock ≤ length npub
    → key_len mock ≤ length k
    → length m + tag_len mock ≤ length c
    → encrypt c clen m ad npub k
      ≡ some (record {
        ret = pos 0;
        out = sealed m ad npub k ++ drop (length m + tag_len mock) c;
        len = set_len clen (length m + tag_len mock);
      })
unfolding encrypt
encrypt-sealed c clen m ad npub k hn hk room =
    let (t, e, l) = fake_tag_total (masked k npub 0 m) ad npub k hk hn in
    let body = masked k npub 0 m in
    let same = length-masked k npub 0 m in
    rw (
      mask_loop-copy k npub 0 m c hk hn,
      copy_at_start body c (omega (arith, same)),
      ← same,
      take-append body (drop (length body) c),
      e,
      copy_at_behind (length body) body t (drop (length body) c) refl
          (omega (arith, same, length-drop (length body) c)),
      drop-drop (length body) (length t) c,
      l,
      append_assoc,
    )

length-sealed :
    (m ad npub k : List ℕ)
    → nonce_len mock ≤ length npub
    → key_len mock ≤ length k
    → length (sealed m ad npub k) ≡ length m + tag_len mock
length-sealed m ad npub k hn hk =
    let (t, e, l) = fake_tag_total (masked k npub 0 m) ad npub k hk hn in
    length-append (masked k npub 0 m) (tag_of (masked k npub 0 m) ad npub k)
    ∙ rw (length-masked k npub 0 m, e, l)

-- Decryption of a ciphertext with its tag behind it goes on to the comparison of the tags.
decrypt_split :
    (out : List ℕ) (mlen : Option ℕ) (ct tag ad npub k : List ℕ) {t : List ℕ}
    → length tag ≡ tag_len mock
    → fake_tag ct ad npub k ≡ some t
    → decrypt out mlen (ct ++ tag) ad npub k ≡ open_checked out mlen ct tag t npub k
unfolding decrypt
decrypt_split out mlen ct tag ad npub k l e =
    let n : length (ct ++ tag) - tag_len mock ≡ length ct = omega (arith, length-append ct tag) in
    let long : ltb (length (ct ++ tag)) (tag_len mock) ≡ false =
      ground (arith, length-append ct tag) in
    rw (long, n, take-append ct tag, drop-append ct tag, e)

decrypt-sealed :
    (out : List ℕ) (mlen : Option ℕ) (m ad npub k : List ℕ)
    → nonce_len mock ≤ length npub
    → key_len mock ≤ length k
    → length m ≤ length out
    → decrypt out mlen (sealed m ad npub k) ad npub k
      ≡ some (record { ret = pos 0; out = m ++ drop (length m) out; len = set_len mlen (length m) })
unfolding open_checked
decrypt-sealed out mlen m ad npub k hn hk room =
    let body = masked k npub 0 m in
    let (t, e, l) = fake_tag_total body ad npub k hk hn in
    rw e (
      decrypt_split out mlen body t ad npub k l e
      ∙ rw (
        bytes_eq_refl t,
        mask_loop-copy k npub 0 body out hk hn,
        masked-masked k npub 0 m,
        copy_at_start m out room,
        length-masked k npub 0 m,
      ))

-- The mock provider keeps the contract of an AEAD provider.
pub mock_provider-IsAead : IsAead mock_provider
mock_provider-IsAead = record {
  seal = sealed;
  length-seal = length-sealed;
  encrypt-seal = encrypt-sealed;
  decrypt-seal = decrypt-sealed;
}

-- Encrypting `m` into a buffer with room for it and decrypting the bytes that were reported gives
-- `m` back, and reports its length, whatever the associated data.
pub decrypt-encrypt :
    (c out m ad npub k : List ℕ)
    → nonce_len mock ≤ length npub
    → key_len mock ≤ length k
    → length m + tag_len mock ≤ length c
    → length m ≤ length out
    → (r : Reply) × (encrypt c (some 0) m ad npub k ≡ some r)
      × (r.len ≡ some (length m + tag_len mock))
      × (decrypt out (some 0) (take (length m + tag_len mock) r.out) ad npub k
          ≡ some (record { ret = pos 0; out = m ++ drop (length m) out; len = some (length m) }))
decrypt-encrypt c out m ad npub k hn hk room fits =
    let l = length-sealed m ad npub k hn hk in
    (
      record {
        ret = pos 0;
        out = sealed m ad npub k ++ drop (length m + tag_len mock) c;
        len = some (length m + tag_len mock);
      },
      encrypt-sealed c (some 0) m ad npub k hn hk room,
      refl,
      rw (← l, take-append (sealed m ad npub k) (drop (length (sealed m ad npub k)) c))
          (decrypt-sealed out (some 0) m ad npub k hn hk fits),
    )

-- A packet whose ciphertext was changed in one byte is refused, and the output is not touched.
pub decrypt_changed :
    (out : List ℕ) (mlen : Option ℕ) (pre : List ℕ) (x y : ℕ) (post tag ad npub k : List ℕ)
    → nonce_len mock ≤ length npub
    → key_len mock ≤ length k
    → x ≢ y
    → length tag ≡ tag_len mock
    → fake_tag (pre ++ (x ∷ post)) ad npub k ≡ some tag
    → decrypt out mlen ((pre ++ (y ∷ post)) ++ tag) ad npub k
      ≡ some (record { ret = negsuc 0; out = out; len = mlen })
unfolding open_checked
decrypt_changed out mlen pre x y post tag ad npub k hn hk ne l h =
    let (a, b, p, q, d) = fake_tag-changed pre x y post ad npub k hk hn ne in
    decrypt_split out mlen (pre ++ (y ∷ post)) tag ad npub k l q
    ∙ rw (bytes_eq-ne b tag (λ e. d (cc)))

-- Input that cannot hold a tag is refused before anything is read.
decrypt_short :
    (out : List ℕ) (mlen : Option ℕ) (c ad npub k : List ℕ)
    → length c < tag_len mock
    → decrypt out mlen c ad npub k ≡ some (record { ret = negsuc 0; out = out; len = mlen })
unfolding decrypt
decrypt_short out mlen c ad npub k h = ground arith

-- A sealed message that is longer than the output buffer makes decryption write past its end.
pub decrypt-overflow :
    (out : List ℕ) (mlen : Option ℕ) (m ad npub k : List ℕ)
    → nonce_len mock ≤ length npub
    → key_len mock ≤ length k
    → length out < length m
    → decrypt out mlen (sealed m ad npub k) ad npub k ≡ none
unfolding open_checked
decrypt-overflow out mlen m ad npub k hn hk long =
    let body = masked k npub 0 m in
    let (t, e, l) = fake_tag_total body ad npub k hk hn in
    rw e (
      decrypt_split out mlen body t ad npub k l e
      ∙ rw (
        bytes_eq_refl t,
        mask_loop-copy k npub 0 body out hk hn,
        masked-masked k npub 0 m,
        copy_at-none out 0 m (omega arith) (omega arith),
      ))

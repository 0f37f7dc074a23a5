-- ===== src/Aead/Mock/Tag.antt =====
-- The tag of the mock provider (ascon/components/crypto_aead/provider_mock.c): it is always
-- computed, and it tells apart two inputs that differ in one byte.
use esp_network_examples.Prelude.{
  ℕ, zero, suc, ◌+◌, ◌%◌, ◌≤◌, ◌<◌, bit_xor, bit_xor_inj_left, bit_xor_inj_right, List, [], ◌∷◌,
  ◌++◌, Option, some, ◌≡◌, ◌≢◌, refl, ap, ◌∙◌, arith, length, get_or, set, replicate,
  get_elem?-some, get_or-set_self, get_or-set_ne, length-set, length-replicate, store-some,
}
use native.Mathlib.Decide.{ℕ_discrete}
use esp_network_examples.Aead.Provider.{mock, key_len, nonce_len, tag_len}
use esp_network_examples.Aead.Mock.{tag_init, absorb, fake_tag}

-- One step of the fold, where the accumulator is as long as a tag.
absorb_step :
    (i b : ℕ) (bs acc : List ℕ)
    → length acc ≡ tag_len mock
    → absorb i (b ∷ bs) acc
      ≡ absorb (suc i) bs (set acc (i % 16) (bit_xor (get_or acc (i % 16) 0) b))
unfolding absorb
absorb_step i b bs acc h = rw (
  get_elem?-some acc (i % 16) 0 (omega arith),
  store-some acc (i % 16) (bit_xor (get_or acc (i % 16) 0) b) (omega arith),
)

-- The fold of the bytes gives some accumulator of the same length.
abbrev Tagged : Option (List ℕ) → Type 0
Tagged o = (t : List ℕ) × (o ≡ some t) × (length t ≡ tag_len mock)

pub absorb_total : (i : ℕ) (bs acc : List ℕ) → length acc ≡ tag_len mock → Tagged (absorb i bs acc)
unfolding absorb
absorb_total i [] acc h = (acc, refl, h)
absorb_total i (b ∷ bs) acc h =
    let next = set acc (i % 16) (bit_xor (get_or acc (i % 16) 0) b) in
    let (t, e, l) = absorb_total (suc i) bs next (length-set acc (i % 16) _ ∙ h) in
    (t, absorb_step i b bs acc h ∙ e, l)

tag_init_total :
    (k npub : List ℕ) (rounds i : ℕ) (acc : List ℕ)
    → key_len mock ≤ length k
    → nonce_len mock ≤ length npub
    → length acc ≡ tag_len mock
    → i + rounds ≤ tag_len mock
    → Tagged (tag_init k npub rounds i acc)
unfolding tag_init
tag_init_total k npub zero i acc hk hn h r = (acc, refl, h)
tag_init_total k npub (suc rounds) i acc hk hn h r =
    let v = bit_xor (get_or k (i % 16) 0) (get_or npub (i % 16) 0) in
    let (t, e, l) =
      tag_init_total k npub rounds (suc i) (set acc i v) hk hn (length-set acc i v ∙ h)
        (omega arith) in
    (
      t,
      rw
          (
            get_elem?-some k (i % 16) 0 (omega arith),
            get_elem?-some npub (i % 16) 0 (omega arith),
            store-some acc i v (omega arith),
          )
          e,
      l,
    )

-- With a key and a nonce of full size a tag is always computed, and has the size of a tag.
pub fake_tag_total :
    (c ad npub k : List ℕ)
    → key_len mock ≤ length k
    → nonce_len mock ≤ length npub
    → Tagged (fake_tag c ad npub k)
unfolding fake_tag
fake_tag_total c ad npub k hk hn =
    let (t0, e0, l0) =
      tag_init_total k npub 16 0 (replicate 16 0) hk hn (length-replicate {A = ℕ} 16 0)
        (omega arith) in
    let (t1, e1, l1) = absorb_total 0 c t0 l0 in
    let (t2, e2, l2) = absorb_total 0 ad t1 l1 in (t2, rw (e0, e1) e2, l2)

-- Two accumulators that differ at `j`.
record Differ (j : ℕ) (a b : List ℕ) : Type 0 where
  length_left : length a ≡ tag_len mock
  length_right : length b ≡ tag_len mock
  in_range : j < tag_len mock
  apart : get_or a j 0 ≢ get_or b j 0

-- Folding a byte in at `m`.
abbrev fold_at : ℕ → ℕ → List ℕ → List ℕ
fold_at m x a = set a m (bit_xor (get_or a m 0) x)

-- Absorbing the same byte at the same place keeps the difference.
fold_at-apart :
    (m x j : ℕ) (a b : List ℕ)
    → m < length a
    → m < length b
    → get_or a j 0 ≢ get_or b j 0
    → get_or (fold_at m x a) j 0 ≢ get_or (fold_at m x b) j 0
fold_at-apart m x j a b ha hb ne h = elim (ℕ_discrete m j) [
  | yes e ↦ ne (
      bit_xor_inj_left _ _ x (
        cc (
          get_or-set_self a m (bit_xor (get_or a m 0) x) 0 ha,
          get_or-set_self b m (bit_xor (get_or b m 0) x) 0 hb,
        )))
  | no e ↦ ne (
      cc (
        get_or-set_ne a m j (bit_xor (get_or a m 0) x) 0 e,
        get_or-set_ne b m j (bit_xor (get_or b m 0) x) 0 e,
      ))
]

fold_at-Differ :
    (i x j : ℕ) (a b : List ℕ)
    → Differ j a b
    → Differ j (fold_at (i % 16) x a) (fold_at (i % 16) x b)
fold_at-Differ i x j a b d = record {
  length_left = length-set a _ _ ∙ d.length_left;
  length_right = length-set b _ _ ∙ d.length_right;
  in_range = d.in_range;
  apart = fold_at-apart (i % 16) x j a b (omega arith) (omega arith) d.apart;
}

-- What two folds give, if they give something, differs.
abbrev DifferIn : ℕ → Option (List ℕ) → Option (List ℕ) → Type 0
DifferIn j p q = (a : List ℕ) × (b : List ℕ) × (p ≡ some a) × (q ≡ some b) × Differ j a b

absorb-Differ :
    (i : ℕ) (bs : List ℕ) (j : ℕ) (a b : List ℕ)
    → Differ j a b
    → DifferIn j (absorb i bs a) (absorb i bs b)
unfolding absorb
absorb-Differ i [] j a b d = (a, b, refl, refl, d)
absorb-Differ i (x ∷ bs) j a b d =
    let (a', b', p, q, d') =
      absorb-Differ (suc i) bs j (fold_at (i % 16) x a) (fold_at (i % 16) x b)
        (fold_at-Differ i x j a b d) in
    (a', b', absorb_step i x bs a d.length_left ∙ p, absorb_step i x bs b d.length_right ∙ q, d')

-- Two inputs that differ in the byte behind `pre` are folded into accumulators that differ.
absorb-changed :
    (i : ℕ) (pre : List ℕ) (x y : ℕ) (post acc : List ℕ)
    → length acc ≡ tag_len mock
    → x ≢ y
    → (j : ℕ) × DifferIn j (absorb i (pre ++ (x ∷ post)) acc) (absorb i (pre ++ (y ∷ post)) acc)
absorb-changed i [] x y post acc h ne =
    let (a, b, p, q, d) =
      absorb-Differ (suc i) post (i % 16) (fold_at (i % 16) x acc) (fold_at (i % 16) y acc)
        (record {
          length_left = length-set acc _ _ ∙ h;
          length_right = length-set acc _ _ ∙ h;
          in_range = omega arith;
          apart = λ e. ne (
              bit_xor_inj_right x y (get_or acc (i % 16) 0) (
                cc (
                  get_or-set_self acc (i % 16) (bit_xor (get_or acc (i % 16) 0) x) 0 (omega arith),
                  get_or-set_self acc (i % 16) (bit_xor (get_or acc (i % 16) 0) y) 0 (omega arith),
                )));
        }) in
    (i % 16, (a, b, absorb_step i x post acc h ∙ p, absorb_step i y post acc h ∙ q, d))
absorb-changed i (z ∷ pre) x y post acc h ne =
    let (j, rest) =
      absorb-changed (suc i) pre x y post (fold_at (i % 16) z acc) (length-set acc _ _ ∙ h) ne in
    let (a, b, p, q, d) = rest in
    (
      j,
      (
        a,
        b,
        absorb_step i z (pre ++ (x ∷ post)) acc h ∙ p,
        absorb_step i z (pre ++ (y ∷ post)) acc h ∙ q,
        d,
      ),
    )

-- The tags of two inputs that differ in one byte differ.
pub fake_tag-changed :
    (pre : List ℕ) (x y : ℕ) (post ad npub k : List ℕ)
    → key_len mock ≤ length k
    → nonce_len mock ≤ length npub
    → x ≢ y
    → (a : List ℕ) × (b : List ℕ) × (fake_tag (pre ++ (x ∷ post)) ad npub k ≡ some a)
      × (fake_tag (pre ++ (y ∷ post)) ad npub k ≡ some b)
      × (a ≢ b)
unfolding fake_tag
fake_tag-changed pre x y post ad npub k hk hn ne =
    let (t0, e0, l0) =
      tag_init_total k npub 16 0 (replicate 16 0) hk hn (length-replicate {A = ℕ} 16 0)
        (omega arith) in
    let (j, rest) = absorb-changed 0 pre x y post t0 l0 ne in
    let (a, b, p, q, d) = rest in
    let (a', b', p', q', d') = absorb-Differ 0 ad j a b d in
    (a', b', rw (e0, p) p', rw (e0, q) q', λ e. d'.apart (ap (λ t. get_or t j 0) e))
